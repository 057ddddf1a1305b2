-- ===== src/Rollback/Handlers.antt =====
-- The handlers of web/src/features/publish/RollbackWizardPage.tsx. A handler that awaits a call is cut
-- at the `await`: what runs before it returns the call as a job with the values that the closure
-- holds, and a `..._settled` function is what runs when the call ends.
use cassem.Base.{
  ℕ, zero, suc, ◌+◌, ◌-◌, Bool, true, false, not, ◌&&◌, ◌||◌, Option, none, some, List, [], ◌∷◌,
  String, leb, ◌==◌, if◌then◌else◌,
}
use cassem.Domain.{Element, is_number}
use cassem.Effects.{
  success, error, translated, label, count_or_dash, show_toast, navigate_to_detail, Reply, resolved,
  rejected, get_error_message,
}
use cassem.Workflow.{VersionOption, to_version_options, get_using_version}
use cassem.Rollback.State.{
  State, load_options_job, compare_job, rollback_job, Turn, turn, await, selected_version,
  version_is_valid, parsed_version, live_version,
}

-- The answer of the options request is the elements of the versions.
unfoldable pub apply_options : Reply (List Element) → State → Turn
unfolding get_error_message
apply_options (resolved versions) s =
    turn
      (record s {
        version_options = to_version_options versions;
        using_version = get_using_version versions;
        version = "";
        options_loading = false;
      })
      []
apply_options (rejected failure) s =
    turn (record s { version_options = []; using_version = none; options_loading = false })
      (show_toast (get_error_message failure (label "operations.rollback.loadFailed")) error ∷ [])

unfoldable pub options_settled : Reply (List Element) → State → Turn
unfolding apply_options
options_settled reply s = if s.mounted then apply_options reply s else turn s []

-- The diff of a version that is at hand, unless the target is not older than it.
abbrev pub show_diff : VersionOption → Element → ℕ → Option ℕ → State → Turn
show_diff target base base_version using s =
    if leb base_version target.version
    then turn (record s { diff_loading = false })
        (show_toast (label "operations.rollback.olderRequired") error ∷ [])
    else turn
        (record s {
          current_version = using;
          diff_pair = some (record { base = base; compare = target.element });
          diff_loaded = true;
          active_step = 1;
          diff_loading = false;
        })
        []

-- The rest of `handleLoadDiffAndAdvance` behind its request: `target` and `using` are the selected
-- option and the version in use as they were when the request was sent. Past the first test the
-- answer's version is the number `using`.
unfoldable pub apply_comparison : VersionOption → ℕ → Reply Element → State → Turn
unfolding get_error_message
apply_comparison target using (resolved current) s =
    if not (is_number current.version using)
    then turn (record s { diff_loading = false })
        (show_toast (label "operations.rollback.noComparison") error ∷ [])
    else show_diff target current using (some using) s
apply_comparison target using (rejected failure) s =
    turn (record s { diff_loading = false })
      (show_toast (get_error_message failure (label "operations.rollback.noComparison")) error ∷ [])

-- The answer of an older diff request is dropped.
unfoldable pub comparison_settled : VersionOption → ℕ → ℕ → Reply Element → State → Turn
unfolding apply_comparison
comparison_settled target using request_id reply s =
    if s.mounted && s.diff_request_seq == request_id
    then apply_comparison target using reply s
    else turn s []

-- The rest of `handleRollback` behind its request.
unfoldable pub apply_rollback : Option ℕ → Reply (Unit {0}) → State → Turn
unfolding get_error_message
apply_rollback version (resolved _) s =
    turn (record s { active_step = 3; submitting = false })
      (show_toast
          (translated "operations.rollback.success" (("version", count_or_dash version) ∷ []))
          success
        ∷ [])
apply_rollback version (rejected failure) s =
    turn (record s { submitting = false })
      (show_toast (get_error_message failure (label "operations.rollback.failed")) error ∷ [])

unfoldable pub rollback_settled : Option ℕ → Reply (Unit {0}) → State → Turn
unfolding apply_rollback
rollback_settled version reply s = if s.mounted then apply_rollback version reply s else turn s []

-- `handleLoadDiffAndAdvance` past its guard, once the diff of before is cleared and the request has
-- its number.
unfoldable pub load_without_live : VersionOption → Option ℕ → State → Turn
load_without_live target none s =
    turn (record s { diff_loading = false })
      (show_toast (label "operations.rollback.noComparison") error ∷ [])
load_without_live target (some using) s = await s (compare_job target using s.diff_request_seq)

unfoldable pub load_against : Option VersionOption → Option VersionOption → State → Turn
unfolding load_without_live
load_against none live s =
    turn (record s { diff_loading = false })
      (show_toast (label "operations.rollback.selectVersion") error ∷ [])
load_against (some target) (some live) s =
    show_diff target live.element live.version s.using_version s
load_against (some target) none s = load_without_live target s.using_version s

abbrev pub cleared_diff : State → State
cleared_diff s = record s {
  diff_request_seq = s.diff_request_seq + 1;
  diff_loading = true;
  diff_loaded = false;
  diff_pair = none;
  current_version = none;
}

module _ (missing_params : Bool) where
  unfoldable pub load_options : State → Turn
  load_options s =
      if missing_params
      then turn s []
      else await (record s { options_loading = true }) load_options_job

  -- The effect of the first render and of those that renew `loadOptions`: it loads once. The
  -- microtask that loads runs before any other event.
  unfoldable pub mount : State → Turn
  unfolding load_options
  mount s =
      if s.load_started
      then turn (record s { mounted = true }) []
      else load_options (record s { mounted = true; load_started = true })

  unfoldable pub handle_load_diff_and_advance : State → Turn
  unfolding load_against
  handle_load_diff_and_advance s =
      if missing_params || not (version_is_valid s) || s.diff_loading || s.submitting
      then turn s []
      else load_against (selected_version s) (live_version s s.using_version) (cleared_diff s)

  unfoldable pub handle_rollback : State → Turn
  handle_rollback s =
      if missing_params || not (version_is_valid s) || s.submitting
      then turn s []
      else await (record s { submitting = true }) (rollback_job (parsed_version s))

  -- `handleNext` past its guards, by `activeStep`.
  unfoldable pub advance : ℕ → State → Turn
  unfolding handle_load_diff_and_advance handle_rollback
  advance zero s =
      if not (version_is_valid s)
      then turn s (show_toast (label "operations.rollback.selectVersion") error ∷ [])
      else handle_load_diff_and_advance s
  advance (suc zero) s = turn (record s { active_step = 2 }) []
  advance (suc (suc zero)) s = handle_rollback s
  advance _ s = turn s (navigate_to_detail ∷ [])

  unfoldable pub handle_next : State → Turn
  unfolding advance
  handle_next s =
      if s.submitting || s.diff_loading
      then turn s []
      else if missing_params
      then turn s (show_toast (label "operations.missingParams") error ∷ [])
      else advance s.active_step s

  -- What disables the button "Next".
  unfoldable pub next_disabled : State → Bool
  next_disabled s =
      missing_params
      || s.submitting
      || s.diff_loading
      || s.active_step == 0 && (s.options_loading || not (version_is_valid s))
      || s.active_step == 1 && not s.diff_loaded

  -- What disables the version field.
  unfoldable pub fields_disabled : State → Bool
  fields_disabled s = s.submitting || s.diff_loading || missing_params || s.options_loading

unfoldable pub handle_back : State → Turn
handle_back s =
    if s.submitting then turn s [] else turn (record s { active_step = s.active_step - 1 }) []

-- What disables the button "Back".
unfoldable pub back_disabled : State → Bool
back_disabled s = s.active_step == 0 || s.active_step == 3 || s.submitting || s.diff_loading

-- The `onChange` of the version field.
unfoldable pub change_version : String → State → State
change_version version s = record s {
  version = version;
  diff_loaded = false;
  diff_pair = none;
  current_version = none;
}
