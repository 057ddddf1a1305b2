-- ===== src/Publish/Handlers.antt =====
-- The handlers of web/src/features/publish/PublishWizardPage.tsx. A handler that awaits a call is cut
-- at the `await`: what runs before it returns the call as a job with the values that the closure
-- holds, and a `..._settled` function of Publish/Settled is what runs when the call ends.
use cassem.Base.{
  ℕ, zero, suc, ◌-◌, Bool, true, false, not, ◌&&◌, ◌||◌, Option, none, some, List, [], ◌∷◌, String,
  ◌==◌, if◌then◌else◌,
}
use cassem.Effects.{error, label, show_toast, navigate_to_detail}
use cassem.Workflow.{VersionOption}
use cassem.Publish.State.{
  State, load_options_job, compare_job, publish_job, Turn, turn, await, selected_version,
  version_is_valid, parsed_version, gray_targets_are_valid, live_version, baseline,
}
use text.Mathlib.Text.{◌==◌ as str_eq}

-- `handleLoadDiffAndAdvance` past its guard, once the diff of before is cleared: with an option in
-- use there is no request, nor with nothing published; otherwise the version in use is requested.
unfoldable pub load_without_live : VersionOption → Option ℕ → State → Turn
load_without_live target none s =
    if not target.published
    then turn
        (record s {
          diff_pair = some (record { base = baseline target.element; compare = target.element });
          diff_loaded = true;
          active_step = 3;
          diff_loading = false;
        })
        []
    else turn (record s { diff_loading = false })
        (show_toast (label "operations.publish.noComparison") error ∷ [])
load_without_live target (some using) s = await s (compare_job target using)

unfoldable pub load_against : Option VersionOption → Option VersionOption → State → Turn
unfolding load_without_live
load_against none live s =
    turn (record s { diff_loading = false })
      (show_toast (label "operations.publish.selectVersion") error ∷ [])
load_against (some target) (some live) s =
    turn
      (record s {
        current_version = s.using_version;
        diff_pair = some (record { base = live.element; compare = target.element });
        diff_loaded = true;
        active_step = 3;
        diff_loading = false;
      })
      []
load_against (some target) none s = load_without_live target s.using_version s

abbrev pub cleared_diff : State → State
cleared_diff s = record s {
  diff_loading = true;
  diff_loaded = false;
  diff_pair = none;
  current_version = none;
}

-- Of the section's texts, the wizard's parameters, an empty one is a missing one.
abbrev pub is_missing : String → String → String → Bool
is_missing app_id env element_key = str_eq app_id "" || str_eq env "" || str_eq element_key ""

module _ (missing_params : Bool) where
  unfoldable pub load_options : State → Turn
  load_options s =
      if missing_params
      then turn s []
      else await (record s { options_loading = true }) load_options_job

  -- The effect of the first render and of those that renew `loadOptions`: it loads once. The
  -- microtask that loads runs before any other event.
  unfoldable pub mount : State → Turn
  unfolding load_options
  mount s =
      if s.load_started
      then turn (record s { mounted = true }) []
      else load_options (record s { mounted = true; load_started = true })

  unfoldable pub handle_load_diff_and_advance : State → Turn
  unfolding load_against
  handle_load_diff_and_advance s =
      if missing_params || not (version_is_valid s) || s.diff_loading || s.submitting
      then turn s []
      else load_against (selected_version s) (live_version s s.using_version) (cleared_diff s)

  unfoldable pub handle_publish : State → Turn
  handle_publish s =
      if missing_params
        || not (version_is_valid s)
        || not (gray_targets_are_valid s)
        || s.submitting
      then turn s []
      else await (record s { submitting = true })
          (publish_job (record {
            version = parsed_version s;
            publish_mode = s.publish_mode;
            targets = if s.publish_mode == 1 then some (s.agent_ids, s.instance_ids) else none;
          }))

  -- `handleNext` past its guards, by `activeStep`.
  unfoldable pub advance : ℕ → State → Turn
  unfolding handle_load_diff_and_advance handle_publish
  advance zero s =
      if not (version_is_valid s)
      then turn s (show_toast (label "operations.publish.selectVersion") error ∷ [])
      else turn (record s { active_step = 1 }) []
  advance (suc zero) s = turn (record s { active_step = 2 }) []
  advance (suc (suc zero)) s =
      if not (gray_targets_are_valid s)
      then turn s (show_toast (label "operations.publish.targetsRequired") error ∷ [])
      else handle_load_diff_and_advance s
  advance (suc (suc (suc zero))) s = turn (record s { active_step = 4 }) []
  advance (suc (suc (suc (suc zero)))) s = handle_publish s
  advance _ s = turn s (navigate_to_detail ∷ [])

  unfoldable pub handle_next : State → Turn
  unfolding advance
  handle_next s =
      if s.submitting || s.diff_loading
      then turn s []
      else if missing_params
      then turn s (show_toast (label "operations.missingParams") error ∷ [])
      else advance s.active_step s

  -- What disables the button "Next".
  unfoldable pub next_disabled : State → Bool
  next_disabled s =
      missing_params
      || s.submitting
      || s.diff_loading
      || s.active_step == 0 && (s.options_loading || not (version_is_valid s))
      || s.active_step == 2 && not (gray_targets_are_valid s)
      || s.active_step == 3 && not s.diff_loaded

  -- What disables the fields of the steps.
  unfoldable pub fields_disabled : State → Bool
  fields_disabled s = s.submitting || s.diff_loading || missing_params

unfoldable pub handle_back : State → Turn
handle_back s =
    if s.submitting then turn s [] else turn (record s { active_step = s.active_step - 1 }) []

-- What disables the button "Back".
unfoldable pub back_disabled : State → Bool
back_disabled s = s.active_step == 0 || s.active_step == 5 || s.submitting || s.diff_loading

-- The `onChange` of the version field.
unfoldable pub change_version : String → State → State
change_version version s = record s {
  version = version;
  diff_loaded = false;
  diff_pair = none;
  current_version = none;
}

-- The `onChange` of the strategy buttons: a full publication has no explicit targets.
unfoldable pub change_publish_mode : ℕ → State → State
change_publish_mode mode s =
    if mode == 2
    then record s { publish_mode = mode; agent_ids = []; instance_ids = [] }
    else record s { publish_mode = mode }

-- The `onChange` of the two target fields.
unfoldable pub change_agent_ids : List String → State → State
change_agent_ids agent_ids s = record s { agent_ids = agent_ids }

unfoldable pub change_instance_ids : List String → State → State
change_instance_ids instance_ids s = record s { instance_ids = instance_ids }
