-- ===== src/Detail/Handlers.antt =====
-- The handlers of web/src/features/elements/ElementDetailPage.tsx, cut at their awaits: a
-- `..._settled` function is what runs when a call ends, up to the next await.
use cassem.Base.{
  ℕ, ◌==◌, Bool, true, false, not, ◌&&◌, ◌||◌, Option, none, some, List, [], ◌∷◌, String,
  if◌then◌else◌, trim, ltb, find,
}
use cassem.Domain.{Number, nat, neg, infinity, nan, Element, ElementMetadata, is_truthy, is_number}
use cassem.Effects.{
  Reply, resolved, rejected, Failure, other_error, text, label, translated, show_toast, success,
  get_error_message,
}
use cassem.Content.Validation.{ContentValidationResult, valid_result}
use cassem.Content.Parsers.{Parsers, validate}
use cassem.Detail.State.{
  Location, is_missing, is_at, State, no_error, metadata_of, draft_of, latest_of, content_type_of,
  Job, submit_job, put_job, get_job, publish_job, Turn, turn, idle,
}
use cassem.Detail.Loading.{text_of_number, end_saving, load_page}

-- `canApplyMutationResult`.
abbrev pub can_apply_mutation_result : Location → State → Bool
can_apply_mutation_result started s = s.mounted && is_at s.location started

unfoldable pub close_new_version_dialog : State → State
close_new_version_dialog s =
    if s.saving then s else record s { new_version_open = false; edit_validation = valid_result }

module _ (parsers : Parsers) where
  -- `validateContent(element?.metadata?.contentType, editRaw, t)`.
  abbrev pub validation_of : State → ContentValidationResult
  validation_of s = validate parsers (content_type_of s) s.edit_raw

  -- The timer of the dialog.
  unfoldable pub validate_later : State → State
  validate_later s =
      if s.new_version_open then record s { edit_validation = validation_of s } else s

  abbrev pub opened : State → State
  opened s = record s {
    edit_raw = s.raw;
    edit_validation = validate parsers (content_type_of s) s.raw;
    error = no_error;
    new_version_open = true;
  }

  abbrev pub open_for : Option Number → State → State
  open_for none s = opened s
  open_for (some draft) s =
      if is_truthy (some draft)
      then record s {
        error =
            translated "elements.error.existingDraft"
              (("version", text (text_of_number draft)) ∷ []);
      }
      else opened s

  -- With a draft there is no second one.
  unfoldable pub handle_open_new_version : State → State
  handle_open_new_version s = open_for (draft_of (metadata_of s.element)) s

  -- What the two handlers of the dialog do up to their first request.
  abbrev pub begin : (Location → String → Job) → State → Turn
  begin request s =
      if is_missing s.location
      then idle s
      else let t = record s { edit_validation = validation_of s } in
        if not (validation_of s).valid
        then idle t
        else turn (record t { saving = true; error = no_error })
            (request s.location s.edit_raw ∷ [])

  unfoldable pub handle_submit_new_version : State → Turn
  handle_submit_new_version s = begin submit_job s

  unfoldable pub handle_publish_directly : State → Turn
  handle_publish_directly s = begin (λ at raw. put_job at raw (latest_of (metadata_of s.element))) s

-- The `catch` and the `finally` of the two handlers.
abbrev pub fail : Location → Failure → String → State → Turn
fail at reason key s = idle (
    end_saving (
      if can_apply_mutation_result at s
      then record s { error = get_error_message reason (label key) }
      else s))

-- The rest of `handleSubmitNewVersion` behind its request, up to the loading of the page.
unfoldable pub submit_settled : Location → Reply (Unit {0}) → State → Turn
unfolding get_error_message
submit_settled at (resolved _) s =
    if can_apply_mutation_result at s
    then load_page at true
        (record s { new_version_open = false; edit_validation = valid_result; loading = true })
    else idle (end_saving s)
submit_settled at (rejected reason) s = fail at reason "elements.error.createVersion" s

-- `handlePublishDirectly` behind its first request.
unfoldable pub put_settled : Location → Option Number → Reply (Unit {0}) → State → Turn
unfolding get_error_message
put_settled at previous (resolved _) s =
    if can_apply_mutation_result at s
    then turn s (get_job at previous ∷ [])
    else idle (end_saving s)
put_settled at previous (rejected reason) s = fail at reason "elements.error.publishDirectly" s

-- `value || 0` of an optional number.
abbrev pub number_or_zero : Option Number → Number
number_or_zero none = nat 0
number_or_zero (some version) = if is_truthy (some version) then version else nat 0

-- `a > b` of numbers.
abbrev pub exceeds : Number → Number → Bool
exceeds nan b = false
exceeds (infinity false) b = false
exceeds (infinity true) (infinity positive) = not positive
exceeds (infinity true) nan = false
exceeds (infinity true) (nat n) = true
exceeds (infinity true) (neg n) = true
exceeds (nat m) nan = false
exceeds (nat m) (infinity positive) = not positive
exceeds (nat m) (nat n) = ltb n m
exceeds (nat m) (neg n) = true
exceeds (neg m) nan = false
exceeds (neg m) (infinity positive) = not positive
exceeds (neg m) (nat n) = false
exceeds (neg m) (neg n) = ltb m n

-- The version that is published: the draft, or else a latest version that is newer than before.
unfoldable pub version_to_publish : Option Number → ElementMetadata → Number
version_to_publish previous metadata =
    let latest = number_or_zero metadata.latest_version in
    let newer = if exceeds latest (number_or_zero previous) then latest else nat 0 in
    if is_truthy metadata.unpublished_version
    then number_or_zero metadata.unpublished_version
    else newer

-- Behind its second request. An error without an `ApiError` is thrown where there is no such version.
unfoldable pub get_settled : Location → Option Number → Reply Element → State → Turn
unfolding get_error_message version_to_publish
get_settled at previous (resolved updated) s =
    let version = version_to_publish previous updated.metadata in
    if not (can_apply_mutation_result at s)
    then idle (end_saving s)
    else if not (is_truthy (some version))
    then fail at other_error "elements.error.publishDirectly" s
    else turn s (publish_job at version ∷ [])
get_settled at previous (rejected reason) s = fail at reason "elements.error.publishDirectly" s

abbrev pub closed_dialogs : State → State
closed_dialogs s = record s {
  publish_direct_confirm_open = false;
  new_version_open = false;
  edit_validation = valid_result;
  loading = true;
}

-- Behind its third request, up to the loading of the page.
unfoldable pub publish_settled : Location → Number → Reply (Unit {0}) → State → Turn
unfolding get_error_message
publish_settled at version (resolved _) s =
    if can_apply_mutation_result at s
    then record (load_page at true (closed_dialogs s)) {
      effects =
          show_toast
            (translated "elements.publishQueued" (("version", text (text_of_number version)) ∷ []))
            success
          ∷ [];
    }
    else idle (end_saving s)
publish_settled at version (rejected reason) s = fail at reason "elements.error.publishDirectly" s

-- `handleLoadDiff` with its two numbers. `number_of` gives `Number(text)` if that is a natural number,
-- as it is for a version of a menu.
abbrev pub diff_of : Option Element → Option Element → State → State
diff_of (some base) (some compare) s = record s {
  diff_pair = some (record { base = base; compare = compare });
  diff_loaded = true;
  error = no_error;
}
diff_of none compare s = record s {
  diff_pair = none;
  diff_loaded = false;
  error = label "elements.error.unavailableVersions";
}
diff_of (some base) none s = record s {
  diff_pair = none;
  diff_loaded = false;
  error = label "elements.error.unavailableVersions";
}

abbrev pub version_at : ℕ → List Element → Option Element
version_at n versions = find (λ (version : Element). is_number version.version n) versions

abbrev pub diff_at : Option ℕ → Option ℕ → State → State
diff_at none compare s = s
diff_at (some base) none s = s
diff_at (some base) (some compare) s =
    if base == 0 || compare == 0
    then s
    else diff_of (version_at base s.versions) (version_at compare s.versions) s

unfoldable pub handle_load_diff : (String → Option ℕ) → State → State
unfolding trim
handle_load_diff number_of s =
    diff_at (number_of (trim s.diff_base)) (number_of (trim s.diff_compare)) s
