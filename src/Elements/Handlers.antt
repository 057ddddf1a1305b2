-- ===== src/Elements/Handlers.antt =====
-- The handlers of web/src/features/elements/ElementsPage.tsx, cut at their awaits: a `..._settled`
-- function is what runs when a call ends, up to the next await.
use cassem.Base.{
  ℕ, ◌+◌, ◌==◌, Bool, true, false, not, ◌&&◌, ◌||◌, Option, none, some, [], ◌∷◌, ◌++◌, String,
  if◌then◌else◌, trim, is_blank,
}
use cassem.Domain.{nat, number}
use cassem.Effects.{Reply, resolved, rejected, label, get_error_message}
use cassem.Content.Validation.{ContentValidationResult, valid_result}
use cassem.Content.Parsers.{Parsers, validate}
use cassem.Elements.State.{
  Location, is_missing, is_at, ElementsResponse, State, no_error, Closure, elements_job, create_job,
  delete_job, Turn, idle, closure_of,
}
use text.Mathlib.Text.{◌==◌ as str_eq}

-- The `finally` of a handler that changes an element.
abbrev pub end_submission : State → State
end_submission s = if s.mounted then record s { submitting = false } else s

-- The handler behind a listing ends with it, if there is one.
abbrev pub end_awaited : Bool → State → State
end_awaited true s = end_submission s
end_awaited false s = s

-- `loadElements` without a location, up to its `return`: its number is the latest one.
abbrev pub missing_location : State → State
missing_location s =
    if s.mounted
    then record s {
      elements = [];
      has_more = false;
      next_seek = "";
      error = label "elements.error.missingLocation";
      loading = false;
      loading_more = false;
    }
    else s

-- `loadElements` of a render with this location, up to its request.
abbrev pub load_elements : Location → String → ℕ → String → Bool → Bool → State → Turn
load_elements at query limit seek append awaited s =
    let t = record s { request_seq = s.request_seq + 1 } in
    if is_missing at then idle (end_awaited awaited (missing_location t)) else (
      t,
      elements_job (s.request_seq + 1)
            (record { location = at; query = query; limit = limit; seek = seek }) append awaited
          ∷ [],
    )

abbrev pub apply_elements : Bool → Reply ElementsResponse → State → State
apply_elements append (resolved found) s = record s {
  elements = if append then s.elements ++ found.elements else found.elements;
  has_more = found.has_more;
  next_seek = found.next_seek;
  error = no_error;
  loading = false;
  loading_more = false;
}
apply_elements append (rejected reason) s = record s {
  elements = if append then s.elements else [];
  has_more = false;
  next_seek = "";
  error = get_error_message reason (label "elements.error.load");
  loading = false;
  loading_more = false;
}

-- Only the latest listing of a mounted page counts.
unfoldable pub list_elements : ℕ → Bool → Reply ElementsResponse → State → State
unfolding get_error_message
list_elements request_id append reply s =
    if s.mounted && request_id == s.request_seq then apply_elements append reply s else s

unfoldable pub elements_settled : ℕ → Bool → Bool → Reply ElementsResponse → State → State
unfolding list_elements
elements_settled request_id append awaited reply s =
    end_awaited awaited (list_elements request_id append reply s)

abbrev pub is_load_key : Option Location → Location → Bool
is_load_key none at = false
is_load_key (some key) at = is_at key at

-- The effect behind a render: it marks the page as mounted, and loads if the location has changed.
-- The microtask that loads runs before any other event.
unfoldable pub load_effect : State → Turn
load_effect s =
    let t = record s { mounted = true } in
    if is_load_key s.load_key s.location
    then idle t
    else load_elements s.location s.query s.page_size "" false false
        (record t { load_key = some s.location })

-- What each handler does before it lists the first page anew.
abbrev pub first_page : State → State
first_page s = record s { loading = true; has_more = false; next_seek = "" }

unfoldable pub handle_search_submit : State → Turn
unfolding trim
handle_search_submit s =
    let query = trim s.query_input in
    load_elements s.location query s.page_size "" false false
      (first_page (record s { query = query }))

unfoldable pub handle_load_more : State → Turn
handle_load_more s =
    if not s.has_more || str_eq s.next_seek "" || s.loading_more
    then idle s
    else load_elements s.location s.query s.page_size s.next_seek true false
        (record s { loading_more = true })

unfoldable pub handle_clear_search : State → Turn
handle_clear_search s =
    load_elements s.location "" s.page_size "" false false
      (first_page (record s { query_input = ""; query = "" }))

unfoldable pub handle_page_size_change : ℕ → State → Turn
handle_page_size_change value s =
    load_elements s.location s.query value "" false false
      (first_page (record s { page_size = value }))

abbrev pub emptied_form : State → State
emptied_form s = record s {
  create_open = false;
  create_key = "";
  create_raw = "";
  create_content_type = 1;
  create_validation = valid_result;
}

unfoldable pub close_create_dialog : State → State
close_create_dialog s = if s.submitting then s else emptied_form s

unfoldable pub close_delete_dialog : State → State
close_delete_dialog s = if s.submitting then s else record s { delete_target = "" }

-- `canApplyMutationResult`.
abbrev pub can_apply_mutation_result : Location → State → Bool
can_apply_mutation_result started s = s.mounted && is_at s.location started

module _ (parsers : Parsers) where
  -- `validateContent(createContentType, createRaw, t)`.
  abbrev pub validation_of : State → ContentValidationResult
  validation_of s = validate parsers (number (nat s.create_content_type)) s.create_raw

  -- The timer of the dialog that creates an element.
  unfoldable pub validate_later : State → State
  validate_later s = if s.create_open then record s { create_validation = validation_of s } else s

  unfoldable pub handle_create : State → Turn
  unfolding trim
  handle_create s =
      let next_key = trim s.create_key in
      if is_missing s.location || is_blank next_key || is_blank (trim s.create_raw)
      then idle s
      else let t = record s { create_validation = validation_of s } in
        if not (validation_of s).valid then idle t else (
          record t { submitting = true; error = no_error },
          create_job (closure_of s) next_key s.create_raw s.create_content_type ∷ [],
        )

-- The listing behind a change, by the handler's closure.
abbrev pub list_again : Closure → State → Turn
list_again c s = load_elements c.location c.query c.page_size "" false true (first_page s)

-- The rest of `handleCreate` behind its request, up to the listing.
unfoldable pub create_settled : Closure → Reply (Unit {0}) → State → Turn
unfolding get_error_message
create_settled c (resolved _) s =
    if can_apply_mutation_result c.location s
    then list_again c (emptied_form s)
    else idle (end_submission s)
create_settled c (rejected reason) s = idle (
    end_submission (
      if can_apply_mutation_result c.location s
      then record s { error = get_error_message reason (label "elements.error.create") }
      else s))

unfoldable pub handle_delete : State → Turn
handle_delete s = if is_missing s.location || str_eq s.delete_target "" then idle s else (
  record s { submitting = true; error = no_error },
  delete_job (closure_of s) s.delete_target ∷ [],
)

-- The rest of `handleDelete` behind its request, up to the listing.
unfoldable pub delete_settled : Closure → Reply (Unit {0}) → State → Turn
unfolding get_error_message
delete_settled c (resolved _) s =
    if can_apply_mutation_result c.location s
    then list_again c (record s { delete_target = "" })
    else idle (end_submission s)
delete_settled c (rejected reason) s = idle (
    end_submission (
      if can_apply_mutation_result c.location s
      then record s { error = get_error_message reason (label "elements.error.delete") }
      else s))
