-- ===== src/Detail/Loading.antt =====
-- The loading of the page of web/src/features/elements/ElementDetailPage.tsx: loadPage with its
-- retention policy, and the effect that starts it.
use cassem.Base.{
  ℕ, ◌+◌, ◌==◌, Bool, true, false, ◌&&◌, Option, none, some, List, [], ◌∷◌, String, if◌then◌else◌,
}
use cassem.Base.Decimal.{decimal}
use cassem.Domain.{Number, nat, neg, infinity, nan, Element, is_truthy}
use cassem.Effects.{Reply, resolved, rejected, text, label, get_error_message}
use cassem.Content.Validation.{valid_result}
use cassem.Detail.State.{
  Location, is_missing, is_at, ElementOperation, RetentionPolicy, State, no_error, Job, page_job,
  retention_job, Turn, turn, idle,
}
use package.text.Mathlib.Text.{◌==◌ as str_eq}

-- The answers of the three requests of a page together.
pub record Loaded : Type 0 where
  pub element : Element
  pub versions : List Element
  pub operations : List ElementOperation

-- `String(value)` of a number.
abbrev pub text_of_number : Number → String
text_of_number (nat n) = decimal n
text_of_number (neg n) = String.◌∷◌ "-" (decimal (n + 1))
text_of_number (infinity true) = "Infinity"
text_of_number (infinity false) = "-Infinity"
text_of_number nan = "NaN"

-- The versions that are numbers.
abbrev pub with_number : Option Number → List Number → List Number
with_number none versions = versions
with_number (some version) versions = version ∷ versions

abbrev pub numbered : List Element → List Number
numbered [] = []
numbered (element ∷ elements) = with_number element.version (numbered elements)

abbrev pub last_of : Number → List Number → Number
last_of version [] = version
last_of version (other ∷ others) = last_of other others

-- The versions that the diff is first set to: the first one, and the last of several.
abbrev pub first_option : List Number → String
first_option [] = ""
first_option (version ∷ versions) = if is_truthy (some version) then text_of_number version else ""

abbrev pub last_option : List Number → String
last_option [] = ""
last_option (version ∷ []) = ""
last_option (version ∷ other ∷ others) = text_of_number (last_of other others)

-- `decodeRaw` of web/src/lib/raw.ts. `decode` is what `atob` and the decoder of UTF-8 make of a text,
-- unless one of them throws.
abbrev pub decode_raw : (String → Option String) → Option String → String
decode_raw decode none = ""
decode_raw decode (some raw) =
    if str_eq raw "" then "" else elim (decode raw) [ none ↦ raw | some content ↦ content ]

-- The `finally` of a handler that changes the element.
abbrev pub end_saving : State → State
end_saving s = if s.mounted then record s { saving = false } else s

abbrev pub end_awaited : Bool → State → State
end_awaited true s = end_saving s
end_awaited false s = s

-- `loadPage` without a location, up to its `return`: its number is the latest one.
abbrev pub missing_location : State → State
missing_location s =
    if s.mounted
    then record s {
      element = none;
      versions = [];
      operations = [];
      retention_policy = none;
      raw = "";
      edit_raw = "";
      edit_validation = valid_result;
      new_version_open = false;
      publish_direct_confirm_open = false;
      preview_version = none;
      error = label "elements.error.missingDetailLocation";
      loading = false;
    }
    else s

-- `loadPage` of a render with this location, up to its requests.
abbrev pub load_page : Location → Bool → State → Turn
load_page at awaited s =
    let t = record s { request_seq = s.request_seq + 1 } in
    if is_missing at
    then idle (end_awaited awaited (missing_location t))
    else turn t (page_job (s.request_seq + 1) at awaited ∷ [])

abbrev pub apply_page : (String → Option String) → Reply Loaded → State → State
apply_page decode (resolved loaded) s =
    let content = decode_raw decode loaded.element.raw in
    let options = numbered loaded.versions in
    record s {
      element = some loaded.element;
      versions = loaded.versions;
      operations = loaded.operations;
      retention_policy = none;
      raw = content;
      edit_raw = content;
      edit_validation = valid_result;
      new_version_open = false;
      preview_version = none;
      diff_base = first_option options;
      diff_compare = last_option options;
      diff_pair = none;
      diff_loaded = false;
      error = no_error;
      loading = false;
    }
apply_page decode (rejected reason) s = record s {
  element = none;
  versions = [];
  operations = [];
  retention_policy = none;
  raw = "";
  edit_raw = "";
  new_version_open = false;
  preview_version = none;
  diff_pair = none;
  diff_loaded = false;
  error = get_error_message reason (label "elements.error.loadDetail");
  loading = false;
}

-- Behind a page that has come, its retention policy is requested, and nothing waits for it.
abbrev pub retention_behind : ℕ → Reply Loaded → List Job
retention_behind request_id (resolved loaded) = retention_job request_id ∷ []
retention_behind request_id (rejected reason) = []

-- Only the latest loading of a mounted page counts.
unfoldable pub page_settled : (String → Option String) → ℕ → Bool → Reply Loaded → State → Turn
unfolding get_error_message
page_settled decode request_id awaited reply s =
    if s.mounted && request_id == s.request_seq
    then turn (end_awaited awaited (apply_page decode reply s)) (retention_behind request_id reply)
    else idle (end_awaited awaited s)

abbrev pub policy_of : Reply RetentionPolicy → Option RetentionPolicy
policy_of (resolved policy) = some policy
policy_of (rejected reason) = none

unfoldable pub retention_settled : ℕ → Reply RetentionPolicy → State → State
retention_settled request_id reply s =
    if s.mounted && request_id == s.request_seq
    then record s { retention_policy = policy_of reply }
    else s

abbrev pub is_load_key : Option Location → Location → Bool
is_load_key none at = false
is_load_key (some key) at = is_at key at

-- The effect behind a render: it marks the page as mounted, and loads if the location has changed.
-- The microtask that loads runs before any other event.
unfoldable pub load_effect : State → Turn
load_effect s =
    let t = record s { mounted = true } in
    if is_load_key s.load_key s.location
    then idle t
    else load_page s.location false (record t { load_key = some s.location })
