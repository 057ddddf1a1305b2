-- ===== src/Apps.antt =====
-- web/src/features/apps/AppsPage.tsx: the search, the pages and the loading of the list of apps, and the
-- dialogs that create and delete one.
pub mod Paging
pub mod World
pub mod Held
pub mod Ready
pub mod Reactions
pub mod Settled
pub mod Latest
mod Tests
use cassem.Base.{
  ℕ, ◌+◌, ◌-◌, ◌==◌, Bool, true, false, not, ◌&&◌, ◌||◌, Option, none, some, List, [], ◌∷◌, ◌++◌,
  String, if◌then◌else◌, trim, max, is_empty,
}
use cassem.Effects.{Reply, resolved, rejected, Message, verbatim, label, get_error_message}
use text.Mathlib.Text.{◌==◌ as str_eq}

-- web/src/domain/types.ts.
pub record AppMetadata : Type 0 where
  pub id : String
  pub description : Option String

pub record AppsResponse : Type 0 where
  pub apps : List AppMetadata
  pub has_more : Bool
  pub next_seek : String

-- What a request asks for.
pub record Params : Type 0 where
  pub page_size : ℕ
  pub query : String
  pub seek : String

-- `error` is the message of the page, the empty text where there is none. The stack of seeks has its
-- top in front.
pub record State : Type 0 where
  pub apps : List AppMetadata
  pub loading : Bool
  pub submitting : Bool
  pub error : Message
  pub create_open : Bool
  pub delete_target : Option AppMetadata
  pub app_id : String
  pub description : String
  pub query_input : String
  pub query : String
  pub page_size : ℕ
  pub seek : String
  pub seek_stack : List String
  pub page_index : ℕ
  pub has_more : Bool
  pub next_seek : String
  pub request_seq : ℕ
  pub load_key : Option Params
  pub mounted : Bool

abbrev pub initial : State
initial = record {
  apps = [];
  loading = true;
  submitting = false;
  error = verbatim "";
  create_open = false;
  delete_target = none;
  app_id = "";
  description = "";
  query_input = "";
  query = "";
  page_size = 15;
  seek = "";
  seek_stack = [];
  page_index = 1;
  has_more = false;
  next_seek = "";
  request_seq = 0;
  load_key = none;
  mounted = false;
}

abbrev pub params_of : State → Params
params_of s = record { page_size = s.page_size; query = s.query; seek = s.seek }

-- A call under way. A listing has its number, what it asks for, and whether a handler that changes an
-- app awaits it; such a handler has in its closure what the listing behind it asks for.
pub data Job : Type 0 where
  apps_job : ℕ → Params → Bool → Job
  create_job : Params → String → String → Job
  delete_job : Params → String → Job

abbrev pub Turn : Type 0
Turn = State × List Job

-- `loadApps` of a render, up to its request.
abbrev pub load_apps : Params → Bool → State → Turn
load_apps asked awaited s =
    (record s { request_seq = s.request_seq + 1 }, apps_job (s.request_seq + 1) asked awaited ∷ [])

abbrev pub same_params : Params → Params → Bool
same_params p q = p.page_size == q.page_size && str_eq p.query q.query && str_eq p.seek q.seek

abbrev pub is_key : Option Params → Params → Bool
is_key none p = false
is_key (some q) p = same_params q p

-- The effect behind a render: it marks the page as mounted, and loads if what is asked for has changed.
unfoldable pub load_effect : State → Turn
load_effect s =
    let t = record s { mounted = true } in
    if is_key s.load_key (params_of s)
    then (t, [])
    else load_apps (params_of s) false (record t { load_key = some (params_of s) })

abbrev pub apply_apps : Reply AppsResponse → State → State
apply_apps (resolved found) s = record s {
  apps = found.apps;
  has_more = found.has_more;
  next_seek = found.next_seek;
  error = verbatim "";
  loading = false;
}
apply_apps (rejected reason) s = record s {
  apps = [];
  has_more = false;
  next_seek = "";
  error = get_error_message reason (label "management.apps.loadFailed");
  loading = false;
}

-- Only the latest request of a mounted page counts.
abbrev pub list_apps : ℕ → Reply AppsResponse → State → State
list_apps request_id reply s =
    if s.mounted && request_id == s.request_seq then apply_apps reply s else s

-- The handler behind a listing ends with it, if there is one.
unfoldable pub apps_settled : ℕ → Bool → Reply AppsResponse → State → State
unfolding get_error_message
apps_settled request_id awaited reply s =
    let t = list_apps request_id reply s in if awaited then record t { submitting = false } else t

abbrev pub reset_paging : State → State
reset_paging s = record s { seek = ""; seek_stack = []; page_index = 1 }

unfoldable pub handle_search : State → State
unfolding trim
handle_search s = reset_paging (record s { query = trim s.query_input })

unfoldable pub handle_clear_search : State → State
handle_clear_search s = reset_paging (record s { query_input = ""; query = "" })

abbrev pub forth : State → State
forth s = record s {
  seek_stack = s.seek ∷ s.seek_stack;
  seek = s.next_seek;
  page_index = s.page_index + 1;
}

unfoldable pub handle_next_page : State → State
handle_next_page s = if not s.has_more || str_eq s.next_seek "" then s else forth s

abbrev pub pop_seek : List String → State → State
pop_seek [] s = s
pop_seek (seek ∷ seeks) s = record s {
  seek_stack = seeks;
  seek = seek;
  page_index = max 1 (s.page_index - 1);
}

unfoldable pub handle_previous_page : State → State
handle_previous_page s = pop_seek s.seek_stack s

unfoldable pub handle_page_size_change : ℕ → State → State
handle_page_size_change value s = reset_paging (record s { page_size = value })

unfoldable pub close_create_dialog : State → State
close_create_dialog s =
    if s.submitting then s else record s { create_open = false; app_id = ""; description = "" }

unfoldable pub close_delete_dialog : State → State
close_delete_dialog s = if s.submitting then s else record s { delete_target = none }

unfoldable pub handle_create : State → Turn
unfolding trim
handle_create s =
    let next_app_id = trim s.app_id in
    let next_description = trim s.description in
    if str_eq next_app_id "" || str_eq next_description "" then (s, []) else (
      record s { submitting = true; error = verbatim "" },
      create_job (params_of s) next_app_id next_description ∷ [],
    )

-- The rest of `handleCreate` behind its request, up to the listing, which is that of the closure.
unfoldable pub create_settled : Params → Reply (Unit {0}) → State → Turn
unfolding get_error_message
create_settled asked (resolved _) s =
    load_apps asked true
      (reset_paging (record s { create_open = false; app_id = ""; description = "" }))
create_settled asked (rejected reason) s = (
  record s {
    error = get_error_message reason (label "management.apps.createFailed");
    submitting = false;
  },
  [],
)

abbrev pub delete_of : Option AppMetadata → State → Turn
delete_of none s = (s, [])
delete_of (some target) s = if str_eq target.id "" then (s, []) else (
  record s { submitting = true; error = verbatim "" },
  delete_job (params_of s) target.id ∷ [],
)

unfoldable pub handle_delete : State → Turn
handle_delete s = delete_of s.delete_target s

-- The rest of `handleDelete` behind its request, up to the listing.
unfoldable pub delete_settled : Params → Reply (Unit {0}) → State → Turn
unfolding get_error_message
delete_settled asked (resolved _) s =
    load_apps asked true (reset_paging (record s { delete_target = none }))
delete_settled asked (rejected reason) s = (
  record s {
    error = get_error_message reason (label "management.apps.deleteFailed");
    submitting = false;
  },
  [],
)
