-- ===== src/Elements/State.antt =====
-- web/src/features/elements/ElementsPage.tsx: its React state with its refs, and the calls that it
-- awaits. The refs of the search, the page size and the location hold what the last render has.
use cassem.Base.{ℕ, Bool, true, false, ◌&&◌, ◌||◌, Option, none, List, [], String}
use cassem.Domain.{Element}
use cassem.Effects.{Message, verbatim}
use cassem.Content.Validation.{ContentValidationResult, valid_result}
use text.Mathlib.Text.{◌==◌ as str_eq}

-- The parameters of the route.
pub record Location : Type 0 where
  pub app_id : String
  pub env : String

-- A location without an app or an environment has no elements.
abbrev pub is_missing : Location → Bool
is_missing at = str_eq at.app_id "" || str_eq at.env ""

abbrev pub is_at : Location → Location → Bool
is_at at other = str_eq at.app_id other.app_id && str_eq at.env other.env

pub record ElementsResponse : Type 0 where
  pub elements : List Element
  pub has_more : Bool
  pub next_seek : String

-- `error` is the message of the page, the empty text where there is none.
pub record State : Type 0 where
  pub location : Location
  pub elements : List Element
  pub loading : Bool
  pub submitting : Bool
  pub error : Message
  pub query_input : String
  pub query : String
  pub page_size : ℕ
  pub has_more : Bool
  pub next_seek : String
  pub loading_more : Bool
  pub create_open : Bool
  pub delete_target : String
  pub create_key : String
  pub create_raw : String
  pub create_content_type : ℕ
  pub create_validation : ContentValidationResult
  pub request_seq : ℕ
  pub mounted : Bool
  pub load_key : Option Location

abbrev pub no_error : Message
no_error = verbatim ""

abbrev pub initial : Location → State
initial at = record {
  location = at;
  elements = [];
  loading = true;
  submitting = false;
  error = no_error;
  query_input = "";
  query = "";
  page_size = 15;
  has_more = false;
  next_seek = "";
  loading_more = false;
  create_open = false;
  delete_target = "";
  create_key = "";
  create_raw = "";
  create_content_type = 1;
  create_validation = valid_result;
  request_seq = 0;
  mounted = false;
  load_key = none;
}

-- What a listing is asked for: the search, the page size, and the place where the page begins.
pub record Request : Type 0 where
  pub location : Location
  pub query : String
  pub limit : ℕ
  pub seek : String

-- What a handler that changes an element has in its closure for the listing behind the change.
pub record Closure : Type 0 where
  pub location : Location
  pub query : String
  pub page_size : ℕ

-- A call that is awaited. A listing has its number, whether it is appended, and whether a handler
-- that changes an element awaits it.
pub data Job : Type 0 where
  elements_job : ℕ → Request → Bool → Bool → Job
  create_job : Closure → String → String → ℕ → Job
  delete_job : Closure → String → Job

abbrev pub Turn : Type 0
Turn = State × List Job

abbrev pub idle : State → Turn
idle s = (s, [])

abbrev pub closure_of : State → Closure
closure_of s = record { location = s.location; query = s.query; page_size = s.page_size }
