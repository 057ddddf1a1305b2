-- ===== src/Detail/State.antt =====
-- web/src/features/elements/ElementDetailPage.tsx: its React state with its refs, and the calls that
-- it awaits. The ref of the location holds what the last render has.
use cassem.Base.{ℕ, Bool, true, false, ◌&&◌, ◌||◌, Option, none, some, List, [], String}
use cassem.Domain.{Number, Element, ElementMetadata, ContentType, absent}
use cassem.Effects.{Message, Effect, verbatim}
use cassem.Content.Validation.{ContentValidationResult, valid_result}
use text.Mathlib.Text.{◌==◌ as str_eq}

-- The parameters of the route.
pub record Location : Type 0 where
  pub app_id : String
  pub env : String
  pub key : String

abbrev pub is_missing : Location → Bool
is_missing at = str_eq at.app_id "" || str_eq at.env "" || str_eq at.key ""

abbrev pub is_at : Location → Location → Bool
is_at at other = str_eq at.app_id other.app_id && str_eq at.env other.env && str_eq at.key other.key

-- web/src/domain/types.ts. The kind of an operation is a number or a name.
pub record ElementOperation : Type 0 where
  pub operator : Option String
  pub op : ContentType
  pub last_version : Option Number
  pub current_version : Option Number
  pub operated_at : Option Number

pub record RetentionPolicy : Type 0 where
  pub enabled : Bool
  pub keep_version_count : Number
  pub keep_version_days : Number
  pub keep_operation_days : Number
  pub version_policy : String
  pub operation_policy : String

pub record DiffPair : Type 0 where
  pub base : Element
  pub compare : Element

-- `error` is the message of the page, the empty text where there is none.
pub record State : Type 0 where
  pub location : Location
  pub element : Option Element
  pub versions : List Element
  pub operations : List ElementOperation
  pub retention_policy : Option RetentionPolicy
  pub loading : Bool
  pub saving : Bool
  pub diff_loaded : Bool
  pub error : Message
  pub tab : ℕ
  pub raw : String
  pub edit_raw : String
  pub edit_validation : ContentValidationResult
  pub new_version_open : Bool
  pub publish_direct_confirm_open : Bool
  pub preview_version : Option Element
  pub diff_base : String
  pub diff_compare : String
  pub diff_pair : Option DiffPair
  pub request_seq : ℕ
  pub mounted : Bool
  pub load_key : Option Location

abbrev pub no_error : Message
no_error = verbatim ""

abbrev pub initial : Location → State
initial at = record {
  location = at;
  element = none;
  versions = [];
  operations = [];
  retention_policy = none;
  loading = true;
  saving = false;
  diff_loaded = false;
  error = no_error;
  tab = 0;
  raw = "";
  edit_raw = "";
  edit_validation = valid_result;
  new_version_open = false;
  publish_direct_confirm_open = false;
  preview_version = none;
  diff_base = "";
  diff_compare = "";
  diff_pair = none;
  request_seq = 0;
  mounted = false;
  load_key = none;
}

-- The values that each render derives from the state.
abbrev pub metadata_of : Option Element → Option ElementMetadata
metadata_of none = none
metadata_of (some element) = some element.metadata

abbrev pub type_of : Option ElementMetadata → ContentType
type_of none = absent
type_of (some metadata) = metadata.content_type

abbrev pub draft_of : Option ElementMetadata → Option Number
draft_of none = none
draft_of (some metadata) = metadata.unpublished_version

abbrev pub latest_of : Option ElementMetadata → Option Number
latest_of none = none
latest_of (some metadata) = metadata.latest_version

-- `element?.metadata?.contentType`.
abbrev pub content_type_of : State → ContentType
content_type_of s = type_of (metadata_of s.element)

-- A call that is awaited. The loading of the page, which is three requests at once, has its number
-- and whether a handler that changes the element awaits it; direct publication is three calls, and
-- knows the latest version that was on the screen when it began.
pub data Job : Type 0 where
  page_job : ℕ → Location → Bool → Job
  retention_job : ℕ → Job
  submit_job : Location → String → Job
  put_job : Location → String → Option Number → Job
  get_job : Location → Option Number → Job
  publish_job : Location → Number → Job

-- What a handler leaves behind when it returns or awaits.
pub record Turn : Type 0 where
  pub state : State
  pub effects : List Effect
  pub jobs : List Job

abbrev pub turn : State → List Job → Turn
turn s jobs = record { state = s; effects = []; jobs = jobs }

abbrev pub idle : State → Turn
idle s = turn s []
