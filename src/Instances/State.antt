-- ===== src/Instances/State.antt =====
-- The React state of web/src/features/cluster/InstancesPage.tsx with its counters of requests, and
-- the calls that it awaits. A detail, which the page only prints, is the text of its JSON.
use cassem.Base.{ℕ, suc, Bool, true, false, Option, none, List, [], String}
use cassem.Effects.{Failure, api_error, other_error}

pub record InstanceTarget : Type 0 where
  pub app : Option String
  pub env : Option String
  pub key : Option String

pub record Instance : Type 0 where
  pub id : Option String
  pub client_id : Option String
  pub agent_id : Option String
  pub client_ip : Option String
  pub targets : List InstanceTarget
  pub last_renew_timestamp : Option ℕ

-- `useErrorState`: a message, empty for none, and the number of the report.
pub record ErrorFeedback : Type 0 where
  pub message : String
  pub event_key : ℕ

unfoldable pub report_error : String → ErrorFeedback → ErrorFeedback
report_error message error = record { message = message; event_key = suc error.event_key }

-- `getErrorMessage` with a key of the catalogue, which is looked up when it is shown.
unfoldable pub get_error_message : Failure → String → String
get_error_message (api_error message) fallback = message
get_error_message other_error fallback = fallback

pub record State : Type 0 where
  pub app : String
  pub env : String
  pub key : String
  pub app_options : List String
  pub env_options : List String
  pub key_options : List String
  pub candidate_loading : Bool
  pub instances : List Instance
  pub detail : Option String
  pub loading : Bool
  pub detail_loading : Bool
  pub error : ErrorFeedback
  pub detail_error : String
  pub filter_error : String
  pub request_seq : ℕ
  pub detail_request_seq : ℕ
  pub candidate_seq : ℕ
  pub mounted : Bool
  pub load_started : Bool

abbrev pub initial : String → String → String → State
initial initial_app initial_env initial_key = record {
  app = initial_app;
  env = initial_env;
  key = initial_key;
  app_options = [];
  env_options = [];
  key_options = [];
  candidate_loading = false;
  instances = [];
  detail = none;
  loading = true;
  detail_loading = false;
  error = record { message = ""; event_key = 0 };
  detail_error = "";
  filter_error = "";
  request_seq = 0;
  detail_request_seq = 0;
  candidate_seq = 0;
  mounted = false;
  load_started = false;
}

-- Which instances are asked for: all, or those that watch an element.
pub data Query : Type 0 where
  everything : Query
  watchers : String → String → String → Query

-- A call that is awaited, with its number and what it asks for.
pub data Job : Type 0 where
  instances_job : ℕ → Query → Job
  detail_job : ℕ → String → Job
  apps_job : ℕ → Job
  envs_job : ℕ → String → Job
  keys_job : ℕ → String → String → Job

-- A state, and the calls sent, the latest first.
abbrev pub Turn : Type 0
Turn = State × List Job
