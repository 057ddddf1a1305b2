-- ===== src/Publish/State.antt =====
-- web/src/features/publish/PublishWizardPage.tsx: the wizard's React state as a record, one function
-- for each handler, and each handler that awaits a call cut at the `await`: what runs before it
-- returns the call as a job with the values that the closure holds, and a `..._settled` function is
-- what runs when the call ends.
--W
--R
--S
--T
use cassem.Base.{
  ℕ, Bool, true, false, not, ◌||◌, Option, none, some, List, [], String, leb, ◌==◌, if◌then◌else◌,
  find, is_empty,
}
use cassem.Domain.{nat, Element}
use cassem.Effects.{Effect}
use cassem.Workflow.{VersionOption}
use text.Mathlib.Text.{◌==◌ as str_eq}

unfoldable pub is_publish_version_disabled : VersionOption → Option ℕ → Bool
is_publish_version_disabled option none = option.published
is_publish_version_disabled option (some using) = leb option.version using

pub record DiffPair : Type 0 where
  pub base : Element
  pub compare : Element

pub record State : Type 0 where
  pub active_step : ℕ
  pub version : String
  pub version_options : List VersionOption
  pub agent_options : List String
  pub instance_options : List String
  pub using_version : Option ℕ
  pub agent_ids : List String
  pub instance_ids : List String
  pub publish_mode : ℕ
  pub diff_pair : Option DiffPair
  pub diff_loaded : Bool
  pub diff_loading : Bool
  pub current_version : Option ℕ
  pub options_loading : Bool
  pub submitting : Bool
  pub mounted : Bool
  pub load_started : Bool

abbrev pub initial : State
initial = record {
  active_step = 0;
  version = "";
  version_options = [];
  agent_options = [];
  instance_options = [];
  using_version = none;
  agent_ids = [];
  instance_ids = [];
  publish_mode = 2;
  diff_pair = none;
  diff_loaded = false;
  diff_loading = false;
  current_version = none;
  options_loading = false;
  submitting = false;
  mounted = false;
  load_started = false;
}

-- The body of the publish request.
pub record Payload : Type 0 where
  pub version : Option ℕ
  pub publish_mode : ℕ
  pub targets : Option (List String × List String)

-- A call that is awaited, with what its continuation uses.
pub data Job : Type 0 where
  load_options_job : Job
  compare_job : VersionOption → ℕ → Job
  publish_job : Payload → Job

-- What a handler leaves behind when it returns or awaits.
pub record Turn : Type 0 where
  pub state : State
  pub effects : List Effect
  pub job : Option Job

abbrev pub turn : State → List Effect → Turn
turn s effects = record { state = s; effects = effects; job = none }

abbrev pub await : State → Job → Turn
await s job = record { state = s; effects = []; job = some job }

-- The values that each render derives from the state.
abbrev pub selected_version : State → Option VersionOption
selected_version s = find (λ option. str_eq option.value s.version) s.version_options

abbrev pub is_valid_option : Option VersionOption → Option ℕ → Bool
is_valid_option none using = false
is_valid_option (some option) using = not (is_publish_version_disabled option using)

abbrev pub version_is_valid : State → Bool
version_is_valid s = is_valid_option (selected_version s) s.using_version

abbrev pub version_of : Option VersionOption → Option ℕ
version_of none = none
version_of (some option) = some option.version

abbrev pub parsed_version : State → Option ℕ
parsed_version s = version_of (selected_version s)

abbrev pub has_explicit_targets : State → Bool
has_explicit_targets s = not (is_empty s.agent_ids) || not (is_empty s.instance_ids)

abbrev pub gray_targets_are_valid : State → Bool
gray_targets_are_valid s = not (s.publish_mode == 1) || has_explicit_targets s

abbrev pub live_version : State → Option ℕ → Option VersionOption
live_version s none = none
live_version s (some using) = find (λ option. option.version == using) s.version_options

abbrev pub strategy_key : ℕ → String
strategy_key mode = if mode == 1 then "operations.publish.gray" else "operations.publish.full"

-- The state before the first published version: nothing to compare with.
abbrev pub baseline : Element → Element
baseline element = record {
  metadata = element.metadata;
  raw = some "";
  version = some (nat 0);
  published = true;
}
