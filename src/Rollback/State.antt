-- ===== src/Rollback/State.antt =====
-- web/src/features/publish/RollbackWizardPage.tsx: the wizard's React state as a record, and the
-- values that a render derives from it.
use cassem.Base.{
  ℕ, Bool, true, false, not, Option, none, some, List, [], String, leb, ◌==◌, find, if◌then◌else◌,
}
use cassem.Domain.{Element}
use cassem.Effects.{Effect}
use cassem.Workflow.{VersionOption}
use text.Mathlib.Text.{◌==◌ as str_eq}

-- `usingVersion !== null && option.version >= usingVersion`.
abbrev is_not_older : VersionOption → Option ℕ → Bool
is_not_older option none = false
is_not_older option (some using) = leb using option.version

unfoldable pub is_rollback_version_disabled : VersionOption → Option ℕ → Bool
is_rollback_version_disabled option using =
    if option.published then is_not_older option using else true

pub record DiffPair : Type 0 where
  pub base : Element
  pub compare : Element

pub record State : Type 0 where
  pub active_step : ℕ
  pub version : String
  pub version_options : List VersionOption
  pub using_version : Option ℕ
  pub options_loading : Bool
  pub current_version : Option ℕ
  pub diff_pair : Option DiffPair
  pub diff_loaded : Bool
  pub diff_loading : Bool
  pub submitting : Bool
  pub mounted : Bool
  pub load_started : Bool
  pub diff_request_seq : ℕ

abbrev pub initial : State
initial = record {
  active_step = 0;
  version = "";
  version_options = [];
  using_version = none;
  options_loading = false;
  current_version = none;
  diff_pair = none;
  diff_loaded = false;
  diff_loading = false;
  submitting = false;
  mounted = false;
  load_started = false;
  diff_request_seq = 0;
}

-- A call that is awaited, with what its continuation uses: the target, the version in use and the
-- number of the diff request, or the body of the rollback request.
pub data Job : Type 0 where
  load_options_job : Job
  compare_job : VersionOption → ℕ → ℕ → Job
  rollback_job : Option ℕ → Job

-- What a handler leaves behind when it returns or awaits.
pub record Turn : Type 0 where
  pub state : State
  pub effects : List Effect
  pub job : Option Job

abbrev pub turn : State → List Effect → Turn
turn s effects = record { state = s; effects = effects; job = none }

abbrev pub await : State → Job → Turn
await s job = record { state = s; effects = []; job = some job }

-- The values that each render derives from the state.
abbrev pub selected_version : State → Option VersionOption
selected_version s = find (λ option. str_eq option.value s.version) s.version_options

abbrev pub is_valid_option : Option VersionOption → Option ℕ → Bool
is_valid_option none using = false
is_valid_option (some option) using = not (is_rollback_version_disabled option using)

abbrev pub version_is_valid : State → Bool
version_is_valid s = is_valid_option (selected_version s) s.using_version

abbrev pub version_of : Option VersionOption → Option ℕ
version_of none = none
version_of (some option) = some option.version

abbrev pub parsed_version : State → Option ℕ
parsed_version s = version_of (selected_version s)

abbrev pub live_version : State → Option ℕ → Option VersionOption
live_version s none = none
live_version s (some using) = find (λ option. option.version == using) s.version_options
