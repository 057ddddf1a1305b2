-- ===== src/CopyEnv/Selection.antt =====
-- The creation step of web/src/features/envs/CopyEnvDialog.tsx: the dialog's React state, the values
-- that a render derives from it, and the handlers of its fields and of the list of elements.
use cassem.Base.{
  ℕ, ◌+◌, ◌-◌, Bool, true, false, not, ◌&&◌, ◌||◌, Option, none, some, List, [], ◌∷◌, ◌++◌, String,
  map, ltb, ◌==◌, if◌then◌else◌, keep, any, length,
}
use cassem.Domain.{Element}
use cassem.Effects.{Reply, resolved, rejected, Failure, api_error, other_error}
use cassem.CopyEnv.Elements.{is_element_empty}
use text.Mathlib.Text.{◌==◌ as str_eq}

pub data EmptyElementStrategy : Type 0 where
  skip copy : EmptyElementStrategy

pub data CopyStep : Type 0 where
  create execute : CopyStep

pub data ProgressState : Type 0 where
  pending doing done failed : ProgressState

pub data CopyResultStatus : Type 0 where
  success skipped failure : CopyResultStatus

pub record CopyResult : Type 0 where
  pub key : String
  pub status : CopyResultStatus
  pub message : Option String
  pub message_key : Option String

pub record CopyProgress : Type 0 where
  pub create_env : ProgressState
  pub copy_elements : ProgressState
  pub complete : ProgressState
  pub completed : ℕ
  pub total : ℕ
  pub results : List CopyResult

abbrev pub create_initial_progress : ℕ → CopyProgress
create_initial_progress total = record {
  create_env = pending;
  copy_elements = pending;
  complete = pending;
  completed = 0;
  total = total;
  results = [];
}

-- `open` is the property of that name, as `openRef` follows it; an error is its message, empty where
-- the dialog's own text is shown.
pub record State : Type 0 where
  pub opened : Bool
  pub step : CopyStep
  pub source_env : String
  pub target_env : String
  pub elements : List Element
  pub selected_keys : List String
  pub empty_strategy : EmptyElementStrategy
  pub loading_elements : Bool
  pub load_error : Option String
  pub copying : Bool
  pub copy_error : Option String
  pub progress : CopyProgress
  pub result_status : CopyResultStatus
  pub load_seq : ℕ
  pub mounted : Bool

abbrev pub initial : State
initial = record {
  opened = true;
  step = create;
  source_env = "";
  target_env = "";
  elements = [];
  selected_keys = [];
  empty_strategy = skip;
  loading_elements = false;
  load_error = none;
  copying = false;
  copy_error = none;
  progress = create_initial_progress 0;
  result_status = success;
  load_seq = 0;
  mounted = true;
}

-- `getErrorMessage(err, '')`.
unfoldable pub message_or_empty : Failure → String
message_or_empty (api_error message) = message
message_or_empty other_error = ""

abbrev pub get_element_key : Element → String
get_element_key element = element.metadata.key

abbrev pub has : List String → String → Bool
has keys key = any (λ other. str_eq other key) keys

-- The values that each render derives from the state.
abbrev pub selected_elements : State → List Element
selected_elements s = keep (λ element. has s.selected_keys (get_element_key element)) s.elements

abbrev pub skips : EmptyElementStrategy → Bool
skips skip = true
skips copy = false

abbrev pub skipped_estimate : State → ℕ
skipped_estimate s =
    if skips s.empty_strategy then length (keep is_element_empty (selected_elements s)) else 0

abbrev pub estimated_copy_count : State → ℕ
estimated_copy_count s = length (selected_elements s) - skipped_estimate s

abbrev pub is_create : CopyStep → Bool
is_create create = true
is_create execute = false

abbrev pub is_given : String → Bool
is_given text = not (str_eq text "")

abbrev pub duplicate_target : List String → State → Bool
duplicate_target envs s = is_given s.target_env && has envs s.target_env

abbrev pub same_target : State → Bool
same_target s = is_given s.target_env && is_given s.source_env && str_eq s.target_env s.source_env

abbrev pub zero_copy : State → Bool
zero_copy s = ltb 0 (length (selected_elements s)) && estimated_copy_count s == 0

unfoldable pub can_start : String → List String → State → Bool
can_start app_id envs s =
    is_given app_id
    && is_given s.source_env
    && is_given s.target_env
    && not (duplicate_target envs s || same_target s)
    && not (zero_copy s)
    && not s.loading_elements
    && ltb 0 (estimated_copy_count s)
    && is_create s.step

abbrev pub is_active : State → Bool
is_active s = s.mounted && s.opened

-- `reset`, when the dialog has closed.
unfoldable pub reset : State → State
reset s = record s {
  step = create;
  source_env = "";
  target_env = "";
  elements = [];
  selected_keys = [];
  empty_strategy = skip;
  loading_elements = false;
  load_error = none;
  copying = false;
  copy_error = none;
  progress = create_initial_progress 0;
  result_status = success;
}

unfoldable pub handle_source_env_change : String → String → State → State
handle_source_env_change app_id value s = record s {
  source_env = value;
  loading_elements = s.opened && is_given app_id && is_given value;
  load_error = none;
}

-- The effect behind a change of `open` or of the source: a new request, by its number.
unfoldable pub load_effect : String → State → State × Option ℕ
load_effect app_id s =
    if s.opened && is_given app_id && is_given s.source_env
    then (record s { load_seq = s.load_seq + 1 }, some (s.load_seq + 1))
    else (s, none)

abbrev pub apply_load : Reply (List Element) → State → State
apply_load (resolved items) s = record s {
  elements = items;
  selected_keys = map get_element_key items;
  load_error = none;
  loading_elements = false;
}
apply_load (rejected reason) s = record s {
  elements = [];
  selected_keys = [];
  load_error = some (message_or_empty reason);
  loading_elements = false;
}

-- The answer of a request counts while the dialog is open and no later request was sent.
unfoldable pub load_settled : ℕ → Reply (List Element) → State → State
load_settled request_id reply s =
    if is_active s && request_id == s.load_seq then apply_load reply s else s

-- A `Set` without one of its keys.
abbrev pub without : String → List String → List String
without key keys = keep (λ other. not (str_eq other key)) keys

unfoldable pub toggle_element : String → State → State
toggle_element key s = record s {
  selected_keys =
      if has s.selected_keys key then without key s.selected_keys else s.selected_keys ++ key ∷ [];
}

unfoldable pub toggle_all : Bool → State → State
toggle_all checked s = record s {
  selected_keys = if checked then map get_element_key s.elements else [];
}
