-- ===== src/Instances/Handlers.antt =====
-- The handlers of web/src/features/cluster/InstancesPage.tsx, cut at their awaits: a `..._settled`
-- function is what runs when the call with that number ends.
use cassem.Base.{
  ℕ, ◌+◌, ◌==◌, Bool, true, false, not, ◌&&◌, Option, none, some, List, [], ◌∷◌, ◌++◌, String,
  if◌then◌else◌, trim,
}
use cassem.Effects.{Reply, resolved, rejected}
use cassem.Workflow.{id_options}
use cassem.Instances.State.{
  Instance, State, report_error, get_error_message, Query, everything, watchers, instances_job,
  detail_job, apps_job, envs_job, keys_job, Turn,
}
use text.Mathlib.Text.{◌==◌ as str_eq}

abbrev pub is_given : String → Bool
is_given text = not (str_eq text "")

abbrev pub cleared_detail : State → State
cleared_detail s = record s {
  detail_request_seq = s.detail_request_seq + 1;
  detail = none;
  detail_error = "";
  detail_loading = false;
}

-- `loadAll` and `applyFilter` up to their requests.
abbrev pub ask : Query → State → Turn
ask query s = (
  record (cleared_detail s) { request_seq = s.request_seq + 1 },
  instances_job (s.request_seq + 1) query ∷ [],
)

unfoldable pub load_all : State → Turn
load_all s = ask everything s

unfoldable pub apply_filter : String → String → String → State → Turn
unfolding load_all
apply_filter next_app next_env next_key s =
    if is_given next_app && is_given next_env && is_given next_key
    then ask (watchers next_app next_env next_key) s
    else load_all s

abbrev pub failed_key : Query → String
failed_key everything = "operations.instances.loadFailed"
failed_key (watchers _ _ _) = "operations.instances.filterFailed"

abbrev pub apply_instances : Query → Reply (List Instance) → State → State
apply_instances query (resolved found) s = record s {
  instances = found;
  error = report_error "" s.error;
  loading = false;
}
apply_instances query (rejected reason) s = record s {
  instances = [];
  error = report_error (get_error_message reason (failed_key query)) s.error;
  loading = false;
}

unfoldable pub instances_settled : ℕ → Query → Reply (List Instance) → State → State
unfolding report_error get_error_message
instances_settled request_id query reply s =
    if s.mounted && request_id == s.request_seq then apply_instances query reply s else s

unfoldable pub load_apps : State → Turn
load_apps s = (
  record s { candidate_seq = s.candidate_seq + 1; candidate_loading = true },
  apps_job (s.candidate_seq + 1) ∷ [],
)

-- The ids of the apps, without repetitions.
abbrev pub apply_apps : Reply (List (Option String)) → State → State
apply_apps (resolved ids) s = record s {
  app_options = id_options ids;
  filter_error = "";
  candidate_loading = false;
}
apply_apps (rejected reason) s = record s {
  app_options = [];
  filter_error = get_error_message reason "operations.instances.appsFailed";
  candidate_loading = false;
}

unfoldable pub apps_settled : ℕ → Reply (List (Option String)) → State → State
unfolding get_error_message
apps_settled request_id reply s =
    if s.mounted && request_id == s.candidate_seq then apply_apps reply s else s

unfoldable pub load_env_candidates : String → State → Turn
load_env_candidates next_app s =
    let id = s.candidate_seq + 1 in
    if is_given next_app
    then (record s { candidate_seq = id; candidate_loading = true }, envs_job id next_app ∷ [])
    else (
      record s {
        candidate_seq = id;
        env_options = [];
        key_options = [];
        candidate_loading = false;
      },
      [],
    )

abbrev pub apply_envs : Reply (List String) → State → State
apply_envs (resolved envs) s = record s {
  env_options = envs;
  key_options = [];
  filter_error = "";
  candidate_loading = false;
}
apply_envs (rejected reason) s = record s {
  env_options = [];
  key_options = [];
  filter_error = get_error_message reason "operations.instances.envsFailed";
  candidate_loading = false;
}

unfoldable pub envs_settled : ℕ → Reply (List String) → State → State
unfolding get_error_message
envs_settled request_id reply s =
    if s.mounted && request_id == s.candidate_seq then apply_envs reply s else s

unfoldable pub load_key_candidates : String → String → State → Turn
load_key_candidates next_app next_env s =
    let id = s.candidate_seq + 1 in
    if is_given next_app && is_given next_env
    then (
      record s { candidate_seq = id; candidate_loading = true },
      keys_job id next_app next_env ∷ [],
    )
    else (record s { candidate_seq = id; key_options = []; candidate_loading = false }, [])

abbrev pub apply_keys : Reply (List (Option String)) → State → State
apply_keys (resolved keys) s = record s {
  key_options = id_options keys;
  filter_error = "";
  candidate_loading = false;
}
apply_keys (rejected reason) s = record s {
  key_options = [];
  filter_error = get_error_message reason "operations.instances.keysFailed";
  candidate_loading = false;
}

unfoldable pub keys_settled : ℕ → Reply (List (Option String)) → State → State
unfolding get_error_message
keys_settled request_id reply s =
    if s.mounted && request_id == s.candidate_seq then apply_keys reply s else s

-- One handler after another, in the same event.
abbrev pub then_do : (State → Turn) → Turn → Turn
then_do handler (s, jobs) = let (t, more) = handler s in (t, more ++ jobs)

abbrev pub unless_empty : Bool → (State → Turn) → State → Turn
unless_empty given handler s = if given then handler s else (s, [])

-- The first render's effect: the menus, then the instances.
unfoldable pub first_load : String → String → String → State → Turn
unfolding load_apps load_env_candidates load_key_candidates apply_filter load_all
first_load initial_app initial_env initial_key s =
    let app = is_given initial_app in
    let env = app && is_given initial_env in
    then_do
      (λ u.
        if env && is_given initial_key
        then apply_filter initial_app initial_env initial_key u
        else load_all u)
      (then_do (unless_empty env (load_key_candidates initial_app initial_env))
        (then_do (unless_empty app (load_env_candidates initial_app)) (load_apps s)))

-- The effect of a render: it loads once.
unfoldable pub mount : String → String → String → State → Turn
unfolding first_load
mount initial_app initial_env initial_key s =
    if s.load_started
    then (record s { mounted = true }, [])
    else first_load initial_app initial_env initial_key
        (record s { mounted = true; load_started = true })

abbrev pub restart : State → State
restart s = record s { loading = true; error = report_error "" s.error; filter_error = "" }

unfoldable pub handle_filter : State → Turn
unfolding apply_filter report_error trim
handle_filter s = apply_filter (trim s.app) (trim s.env) (trim s.key) (restart s)

abbrev pub emptied : State → State
emptied s = record (restart s) { app = ""; env = ""; key = ""; env_options = []; key_options = [] }

unfoldable pub handle_refresh_all : State → Turn
unfolding load_all report_error
handle_refresh_all s = load_all (emptied s)

unfoldable pub handle_load_detail : String → State → Turn
handle_load_detail instance_id s = (
  record s {
    detail_request_seq = s.detail_request_seq + 1;
    detail_loading = true;
    detail_error = "";
  },
  detail_job (s.detail_request_seq + 1) instance_id ∷ [],
)

abbrev pub apply_detail : Reply String → State → State
apply_detail (resolved data_) s = record s { detail = some data_; detail_loading = false }
apply_detail (rejected reason) s = record s {
  detail = none;
  detail_error = get_error_message reason "operations.instances.detailFailed";
  detail_loading = false;
}

unfoldable pub detail_settled : ℕ → Reply String → State → State
unfolding get_error_message
detail_settled request_id reply s =
    if s.mounted && request_id == s.detail_request_seq then apply_detail reply s else s

-- The fields: what the user types, and what is chosen in a menu.
unfoldable pub type_app : String → State → State
type_app value s = record s { app = value; env = ""; key = ""; env_options = []; key_options = [] }

unfoldable pub choose_app : String → State → Turn
unfolding load_env_candidates
choose_app value s =
    load_env_candidates value (record s { app = value; env = ""; key = ""; key_options = [] })

unfoldable pub type_env : String → State → State
type_env value s = record s { env = value; key = ""; key_options = [] }

unfoldable pub choose_env : String → State → Turn
unfolding load_key_candidates
choose_env value s = load_key_candidates s.app value (record s { env = value; key = "" })

unfoldable pub type_key : String → State → State
type_key value s = record s { key = value }
