-- ===== src/Instances/World.antt =====
-- The page of instances under any user and any order of answers. The server holds one list for each
-- query and one detail for each instance; the menus may hear anything.
use cassem.Base.{ℕ, ◌≡◌, Bool, true, false, not, ◌&&◌, Option, List, [], ◌∷◌, ◌++◌, String}
use cassem.Base.Pick.{Pick}
use cassem.Effects.{Reply, resolved, rejected, Failure}
use cassem.Instances.State.{
  Instance, State, initial, Query, everything, Job, instances_job, detail_job, apps_job, envs_job,
  keys_job, Turn,
}
use cassem.Instances.Handlers.{
  mount, handle_filter, handle_refresh_all, handle_load_detail, type_app, choose_app, type_env,
  choose_env, type_key, is_given, instances_settled, detail_settled, apps_settled, envs_settled,
  keys_settled,
}

-- The page, the calls that it awaits, and what it asked for last.
pub record World : Type 0 where
  pub view : State
  pub jobs : List Job
  pub asked : Query
  pub asked_detail : String

abbrev pub latest_query : List Job → Query → Query
latest_query [] asked = asked
latest_query (instances_job id query ∷ jobs) asked = query
latest_query (detail_job id instance_id ∷ jobs) asked = latest_query jobs asked
latest_query (apps_job id ∷ jobs) asked = latest_query jobs asked
latest_query (envs_job id app ∷ jobs) asked = latest_query jobs asked
latest_query (keys_job id app env ∷ jobs) asked = latest_query jobs asked

abbrev pub latest_detail : List Job → String → String
latest_detail [] asked = asked
latest_detail (detail_job id instance_id ∷ jobs) asked = instance_id
latest_detail (instances_job id query ∷ jobs) asked = latest_detail jobs asked
latest_detail (apps_job id ∷ jobs) asked = latest_detail jobs asked
latest_detail (envs_job id app ∷ jobs) asked = latest_detail jobs asked
latest_detail (keys_job id app env ∷ jobs) asked = latest_detail jobs asked

abbrev pub after : World → Turn → World
after w (s, sent) = record {
  view = s;
  jobs = sent ++ w.jobs;
  asked = latest_query sent w.asked;
  asked_detail = latest_detail sent w.asked_detail;
}

-- The first render has run its effect, which asks for no detail.
abbrev pub fresh : Turn → World
fresh (s, sent) = record {
  view = s;
  jobs = sent;
  asked = latest_query sent everything;
  asked_detail = "";
}

pub data Event : Type 0 where
  renews filters refreshes : Event
  opens_detail types_app chooses_app types_env chooses_env types_key : String → Event

abbrev pub settled : World → List Job → State → World
settled w rest s = record w { view = s; jobs = rest }

module _ (app env key : String) where
  -- The handler of an event.
  abbrev pub react : Event → State → Turn
  react renews s = mount app env key s
  react filters s = handle_filter s
  react refreshes s = handle_refresh_all s
  react (opens_detail instance_id) s = handle_load_detail instance_id s
  react (types_app value) s = (type_app value s, [])
  react (chooses_app value) s = choose_app value s
  react (types_env value) s = (type_env value s, [])
  react (chooses_env value) s = choose_env value s
  react (types_key value) s = (type_key value s, [])

  -- Whether its control can be used.
  abbrev pub enabled : Event → State → Bool
  enabled filters s = not s.loading
  enabled refreshes s = not s.loading
  enabled (opens_detail instance_id) s = not s.detail_loading && is_given instance_id
  enabled (types_env value) s = is_given s.app
  enabled (chooses_env value) s = is_given s.app
  enabled (types_key value) s = is_given s.app && is_given s.env
  enabled _ s = true

  abbrev pub start : World
  start = fresh (mount app env key (initial app env key))

  module _ (contents : Query → List Instance) (details : String → String) where
    pub data Step (w : World) : World → Type 0 where
      happens :
          (event : Event) → enabled event w.view ≡ true → Step w (after w (react event w.view))
      leaves : Step w (settled w w.jobs (record w.view { mounted = false }))
      instances_arrive :
          (id : ℕ) (query : Query) {rest : List Job}
          → Pick (instances_job id query) w.jobs rest
          → Step w (settled w rest (instances_settled id query (resolved (contents query)) w.view))
      instances_fail :
          (id : ℕ) (query : Query) (reason : Failure) {rest : List Job}
          → Pick (instances_job id query) w.jobs rest
          → Step w (settled w rest (instances_settled id query (rejected reason) w.view))
      detail_arrives :
          (id : ℕ) (instance_id : String) {rest : List Job}
          → Pick (detail_job id instance_id) w.jobs rest
          → Step w (settled w rest (detail_settled id (resolved (details instance_id)) w.view))
      detail_fails :
          (id : ℕ) (instance_id : String) (reason : Failure) {rest : List Job}
          → Pick (detail_job id instance_id) w.jobs rest
          → Step w (settled w rest (detail_settled id (rejected reason) w.view))
      apps_end :
          (id : ℕ) (reply : Reply (List (Option String))) {rest : List Job}
          → Pick (apps_job id) w.jobs rest
          → Step w (settled w rest (apps_settled id reply w.view))
      envs_end :
          (id : ℕ) (app : String) (reply : Reply (List String)) {rest : List Job}
          → Pick (envs_job id app) w.jobs rest
          → Step w (settled w rest (envs_settled id reply w.view))
      keys_end :
          (id : ℕ) (app env : String) (reply : Reply (List (Option String))) {rest : List Job}
          → Pick (keys_job id app env) w.jobs rest
          → Step w (settled w rest (keys_settled id reply w.view))

    pub data Reach : World → Type 0 where
      here : Reach start
      next : {w w' : World} → Reach w → Step w w' → Reach w'
