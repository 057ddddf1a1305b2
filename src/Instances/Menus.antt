-- ===== src/Instances/Menus.antt =====
-- The menu of apps on a page that opens with an app in its address.
use cassem.Base.{
  ℕ, ◌+◌, ◌≤◌, inl, inr, trim, ◌∙◌, ◌≡◌, refl, ◌<◌, Bool, true, false, ◌&&◌, ◌==◌, List, [], ◌∷◌,
  ◌++◌, String, arith, All, Bool-cases, if◌then◌else◌,
}
use cassem.Base.Pick.{All-Pick}
use cassem.Effects.{resolved, rejected}
use cassem.Instances.State.{
  Instance, State, Query, Job, instances_job, detail_job, apps_job, envs_job, keys_job, Turn,
  initial,
}
use cassem.Instances.Handlers.{
  is_given, then_do, unless_empty, load_apps, load_env_candidates, load_key_candidates,
  apply_filter, load_all, mount, handle_filter, handle_refresh_all, handle_load_detail, type_app,
  choose_app, type_env, choose_env, type_key, restart, apply_instances, apply_detail, apply_envs,
  apply_keys, instances_settled, detail_settled, apps_settled, envs_settled, keys_settled,
}
use cassem.Instances.World.{
  World, start, Event, renews, filters, refreshes, opens_detail, types_app, chooses_app, types_env,
  chooses_env, types_key, react, Step, happens, leaves, instances_arrive, instances_fail,
  detail_arrives, detail_fails, apps_end, envs_end, keys_end, Reach, here, next,
}

-- A request for the apps has been overtaken by another request for a menu.
abbrev Overtaken : ℕ → Job → Type 0
Overtaken n (apps_job id) = id < n
Overtaken n _ = Unit

abbrev Empty : State → List Job → Type 0
Empty s jobs = (s.app_options ≡ []) × (s.load_started ≡ true) × All (Overtaken s.candidate_seq) jobs

Overtaken-later :
    (n m : ℕ) (jobs : List Job) → n ≤ m → All (Overtaken n) jobs → All (Overtaken m) jobs
Overtaken-later n m [] le a = tt
Overtaken-later n m (instances_job id query ∷ jobs) le a = (tt, Overtaken-later n m jobs le a.1)
Overtaken-later n m (detail_job id instance_id ∷ jobs) le a = (tt, Overtaken-later n m jobs le a.1)
Overtaken-later n m (apps_job id ∷ jobs) le (lt, a) = (omega arith, Overtaken-later n m jobs le a)
Overtaken-later n m (envs_job id app ∷ jobs) le a = (tt, Overtaken-later n m jobs le a.1)
Overtaken-later n m (keys_job id app env ∷ jobs) le a = (tt, Overtaken-later n m jobs le a.1)

apply_filter-Empty :
    (app env key : String) (s : State) (jobs : List Job)
    → Empty s jobs
    → Empty (apply_filter app env key s).0 ((apply_filter app env key s).1 ++ jobs)
unfolding apply_filter load_all
apply_filter-Empty app env key s jobs (none_yet, on, a) =
    elim (Bool-cases (is_given app && is_given env && is_given key)) [
      | inl all_given ↦ rw all_given (none_yet, on, (tt, a))
      | inr missing ↦ rw missing (none_yet, on, (tt, a))
    ]

load_env_candidates-Empty :
    (app : String) (s : State) (jobs : List Job)
    → Empty s jobs
    → Empty (load_env_candidates app s).0 ((load_env_candidates app s).1 ++ jobs)
unfolding load_env_candidates
load_env_candidates-Empty app s jobs (none_yet, on, a) =
    let later = Overtaken-later s.candidate_seq (s.candidate_seq + 1) jobs (omega arith) a in
    elim (Bool-cases (is_given app)) [
      | inl given ↦ rw given (none_yet, on, (tt, later))
      | inr missing ↦ rw missing (none_yet, on, later)
    ]

load_key_candidates-Empty :
    (app env : String) (s : State) (jobs : List Job)
    → Empty s jobs
    → Empty (load_key_candidates app env s).0 ((load_key_candidates app env s).1 ++ jobs)
unfolding load_key_candidates
load_key_candidates-Empty app env s jobs (none_yet, on, a) =
    let later = Overtaken-later s.candidate_seq (s.candidate_seq + 1) jobs (omega arith) a in
    elim (Bool-cases (is_given app && is_given env)) [
      | inl given ↦ rw given (none_yet, on, (tt, later))
      | inr missing ↦ rw missing (none_yet, on, later)
    ]

-- Each answer leaves the menu of apps and the numbers alone, the overtaken one of the apps too.
settled-Empty :
    (s : State) (counts : Bool) (v : State) (rest : List Job)
    → (s.app_options ≡ v.app_options)
      × (s.load_started ≡ v.load_started)
      × (s.candidate_seq ≡ v.candidate_seq)
    → Empty v rest
    → Empty (if counts then s else v) rest
settled-Empty s true v rest (a, b, c) e =
    (a ∙ e.0, b ∙ e.1, Overtaken-later v.candidate_seq s.candidate_seq rest (omega arith) e.2)
settled-Empty s false v rest same e = e

module _ (app env key : String) where
  react-Empty :
      (event : Event) (v : State) (jobs : List Job)
      → Empty v jobs
      → Empty (react app env key event v).0 ((react app env key event v).1 ++ jobs)
  unfolding mount handle_filter handle_refresh_all handle_load_detail type_app choose_app type_env
      choose_env type_key load_all
  react-Empty renews v jobs e = rw e.1 (e.0, refl, e.2)
  react-Empty filters v jobs e =
      apply_filter-Empty (trim v.app) (trim v.env) (trim v.key) (restart v) jobs e
  react-Empty refreshes v jobs e = (e.0, e.1, (tt, e.2))
  react-Empty (opens_detail instance_id) v jobs e = (e.0, e.1, (tt, e.2))
  react-Empty (types_app value) v jobs e = e
  react-Empty (types_env value) v jobs e = e
  react-Empty (types_key value) v jobs e = e
  react-Empty (chooses_app value) v jobs e =
      load_env_candidates-Empty value
        (record v { app = value; env = ""; key = ""; key_options = [] }) jobs e
  react-Empty (chooses_env value) v jobs e =
      load_key_candidates-Empty v.app value (record v { env = value; key = "" }) jobs e

  module _ (contents : Query → List Instance) (details : String → String) where
    Step-Empty :
        {w w' : World}
        → Step app env key contents details w w'
        → Empty w.view w.jobs
        → Empty w'.view w'.jobs
    unfolding instances_settled detail_settled apps_settled envs_settled keys_settled
    Step-Empty {w} (happens event free) e = react-Empty event w.view w.jobs e
    Step-Empty leaves e = e
    Step-Empty {w} (instances_arrive id query {rest} p) (none_yet, on, a) =
        settled-Empty (apply_instances query (resolved (contents query)) w.view)
          (w.view.mounted && id == w.view.request_seq) w.view rest (refl, refl, refl)
          (none_yet, on, (All-Pick (Overtaken w.view.candidate_seq) p a).1)
    Step-Empty {w} (instances_fail id query reason {rest} p) (none_yet, on, a) =
        settled-Empty (apply_instances query (rejected reason) w.view)
          (w.view.mounted && id == w.view.request_seq) w.view rest (refl, refl, refl)
          (none_yet, on, (All-Pick (Overtaken w.view.candidate_seq) p a).1)
    Step-Empty {w} (detail_arrives id instance_id {rest} p) (none_yet, on, a) =
        settled-Empty (apply_detail (resolved (details instance_id)) w.view)
          (w.view.mounted && id == w.view.detail_request_seq) w.view rest (refl, refl, refl)
          (none_yet, on, (All-Pick (Overtaken w.view.candidate_seq) p a).1)
    Step-Empty {w} (detail_fails id instance_id reason {rest} p) (none_yet, on, a) =
        settled-Empty (apply_detail (rejected reason) w.view)
          (w.view.mounted && id == w.view.detail_request_seq) w.view rest (refl, refl, refl)
          (none_yet, on, (All-Pick (Overtaken w.view.candidate_seq) p a).1)
    Step-Empty {w} (envs_end id _ (resolved found) {rest} p) (none_yet, on, a) =
        settled-Empty (apply_envs (resolved found) w.view)
          (w.view.mounted && id == w.view.candidate_seq) w.view rest (refl, refl, refl)
          (none_yet, on, (All-Pick (Overtaken w.view.candidate_seq) p a).1)
    Step-Empty {w} (envs_end id _ (rejected reason) {rest} p) (none_yet, on, a) =
        settled-Empty (apply_envs (rejected reason) w.view)
          (w.view.mounted && id == w.view.candidate_seq) w.view rest (refl, refl, refl)
          (none_yet, on, (All-Pick (Overtaken w.view.candidate_seq) p a).1)
    Step-Empty {w} (keys_end id _ _ (resolved found) {rest} p) (none_yet, on, a) =
        settled-Empty (apply_keys (resolved found) w.view)
          (w.view.mounted && id == w.view.candidate_seq) w.view rest (refl, refl, refl)
          (none_yet, on, (All-Pick (Overtaken w.view.candidate_seq) p a).1)
    Step-Empty {w} (keys_end id _ _ (rejected reason) {rest} p) (none_yet, on, a) =
        settled-Empty (apply_keys (rejected reason) w.view)
          (w.view.mounted && id == w.view.candidate_seq) w.view rest (refl, refl, refl)
          (none_yet, on, (All-Pick (Overtaken w.view.candidate_seq) p a).1)
    Step-Empty {w} (apps_end id reply {rest} p) (none_yet, on, a) =
        let (overtaken, others) = All-Pick (Overtaken w.view.candidate_seq) p a in
        let stale : (w.view.mounted && id == w.view.candidate_seq) ≡ false = ground arith in
        rw stale (none_yet, on, others)

    keys-Empty :
        (given : Bool) (t : Turn)
        → Empty t.0 t.1
        → let u = then_do (unless_empty given (load_key_candidates app env)) t in Empty u.0 u.1
    keys-Empty true t e = load_key_candidates-Empty app env t.0 t.1 e
    keys-Empty false t e = e

    query-Empty :
        (given : Bool) (t : Turn)
        → Empty t.0 t.1
        → let u = then_do (λ s. if given then apply_filter app env key s else load_all s) t in
          Empty u.0 u.1
    unfolding load_all
    query-Empty true t e = apply_filter-Empty app env key t.0 t.1 e
    query-Empty false t e = (e.0, e.1, (tt, e.2))

    start-Empty : is_given app ≡ true → Empty (start app env key).view (start app env key).jobs
    unfolding mount load_apps load_env_candidates
    start-Empty given =
        let shown : State = record (initial app env key) { mounted = true; load_started = true } in
        let asks_envs : Turn =
          then_do (unless_empty (is_given app) (load_env_candidates app)) (load_apps shown) in
        let e : Empty asks_envs.0 asks_envs.1 = rw given (refl, refl, (tt, (omega arith, tt))) in
        let has_env = is_given app && is_given env in
        query-Empty (has_env && is_given key)
          (then_do (unless_empty has_env (load_key_candidates app env)) asks_envs)
          (keys-Empty has_env asks_envs e)

    Reach-Empty :
        {w : World}
        → is_given app ≡ true
        → Reach app env key contents details w
        → Empty w.view w.jobs
    Reach-Empty given here = start-Empty given
    Reach-Empty given (next r s) = Step-Empty s (Reach-Empty given r)

-- A page that opens with an app in its address never offers an app in its menu: the request for the
-- apps is overtaken by the one for the app's environments, and its answer is dropped.
pub Reach-no_apps :
    (app env key : String) (contents : Query → List Instance) (details : String → String)
    (w : World)
    → is_given app ≡ true
    → Reach app env key contents details w
    → w.view.app_options ≡ []
Reach-no_apps app env key contents details w given r =
    (Reach-Empty app env key contents details given r).0
