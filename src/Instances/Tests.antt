-- ===== src/Instances/Tests.antt =====
-- Runs of the page of instances, and its theorems at concrete inputs.
use cassem.Base.{◌≡◌, refl, true, false, trim, Option, none, some, List, [], ◌∷◌, String}
use cassem.Base.Pick.{first, later}
use cassem.Effects.{Reply, resolved}
use cassem.Instances.State.{
  Instance, State, initial, Query, everything, watchers, apps_job, envs_job, keys_job,
}
use cassem.Instances.Handlers.{
  mount, handle_filter, handle_refresh_all, handle_load_detail, type_app, choose_app,
  instances_settled, detail_settled, apps_settled, envs_settled, keys_settled,
}
use cassem.Instances.World.{World, settled, start, instances_arrive, apps_end, Reach, here, next}
use cassem.Instances.Shown.{Shows, ShowsDetail}
use cassem.Instances.Latest.{Reach-Shows}
use cassem.Instances.Menus.{Reach-no_apps}

page : Unit {0}
unfolding mount handle_filter handle_refresh_all handle_load_detail choose_app type_app
    instances_settled detail_settled apps_settled envs_settled keys_settled
page = tt

trimmed : trim "\t db.json  " ≡ "db.json"
unfolding trim
trimmed = refl

abbrev instance_of : String → Instance
instance_of id = record {
  id = some id;
  client_id = some id;
  agent_id = none;
  client_ip = none;
  targets = [];
  last_renew_timestamp = none;
}

abbrev contents : Query → List Instance
contents everything = instance_of "a" ∷ instance_of "b" ∷ []
contents (watchers app env key) = instance_of "a" ∷ []

abbrev details : String → String
details id = id

-- A page that opens on one element, and hears the instances first and the apps last.
abbrev opened : World
opened = start "shop" "prod" "db.json"

abbrev asked : Query
asked = watchers "shop" "prod" "db.json"

abbrev listed : World
listed =
    settled opened (keys_job 3 "shop" "prod" ∷ envs_job 2 "shop" ∷ apps_job 1 ∷ [])
      (instances_settled 1 asked (resolved (contents asked)) opened.view)

abbrev app_ids : Reply (List (Option String))
app_ids = resolved (some "shop" ∷ some "blog" ∷ [])

abbrev answered : World
answered =
    settled listed (keys_job 3 "shop" "prod" ∷ envs_job 2 "shop" ∷ [])
      (apps_settled 1 app_ids listed.view)

Reach-answered : Reach "shop" "prod" "db.json" contents details answered
unfolding page
Reach-answered =
    next (next here (instances_arrive 1 asked first)) (apps_end 1 app_ids (later (later first)))

shows_watchers : answered.view.instances ≡ instance_of "a" ∷ []
unfolding page
shows_watchers = refl

-- The answer for a chosen app fills the menu of environments after another app has been typed.
abbrev retyped : State
retyped = envs_settled 2 (resolved ("prod" ∷ [])) (
    type_app "blog"
      (choose_app "shop" (record (initial "" "" "") { mounted = true; candidate_seq = 1 })).0)

offers_wrong_envs : (retyped.app ≡ "blog") × (retyped.env_options ≡ "prod" ∷ [])
unfolding page
offers_wrong_envs = (refl, refl)

Reach-Shows_example :
    ((answered.view.loading ≡ false) → Shows contents answered.asked answered.view)
    × ((answered.view.detail_loading ≡ false)
        → ShowsDetail details answered.asked_detail answered.view)
Reach-Shows_example = Reach-Shows "shop" "prod" "db.json" contents details answered Reach-answered

Reach-no_apps_example : answered.view.app_options ≡ []
Reach-no_apps_example =
    Reach-no_apps "shop" "prod" "db.json" contents details answered refl Reach-answered
