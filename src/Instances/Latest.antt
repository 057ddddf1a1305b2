-- ===== src/Instances/Latest.antt =====
-- The page of instances shows what was asked for last.
use cassem.Base.{◌≡◌, refl, inl, inr, true, false, ◌&&◌, List, String, arith}
use cassem.Effects.{resolved, rejected}
use cassem.Instances.State.{Instance, State, Query, Turn, initial}
use cassem.Instances.Handlers.{
  is_given, then_do, unless_empty, load_apps, load_env_candidates, load_key_candidates, apply_apps,
  apply_envs, apply_keys, apps_settled, envs_settled, keys_settled, mount,
}
use cassem.Instances.World.{
  World, start, Step, happens, leaves, instances_arrive, instances_fail, detail_arrives,
  detail_fails, apps_end, envs_end, keys_end, Reach, here, next,
}
use cassem.Instances.Shown.{Inv, Shows, ShowsDetail}
use cassem.Instances.Opening.{
  load_apps-Fresh, load_env_candidates-Fresh, load_key_candidates-Fresh, opened-Inv,
}
use cassem.Instances.Reactions.{react-Inv}
use cassem.Instances.Answers.{instances_settled-Inv, detail_settled-Inv, menu-Inv}

module _ (contents : Query → List Instance) (details : String → String) (app env key : String) where
  Step-Inv :
      {w w' : World}
      → Step app env key contents details w w'
      → Inv contents details w
      → Inv contents details w'
  unfolding apps_settled envs_settled keys_settled
  Step-Inv {w} (happens event free) i = react-Inv contents details app env key w event free i
  Step-Inv leaves i = record {
    started = i.started;
    current = i.current;
    shows = i.shows;
    shows_detail = i.shows_detail;
  }
  Step-Inv {w} (instances_arrive id query {rest} p) i =
      instances_settled-Inv contents details w id query (resolved (contents query)) rest (inl refl)
        p i
  Step-Inv {w} (instances_fail id query reason {rest} p) i =
      instances_settled-Inv contents details w id query (rejected reason) rest (inr (reason, refl))
        p i
  Step-Inv {w} (detail_arrives id instance_id {rest} p) i =
      detail_settled-Inv contents details w id instance_id (resolved (details instance_id)) rest
        (inl refl) p i
  Step-Inv {w} (detail_fails id instance_id reason {rest} p) i =
      detail_settled-Inv contents details w id instance_id (rejected reason) rest
        (inr (reason, refl)) p i
  Step-Inv {w} (apps_end id (resolved found) {rest} p) i =
      menu-Inv contents details w _ id (apply_apps (resolved found) w.view) rest p
        (refl, refl, refl, refl, refl, refl, refl, refl) i
  Step-Inv {w} (apps_end id (rejected reason) {rest} p) i =
      menu-Inv contents details w _ id (apply_apps (rejected reason) w.view) rest p
        (refl, refl, refl, refl, refl, refl, refl, refl) i
  Step-Inv {w} (envs_end id _ (resolved found) {rest} p) i =
      menu-Inv contents details w _ id (apply_envs (resolved found) w.view) rest p
        (refl, refl, refl, refl, refl, refl, refl, refl) i
  Step-Inv {w} (envs_end id _ (rejected reason) {rest} p) i =
      menu-Inv contents details w _ id (apply_envs (rejected reason) w.view) rest p
        (refl, refl, refl, refl, refl, refl, refl, refl) i
  Step-Inv {w} (keys_end id _ _ (resolved found) {rest} p) i =
      menu-Inv contents details w _ id (apply_keys (resolved found) w.view) rest p
        (refl, refl, refl, refl, refl, refl, refl, refl) i
  Step-Inv {w} (keys_end id _ _ (rejected reason) {rest} p) i =
      menu-Inv contents details w _ id (apply_keys (rejected reason) w.view) rest p
        (refl, refl, refl, refl, refl, refl, refl, refl) i

  start-Inv : Inv contents details (start app env key)
  unfolding mount
  start-Inv =
      let has_app = is_given app in
      let has_env = has_app && is_given env in
      let shown : State = record (initial app env key) { mounted = true; load_started = true } in
      let asks_envs : Turn =
        then_do (unless_empty has_app (load_env_candidates app)) (load_apps shown) in
      opened-Inv contents details app env key (has_env && is_given key)
        (then_do (unless_empty has_env (load_key_candidates app env)) asks_envs)
        (load_key_candidates-Fresh has_env app env asks_envs (
          load_env_candidates-Fresh has_app app (load_apps shown)
            (load_apps-Fresh shown (refl, refl, refl, refl, refl, tt))))

  Reach-Inv : {w : World} → Reach app env key contents details w → Inv contents details w
  Reach-Inv here = start-Inv
  Reach-Inv (next r s) = Step-Inv s (Reach-Inv r)

-- Whatever the user does and whatever the order of the answers: once the page is no longer loading,
-- its list is the server's answer to the query that was sent last, or empty behind the error of that
-- query; and once no detail is loading, a detail on display is that of the instance that was asked
-- for last.
pub Reach-Shows :
    (app env key : String) (contents : Query → List Instance) (details : String → String)
    (w : World)
    → Reach app env key contents details w
    → ((w.view.loading ≡ false) → Shows contents w.asked w.view)
      × ((w.view.detail_loading ≡ false) → ShowsDetail details w.asked_detail w.view)
Reach-Shows app env key contents details w r =
    let i = Reach-Inv contents details app env key r in
    (λ idle. ground (arith, i.shows), λ idle. ground (arith, i.shows_detail))
