-- ===== src/Instances/Answers.antt =====
-- The answers that the page awaits keep what it shows in step with what was asked for last.
use cassem.Base.{
  ℕ, ◌==◌, ◌≡◌, refl, ap, ◌∙◌, if◌then◌else◌, ◌⊎◌, inl, inr, ◌&&◌, List, String, arith, Bool-cases,
}
use cassem.Base.Pick.{Pick, All-Pick}
use cassem.Effects.{Reply, resolved, rejected, Failure}
use cassem.Instances.State.{
  Instance, State, Query, Job, instances_job, detail_job, get_error_message,
}
use cassem.Instances.Handlers.{failed_key, instances_settled, detail_settled}
use cassem.Instances.World.{World, settled}
use cassem.Instances.Shown.{Inv, InForce, settled-Inv}

module _ (contents : Query → List Instance) (details : String → String) where
  pub instances_settled-Inv :
      (w : World) (id : ℕ) (query : Query) (reply : Reply (List Instance)) (rest : List Job)
      → (reply ≡ resolved (contents query)) ⊎ ((reason : Failure) × (reply ≡ rejected reason))
      → Pick (instances_job id query) w.jobs rest
      → Inv contents details w
      → Inv contents details (settled w rest (instances_settled id query reply w.view))
  unfolding instances_settled
  instances_settled-Inv w id query (resolved found) rest answer p i =
      let (c, others) = All-Pick (InForce w) p i.current in
      elim (Bool-cases (w.view.mounted && id == w.view.request_seq)) [
        | inl counts ↦ rw counts (record {
          started = i.started;
          current = others;
          shows = ground arith;
          shows_detail = i.shows_detail;
        })
        | inr stale ↦ rw stale (record {
          started = i.started;
          current = others;
          shows = i.shows;
          shows_detail = i.shows_detail;
        })
      ]
  instances_settled-Inv w id query (rejected reason) rest answer p i =
      let (c, others) = All-Pick (InForce w) p i.current in
      elim (Bool-cases (w.view.mounted && id == w.view.request_seq)) [
        | inl counts ↦ rw counts (record {
          started = i.started;
          current = others;
          shows =
              (let same : query ≡ w.asked = ground arith in
                inr (inr (reason, refl, ap (λ q. get_error_message reason (failed_key q)) same)));
          shows_detail = i.shows_detail;
        })
        | inr stale ↦ rw stale (record {
          started = i.started;
          current = others;
          shows = i.shows;
          shows_detail = i.shows_detail;
        })
      ]

  pub detail_settled-Inv :
      (w : World) (id : ℕ) (instance_id : String) (reply : Reply String) (rest : List Job)
      → (reply ≡ resolved (details instance_id)) ⊎ ((reason : Failure) × (reply ≡ rejected reason))
      → Pick (detail_job id instance_id) w.jobs rest
      → Inv contents details w
      → Inv contents details (settled w rest (detail_settled id reply w.view))
  unfolding detail_settled
  detail_settled-Inv w id instance_id (resolved found) rest answer p i =
      let (c, others) = All-Pick (InForce w) p i.current in
      elim (Bool-cases (w.view.mounted && id == w.view.detail_request_seq)) [
        | inl counts ↦ rw counts (record {
          started = i.started;
          current = others;
          shows = i.shows;
          shows_detail = ground arith;
        })
        | inr stale ↦ rw stale (record {
          started = i.started;
          current = others;
          shows = i.shows;
          shows_detail = i.shows_detail;
        })
      ]
  detail_settled-Inv w id instance_id (rejected reason) rest answer p i =
      let (c, others) = All-Pick (InForce w) p i.current in
      elim (Bool-cases (w.view.mounted && id == w.view.detail_request_seq)) [
        | inl counts ↦ rw counts (record {
          started = i.started;
          current = others;
          shows = i.shows;
          shows_detail = inr (inl refl);
        })
        | inr stale ↦ rw stale (record {
          started = i.started;
          current = others;
          shows = i.shows;
          shows_detail = i.shows_detail;
        })
      ]

  -- A menu's answer changes nothing else.
  pub menu-Inv :
      (w : World) (job : Job) (id : ℕ) (s : State) (rest : List Job)
      → Pick job w.jobs rest
      → (s.request_seq ≡ w.view.request_seq)
        × (s.detail_request_seq ≡ w.view.detail_request_seq)
        × (s.load_started ≡ w.view.load_started)
        × (s.loading ≡ w.view.loading)
        × (s.instances ≡ w.view.instances)
        × (s.error ≡ w.view.error)
        × (s.detail_loading ≡ w.view.detail_loading)
        × (s.detail ≡ w.view.detail)
      → Inv contents details w
      → Inv contents details
          (settled w rest (if w.view.mounted && id == w.view.candidate_seq then s else w.view))
  menu-Inv w job id s rest p (a, b, c, d, e, f, g, h) i =
      let (_, others) = All-Pick (InForce w) p i.current in
      elim (Bool-cases (w.view.mounted && id == w.view.candidate_seq)) [
        | inl counts ↦ rw counts (
            settled-Inv contents details w s rest a b (c ∙ i.started) others
              (ground (arith, i.shows)) (ground (arith, i.shows_detail)))
        | inr stale ↦ rw stale (record {
          started = i.started;
          current = others;
          shows = i.shows;
          shows_detail = i.shows_detail;
        })
      ]
