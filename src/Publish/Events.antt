-- ===== src/Publish/Events.antt =====
-- Whatever the order of clicks and answers: what holds of the publish wizard at each moment.
use cassem.Base.{
  ℕ, ◌≡◌, refl, sym, ap, ◌∙◌, subst, ◌⊎◌, inl, inr, Bool, true, none, some, List, [], ◌∷◌, arith,
  All-find,
}
use cassem.Base.Pick.{Pick, first, later}
use cassem.Domain.{Element, is_number}
use cassem.Effects.{Reply, resolved, rejected}
use cassem.Workflow.{VersionOption}
use cassem.Publish.State.{State, Payload, Job, publish_job, Turn, version_of, has_explicit_targets}
use cassem.Publish.Handlers.{change_version, change_agent_ids, change_instance_ids}
use cassem.Publish.Settled.{LoadedOptions, options_settled, comparison_settled, publish_settled}
use cassem.Publish.World.{
  World, queued, Step, Reach, here, next, renews, leaves, clicks_next, clicks_back, picks_version,
  picks_mode, picks_agents, picks_instances, options_arrive, comparison_arrives, publish_ends,
}
use cassem.Publish.Reviewed.{Reviewed, Stage, IsNumbered, Coherent}
use cassem.Publish.Coherence.{mount_start-Coherent, handle_next-Coherent, mount-Coherent, no_pair}
use cassem.Publish.Answers.{
  options_settled-Coherent, publish_settled-Coherent, comparison_settled-Coherent,
}
use cassem.Publish.Editing.{
  handle_back-Coherent, no_job, change_version-Coherent, change_publish_mode-Coherent,
  change_targets-Coherent,
}

-- A call that is under way in a coherent wizard is the only one.
Pick-only :
    {job : Job} {jobs rest : List Job} (v : State)
    → Pick job jobs rest
    → Coherent v jobs
    → Coherent v (job ∷ []) × (rest ≡ [])
Pick-only v (first {rest = []}) c = (c, refl)
Pick-only v (first {x = job} {rest = k ∷ ks}) c = absurd (no_pair v job k ks c)
Pick-only v (later {other} (first {x = job} {rest})) c = absurd (no_pair v other job rest c)
Pick-only v (later {other} (later {other = k} {xs = ks} p)) c = absurd (no_pair v other k ks c)

abbrev pub Inv : World → Type 0
Inv w = w.view.mounted ≡ true → Coherent w.view w.jobs

-- Handlers leave `mountedRef` alone.
options_settled-mounted :
    (reply : Reply LoadedOptions) (v : State) → (options_settled reply v).state.mounted ≡ v.mounted
unfolding options_settled
options_settled-mounted (resolved loaded) v = ground arith
options_settled-mounted (rejected failure) v = ground arith

comparison_settled-mounted :
    (target : VersionOption) (using : ℕ) (reply : Reply Element) (v : State)
    → (comparison_settled target using reply v).state.mounted ≡ v.mounted
unfolding comparison_settled
comparison_settled-mounted target using (resolved current) v = ground arith
comparison_settled-mounted target using (rejected failure) v = ground arith

publish_settled-mounted :
    (payload : Payload) (reply : Reply (Unit {0})) (v : State)
    → (publish_settled payload reply v).state.mounted ≡ v.mounted
unfolding publish_settled
publish_settled-mounted payload (resolved _) v = ground arith
publish_settled-mounted payload (rejected failure) v = ground arith

-- A continuation keeps the invariant if it does so where its call is the only one.
settled-Coherent :
    {job : Job} {rest : List Job} (w : World) (t : Turn)
    → Inv w
    → w.view.mounted ≡ true
    → Pick job w.jobs rest
    → (Coherent w.view (job ∷ []) → Coherent t.state (queued t.job []))
    → Coherent t.state (queued t.job rest)
settled-Coherent w t h m p keep =
    let (alone, none_left) = Pick-only w.view p (h m) in
    subst (λ jobs. Coherent t.state (queued t.job jobs)) (sym none_left) (keep alone)

module _ (missing_params : Bool) where
  Step-Inv : {w w' : World} → Step missing_params w w' → Inv w → Inv w'
  Step-Inv {w} (renews m) h _ = mount-Coherent missing_params w.view w.jobs (h m) m
  Step-Inv leaves h m = cc
  Step-Inv {w} (clicks_next m free) h _ =
      handle_next-Coherent missing_params w.view w.jobs (h m) free
  Step-Inv {w} (clicks_back m free) h _ = handle_back-Coherent w.view w.jobs (h m) free
  Step-Inv {w} (picks_version version m e free ready) h _ =
      let none_left = no_job missing_params w.view w.jobs (h m) free (inl ready) in
      subst (λ jobs. Coherent (change_version version w.view) jobs) (sym none_left)
        (change_version-Coherent version w.view (subst (Coherent w.view) none_left (h m)) e)
  Step-Inv {w} (picks_mode mode m e k) h _ =
      change_publish_mode-Coherent mode w.view w.jobs (h m) e k
  Step-Inv {w} (picks_agents ids m e k free) h _ =
      let none_left = no_job missing_params w.view w.jobs (h m) free (inr e) in
      subst (λ jobs. Coherent (change_agent_ids ids w.view) jobs) (sym none_left)
        (change_targets-Coherent ids w.view (subst (Coherent w.view) none_left (h m)) e k).0
  Step-Inv {w} (picks_instances ids m e k free) h _ =
      let none_left = no_job missing_params w.view w.jobs (h m) free (inr e) in
      subst (λ jobs. Coherent (change_instance_ids ids w.view) jobs) (sym none_left)
        (change_targets-Coherent ids w.view (subst (Coherent w.view) none_left (h m)) e k).1
  Step-Inv {w} (options_arrive reply p) h m =
      let on = sym (options_settled-mounted reply w.view) ∙ m in
      settled-Coherent w (options_settled reply w.view) h on p
        (λ c. options_settled-Coherent reply w.view c on)
  Step-Inv {w} (comparison_arrives target using reply p) h m =
      let on = sym (comparison_settled-mounted target using reply w.view) ∙ m in
      settled-Coherent w (comparison_settled target using reply w.view) h on p
        (λ c. comparison_settled-Coherent target using reply w.view c on)
  Step-Inv {w} (publish_ends payload reply p) h m =
      let on = sym (publish_settled-mounted payload reply w.view) ∙ m in
      settled-Coherent w (publish_settled payload reply w.view) h on p
        (λ c. publish_settled-Coherent payload reply w.view c on)

  Reach-Inv : {w : World} → Reach missing_params w → Inv w
  Reach-Inv here = λ _. mount_start-Coherent missing_params
  Reach-Inv (next r s) = Step-Inv s (Reach-Inv r)

-- What holds when a publish request is under way.
pub record IsSound (v : State) (payload : Payload) (rest : List Job) : Type 0 where
  -- The user is at the impact step, behind the diff of the selected version.
  pub at_impact : v.active_step ≡ 4
  pub reviewed : Reviewed v
  -- The request is for the version of that diff.
  pub version : payload.version ≡ some reviewed.target.version
  pub numbered : is_number reviewed.target.element.version reviewed.target.version ≡ true
  -- A gray publication has a target, a full one sends none.
  pub targets :
      ((payload.publish_mode ≡ 1)
        × (payload.targets ≡ some (v.agent_ids, v.instance_ids))
        × (has_explicit_targets v ≡ true))
      ⊎ ((payload.publish_mode ≡ 2) × (payload.targets ≡ none))
  -- No other call is under way.
  pub alone : rest ≡ []

-- Whatever the user and the server do: while a publish request of a mounted wizard is under way, the
-- diff on the screen compares the version in use (an empty baseline if there is none) with the
-- version that is requested, which is newer than the one in use (a draft if there is none); a gray
-- publication has an explicit target, a full one sends none; and no second call is under way.
pub publish_job-IsSound :
    (missing_params : Bool) (w : World) (payload : Payload) (rest : List Job)
    → Reach missing_params w
    → w.view.mounted ≡ true
    → Pick (publish_job payload) w.jobs rest
    → IsSound w.view payload rest
publish_job-IsSound missing_params w payload rest r m p =
    let (c, none_left) = Pick-only w.view p (Reach-Inv missing_params r m) in
    let stage : Stage 4 w.view = subst (λ n. Stage n w.view) c.flight.3 c.stage in
    record {
      at_impact = c.flight.3;
      reviewed = stage.0;
      version = c.flight.4 ∙ ap version_of stage.0.selected;
      numbered =
          All-find IsNumbered _ w.view.version_options stage.0.target c.numbered stage.0.selected;
      targets = ground arith;
      alone = none_left;
    }

-- Whatever the user and the server do: a mounted wizard that shows the diff (step 3) or asks for
-- confirmation (step 4) has a selected version that may be published, and its diff is loaded and
-- compares the version in use with it; it never stands past step 5, and of its calls at most one is
-- under way, as its three loading flags say.
pub Reach-Coherent :
    (missing_params : Bool) (w : World)
    → Reach missing_params w
    → w.view.mounted ≡ true
    → Coherent w.view w.jobs
Reach-Coherent missing_params w r m = Reach-Inv missing_params r m
