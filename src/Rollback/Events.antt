-- ===== src/Rollback/Events.antt =====
-- Whatever the order of clicks and answers: what holds of the rollback wizard at each moment.
use cassem.Base.{
  ℕ, ◌≡◌, refl, sym, ap, ◌∙◌, subst, Bool, true, Option, some, List, [], ◌∷◌, arith, All-find,
}
use cassem.Base.Pick.{Pick, first, later}
use cassem.Domain.{Element, is_number}
use cassem.Effects.{Reply, resolved, rejected}
use cassem.Workflow.{VersionOption}
use cassem.Rollback.State.{
  State, Job, compare_job, rollback_job, Turn, selected_version, version_of,
}
use cassem.Rollback.Handlers.{options_settled, comparison_settled, rollback_settled, change_version}
use cassem.Rollback.World.{
  World, queued, Step, Reach, here, next, renews, leaves, clicks_next, clicks_back, picks_version,
  options_arrive, comparison_arrives, rollback_ends,
}
use cassem.Rollback.Older.{Reviewed, Stage, IsNumbered, Coherent}
use cassem.Rollback.Coherence.{
  mount_start-Coherent, handle_next-Coherent, mount-Coherent, no_job, no_pair,
}
use cassem.Rollback.Answers.{
  options_settled-Coherent, rollback_settled-Coherent, comparison_settled-Coherent,
}
use cassem.Rollback.Editing.{handle_back-Coherent, change_version-Coherent}

-- A call that is under way in a coherent wizard is the only one.
Pick-only :
    {job : Job} {jobs rest : List Job} (v : State)
    → Pick job jobs rest
    → Coherent v jobs
    → Coherent v (job ∷ []) × (rest ≡ [])
Pick-only v (first {rest = []}) c = (c, refl)
Pick-only v (first {x = job} {rest = k ∷ ks}) c = absurd (no_pair v job k ks c)
Pick-only v (later {other} (first {x = job} {rest})) c = absurd (no_pair v other job rest c)
Pick-only v (later {other} (later {other = k} {xs = ks} p)) c = absurd (no_pair v other k ks c)

abbrev pub Inv : World → Type 0
Inv w = w.view.mounted ≡ true → Coherent w.view w.jobs

-- Handlers leave `mountedRef` alone.
options_settled-mounted :
    (reply : Reply (List Element)) (v : State) → (options_settled reply v).state.mounted ≡ v.mounted
unfolding options_settled
options_settled-mounted (resolved versions) v = ground arith
options_settled-mounted (rejected failure) v = ground arith

comparison_settled-mounted :
    (target : VersionOption) (using request_id : ℕ) (reply : Reply Element) (v : State)
    → (comparison_settled target using request_id reply v).state.mounted ≡ v.mounted
unfolding comparison_settled
comparison_settled-mounted target using request_id (resolved current) v = ground arith
comparison_settled-mounted target using request_id (rejected failure) v = ground arith

rollback_settled-mounted :
    (version : Option ℕ) (reply : Reply (Unit {0})) (v : State)
    → (rollback_settled version reply v).state.mounted ≡ v.mounted
unfolding rollback_settled
rollback_settled-mounted version (resolved _) v = ground arith
rollback_settled-mounted version (rejected failure) v = ground arith

-- A continuation keeps the invariant if it does so where its call is the only one.
settled-Coherent :
    {job : Job} {rest : List Job} (w : World) (t : Turn)
    → Inv w
    → w.view.mounted ≡ true
    → Pick job w.jobs rest
    → (Coherent w.view (job ∷ []) → Coherent t.state (queued t.job []))
    → Coherent t.state (queued t.job rest)
settled-Coherent w t h m p keep =
    let (alone, none_left) = Pick-only w.view p (h m) in
    subst (λ jobs. Coherent t.state (queued t.job jobs)) (sym none_left) (keep alone)

module _ (missing_params : Bool) where
  Step-Inv : {w w' : World} → Step missing_params w w' → Inv w → Inv w'
  Step-Inv {w} (renews m) h _ = mount-Coherent missing_params w.view w.jobs (h m) m
  Step-Inv leaves h m = cc
  Step-Inv {w} (clicks_next m free) h _ =
      handle_next-Coherent missing_params w.view w.jobs (h m) free
  Step-Inv {w} (clicks_back m free) h _ = handle_back-Coherent w.view w.jobs (h m) free
  Step-Inv {w} (picks_version version m e free) h _ =
      let none_left = no_job missing_params w.view w.jobs (h m) free in
      subst (λ jobs. Coherent (change_version version w.view) jobs) (sym none_left)
        (change_version-Coherent version w.view (subst (Coherent w.view) none_left (h m)) e)
  Step-Inv {w} (options_arrive reply p) h m =
      let on = sym (options_settled-mounted reply w.view) ∙ m in
      settled-Coherent w (options_settled reply w.view) h on p
        (λ c. options_settled-Coherent reply w.view c on)
  Step-Inv {w} (comparison_arrives target using request_id reply p) h m =
      let on = sym (comparison_settled-mounted target using request_id reply w.view) ∙ m in
      settled-Coherent w (comparison_settled target using request_id reply w.view) h on p
        (λ c. comparison_settled-Coherent target using request_id reply w.view c on)
  Step-Inv {w} (rollback_ends version reply p) h m =
      let on = sym (rollback_settled-mounted version reply w.view) ∙ m in
      settled-Coherent w (rollback_settled version reply w.view) h on p
        (λ c. rollback_settled-Coherent version reply w.view c on)

  Reach-Inv : {w : World} → Reach missing_params w → Inv w
  Reach-Inv here = λ _. mount_start-Coherent missing_params
  Reach-Inv (next r s) = Step-Inv s (Reach-Inv r)

-- What holds when a rollback request is under way.
pub record IsSound (v : State) (version : Option ℕ) (rest : List Job) : Type 0 where
  -- The user is at the impact step, behind the diff of the selected version.
  pub at_impact : v.active_step ≡ 2
  pub reviewed : Reviewed v
  -- The request is for the version of that diff.
  pub requested : version ≡ some reviewed.target.version
  pub numbered : is_number reviewed.target.element.version reviewed.target.version ≡ true
  -- No other call is under way.
  pub alone : rest ≡ []

-- Whatever the user and the server do: while a rollback request of a mounted wizard is under way, the
-- diff on the screen compares the version in use with the version that is requested, which is
-- published and older than the one in use, and no second call is under way.
pub rollback_job-IsSound :
    (missing_params : Bool) (w : World) (version : Option ℕ) (rest : List Job)
    → Reach missing_params w
    → w.view.mounted ≡ true
    → Pick (rollback_job version) w.jobs rest
    → IsSound w.view version rest
rollback_job-IsSound missing_params w version rest r m p =
    let (c, none_left) = Pick-only w.view p (Reach-Inv missing_params r m) in
    let stage : Stage 2 w.view = subst (λ n. Stage n w.view) c.flight.3 c.stage in
    record {
      at_impact = c.flight.3;
      reviewed = stage;
      requested = c.flight.4 ∙ ap version_of stage.selected;
      numbered =
          All-find IsNumbered _ w.view.version_options stage.target c.numbered stage.selected;
      alone = none_left;
    }

-- The sequence number of diff requests never drops an answer of a mounted wizard: an answer that
-- arrives is the one that the wizard waits for.
pub compare_job-current :
    (missing_params : Bool) (w : World) (target : VersionOption) (using request_id : ℕ)
    (rest : List Job)
    → Reach missing_params w
    → w.view.mounted ≡ true
    → Pick (compare_job target using request_id) w.jobs rest
    → (w.view.diff_request_seq ≡ request_id)
      × (w.view.using_version ≡ some using)
      × (selected_version w.view ≡ some target)
compare_job-current missing_params w target using request_id rest r m p =
    let (c, _) = Pick-only w.view p (Reach-Inv missing_params r m) in
    (c.flight.7, c.flight.5, c.flight.4)
