-- ===== src/Publish/Answers.antt =====
-- Every answer that the publish wizard awaits keeps its invariant.
use cassem.Base.{ℕ, ◌≡◌, refl, sym, subst, inl, inr, true, [], ◌∷◌, arith, Bool-cases}
use cassem.Domain.{Element, is_number}
use cassem.Effects.{Reply, resolved, rejected}
use cassem.Workflow.{VersionOption}
use cassem.Workflow.Order.{to_version_options-numbered}
use cassem.Publish.State.{
  State, Payload, load_options_job, compare_job, publish_job, version_is_valid,
}
use cassem.Publish.Settled.{LoadedOptions, options_settled, comparison_settled, publish_settled}
use cassem.Publish.World.{queued}
use cassem.Publish.Reviewed.{Stage, Coherent}

pub options_settled-Coherent :
    (reply : Reply LoadedOptions) (v : State)
    → Coherent v (load_options_job ∷ [])
    → v.mounted ≡ true
    → Coherent (options_settled reply v).state (queued (options_settled reply v).job [])
unfolding options_settled
options_settled-Coherent (resolved loaded) v c m =
    ground (arith, to_version_options-numbered loaded.versions)
options_settled-Coherent (rejected failure) v c m = ground arith

pub publish_settled-Coherent :
    (payload : Payload) (reply : Reply (Unit {0})) (v : State)
    → Coherent v (publish_job payload ∷ [])
    → v.mounted ≡ true
    → Coherent
        (publish_settled payload reply v).state
        (queued (publish_settled payload reply v).job [])
unfolding publish_settled
publish_settled-Coherent payload (resolved _) v c m = ground arith
publish_settled-Coherent payload (rejected failure) v c m = ground arith

pub comparison_settled-Coherent :
    (target : VersionOption) (using : ℕ) (reply : Reply Element) (v : State)
    → Coherent v (compare_job target using ∷ [])
    → v.mounted ≡ true
    → Coherent
        (comparison_settled target using reply v).state
        (queued (comparison_settled target using reply v).job [])
unfolding comparison_settled
comparison_settled-Coherent target using (rejected failure) v c m = ground arith
comparison_settled-Coherent target using (resolved current) v c m =
    let valid : version_is_valid v ≡ true = subst (λ n. Stage n v) c.flight.3 c.stage in
    elim (Bool-cases (is_number current.version using)) [
      | inl same ↦
          rw (m, same)
            (record {
              started = c.started;
              mode = c.mode;
              numbered = c.numbered;
              stage = (
                record {
                  target = target;
                  base = current;
                  selected = c.flight.4;
                  shown = refl;
                  loaded = refl;
                  enabled = ground arith;
                  compared = rw c.flight.5 same;
                  labelled = sym c.flight.5;
                },
                c.flight.6,
              );
              flight = ground arith;
            })
      | inr other ↦ rw (m, other) (ground arith)
    ]
