-- ===== src/Rollback/Answers.antt =====
-- Every answer that the rollback wizard awaits keeps its invariant.
use cassem.Base.{ℕ, ◌≡◌, inl, inr, true, Option, List, [], ◌∷◌, arith, Bool-cases, ◌==◌, ◌&&◌}
use cassem.Domain.{Element, is_number}
use cassem.Effects.{Reply, resolved, rejected}
use cassem.Workflow.{VersionOption}
use cassem.Workflow.Order.{to_version_options-numbered}
use cassem.Rollback.State.{
  State, load_options_job, compare_job, rollback_job, is_rollback_version_disabled,
}
use cassem.Rollback.Handlers.{options_settled, comparison_settled, rollback_settled}
use cassem.Rollback.World.{queued}
use cassem.Rollback.Older.{Coherent}
use cassem.Rollback.Coherence.{show_diff-Coherent}

pub options_settled-Coherent :
    (reply : Reply (List Element)) (v : State)
    → Coherent v (load_options_job ∷ [])
    → v.mounted ≡ true
    → Coherent (options_settled reply v).state (queued (options_settled reply v).job [])
unfolding options_settled
options_settled-Coherent (resolved versions) v c m =
    ground (arith, to_version_options-numbered versions)
options_settled-Coherent (rejected failure) v c m = ground arith

pub rollback_settled-Coherent :
    (version : Option ℕ) (reply : Reply (Unit {0})) (v : State)
    → Coherent v (rollback_job version ∷ [])
    → v.mounted ≡ true
    → Coherent
        (rollback_settled version reply v).state
        (queued (rollback_settled version reply v).job [])
unfolding rollback_settled
rollback_settled-Coherent version (resolved _) v c m = ground arith
rollback_settled-Coherent version (rejected failure) v c m = ground arith

pub comparison_settled-Coherent :
    (target : VersionOption) (using request_id : ℕ) (reply : Reply Element) (v : State)
    → Coherent v (compare_job target using request_id ∷ [])
    → v.mounted ≡ true
    → Coherent
        (comparison_settled target using request_id reply v).state
        (queued (comparison_settled target using request_id reply v).job [])
unfolding comparison_settled is_rollback_version_disabled
comparison_settled-Coherent target using request_id (rejected failure) v c m = ground arith
comparison_settled-Coherent target using request_id (resolved current) v c m =
    let current_request : (v.mounted && v.diff_request_seq == request_id) ≡ true = ground arith in
    elim (Bool-cases (is_number current.version using)) [
      | inl same ↦
          rw (current_request, same)
            (show_diff-Coherent target current using v c.started c.numbered c.flight.3
              (ground arith) c.flight.4 (ground arith) c.flight.5 same)
      | inr other ↦ rw (current_request, other) (ground arith)
    ]
