-- ===== src/Rollback/Editing.antt =====
-- Going back and the version field of the rollback wizard keep its invariant.
use cassem.Base.{◌≡◌, false, List, [], ◌∷◌, arith, String}
use cassem.Rollback.State.{State, Job, load_options_job, compare_job, rollback_job}
use cassem.Rollback.Handlers.{handle_back, back_disabled, change_version}
use cassem.Rollback.World.{queued}
use cassem.Rollback.Older.{Coherent}
use cassem.Rollback.Coherence.{no_pair}

pub handle_back-Coherent :
    (v : State) (jobs : List Job)
    → Coherent v jobs
    → back_disabled v ≡ false
    → Coherent (handle_back v).state (queued (handle_back v).job jobs)
unfolding handle_back back_disabled
handle_back-Coherent v [] c free = ground arith
handle_back-Coherent v (load_options_job ∷ []) c free = ground arith
handle_back-Coherent v (compare_job target using request_id ∷ []) c free = ground arith
handle_back-Coherent v (rollback_job version ∷ []) c free = ground arith
handle_back-Coherent v (j ∷ k ∷ js) c free = absurd (no_pair v j k js c)

pub change_version-Coherent :
    (version : String) (v : State)
    → Coherent v []
    → v.active_step ≡ 0
    → Coherent (change_version version v) []
unfolding change_version
change_version-Coherent version v c zero_step = ground arith
