-- ===== src/Publish/Editing.antt =====
-- Going back and the fields of the publish wizard keep its invariant.
use cassem.Base.{ℕ, ◌≡◌, refl, ◌⊎◌, Bool, false, List, [], ◌∷◌, arith, String}
use cassem.Publish.State.{State, Job, load_options_job, compare_job, publish_job}
use cassem.Publish.Handlers.{
  fields_disabled, handle_back, back_disabled, change_version, change_publish_mode,
  change_agent_ids, change_instance_ids,
}
use cassem.Publish.World.{queued}
use cassem.Publish.Reviewed.{Coherent}
use cassem.Publish.Coherence.{no_pair}

pub handle_back-Coherent :
    (v : State) (jobs : List Job)
    → Coherent v jobs
    → back_disabled v ≡ false
    → Coherent (handle_back v).state (queued (handle_back v).job jobs)
unfolding handle_back back_disabled
handle_back-Coherent v [] c free = ground arith
handle_back-Coherent v (load_options_job ∷ []) c free = ground arith
handle_back-Coherent v (compare_job target using ∷ []) c free = ground arith
handle_back-Coherent v (publish_job payload ∷ []) c free = ground arith
handle_back-Coherent v (j ∷ k ∷ js) c free = absurd (no_pair v j k js c)

-- While the fields are enabled no call is under way, at the first step once the options are there.
pub no_job :
    (missing_params : Bool) (v : State) (jobs : List Job)
    → Coherent v jobs
    → fields_disabled missing_params v ≡ false
    → (v.options_loading ≡ false) ⊎ (v.active_step ≡ 2)
    → jobs ≡ []
unfolding fields_disabled
no_job m v [] c free l = refl
no_job m v (load_options_job ∷ []) c free l = ground arith
no_job m v (compare_job target using ∷ []) c free l = ground arith
no_job m v (publish_job payload ∷ []) c free l = ground arith
no_job m v (j ∷ k ∷ js) c free l = absurd (no_pair v j k js c)

pub change_version-Coherent :
    (version : String) (v : State)
    → Coherent v []
    → v.active_step ≡ 0
    → Coherent (change_version version v) []
unfolding change_version
change_version-Coherent version v c zero_step = ground arith

pub change_publish_mode-Coherent :
    (mode : ℕ) (v : State) (jobs : List Job)
    → Coherent v jobs
    → v.active_step ≡ 1
    → (mode ≡ 1) ⊎ (mode ≡ 2)
    → Coherent (change_publish_mode mode v) jobs
unfolding change_publish_mode
change_publish_mode-Coherent mode v [] c e k = ground arith
change_publish_mode-Coherent mode v (load_options_job ∷ []) c e k = ground arith
change_publish_mode-Coherent mode v (compare_job target using ∷ []) c e k = ground arith
change_publish_mode-Coherent mode v (publish_job payload ∷ []) c e k = ground arith
change_publish_mode-Coherent mode v (j ∷ k ∷ js) c e h = absurd (no_pair v j k js c)

pub change_targets-Coherent :
    (ids : List String) (v : State)
    → Coherent v []
    → v.active_step ≡ 2
    → v.publish_mode ≡ 1
    → Coherent (change_agent_ids ids v) [] × Coherent (change_instance_ids ids v) []
unfolding change_agent_ids change_instance_ids
change_targets-Coherent ids v c e k = ground arith
