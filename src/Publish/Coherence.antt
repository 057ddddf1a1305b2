-- ===== src/Publish/Coherence.antt =====
-- Every event of the publish wizard keeps its invariant.
use cassem.Base.{
  ℕ, zero, suc, ◌≡◌, refl, sym, subst, inl, inr, Bool, true, false, Option, none, some, List, [],
  ◌∷◌, arith, Bool-cases, ◌==◌, All, find_test, All-find, ◌||◌, not,
}
use cassem.Workflow.{VersionOption}
use cassem.Publish.State.{
  State, initial, Job, load_options_job, compare_job, publish_job, selected_version,
  version_is_valid, gray_targets_are_valid, baseline, is_publish_version_disabled, live_version,
}
use cassem.Publish.Handlers.{
  mount, load_against, load_without_live, cleared_diff, handle_load_diff_and_advance, advance,
  handle_next, next_disabled,
}
use cassem.Publish.World.{queued}
use cassem.Publish.Reviewed.{IsNumbered, IsBase, Coherent}

-- The option of the version in use has that version's element.
live_version-IsBase :
    (v : State) (target live : VersionOption) (using : Option ℕ)
    → All IsNumbered v.version_options
    → live_version v using ≡ some live
    → IsBase live.element target using
live_version-IsBase v target live none a e = cc
live_version-IsBase v target live (some using) a e = ground (
  arith,
  All-find IsNumbered (λ option. option.version == using) v.version_options live a e,
  find_test (λ option. option.version == using) v.version_options live e,
)

module _ (v : State) (c : Coherent v []) (two : v.active_step ≡ 2)
    (gray : gray_targets_are_valid v ≡ true) (valid : version_is_valid v ≡ true) where
  load_without_live-Coherent :
      (target : VersionOption) (using : Option ℕ)
      → selected_version v ≡ some target
      → v.using_version ≡ using
      → Coherent
          (load_without_live target using (cleared_diff v)).state
          (queued (load_without_live target using (cleared_diff v)).job [])
  unfolding load_without_live is_publish_version_disabled
  load_without_live-Coherent target none e u = elim (Bool-cases target.published) [
    | inl published ↦ rw published (ground arith)
    | inr draft ↦ rw draft (record {
      started = c.started;
      mode = c.mode;
      numbered = c.numbered;
      stage = (
        record {
          target = target;
          base = baseline target.element;
          selected = e;
          shown = refl;
          loaded = refl;
          enabled = rw u draft;
          compared = rw u refl;
          labelled = sym u;
        },
        gray,
      );
      flight = ground arith;
    })
  ]
  load_without_live-Coherent target (some using) e u = record {
    started = c.started;
    mode = c.mode;
    numbered = c.numbered;
    stage = rw two valid;
    flight = ground arith;
  }

  load_against-Coherent :
      (target live : Option VersionOption)
      → selected_version v ≡ target
      → live_version v v.using_version ≡ live
      → Coherent
          (load_against target live (cleared_diff v)).state
          (queued (load_against target live (cleared_diff v)).job [])
  unfolding load_against
  load_against-Coherent none live e l = ground arith
  load_against-Coherent (some target) (some live) e l = record {
    started = c.started;
    mode = c.mode;
    numbered = c.numbered;
    stage = (
      record {
        target = target;
        base = live.element;
        selected = e;
        shown = refl;
        loaded = refl;
        enabled = ground arith;
        compared = live_version-IsBase v target live v.using_version c.numbered l;
        labelled = refl;
      },
      gray,
    );
    flight = ground arith;
  }
  load_against-Coherent (some target) none e l =
      load_without_live-Coherent target v.using_version e refl

-- No two calls are under way together.
pub no_pair : (v : State) (j k : Job) (js : List Job) → Coherent v (j ∷ k ∷ js) → ⊥
no_pair v load_options_job k js c = c.flight
no_pair v (compare_job target using) k js c = c.flight
no_pair v (publish_job payload) k js c = c.flight

module _ (missing_params : Bool) where
  pub mount_start-Coherent :
      Coherent (mount missing_params initial).state (queued (mount missing_params initial).job [])
  unfolding mount
  mount_start-Coherent = elim (Bool-cases missing_params) [
    | inl missing ↦ ground arith
    | inr given ↦ ground arith
  ]

  handle_load_diff_and_advance-Coherent :
      (v : State)
      → Coherent v []
      → v.active_step ≡ 2
      → gray_targets_are_valid v ≡ true
      → Coherent
          (handle_load_diff_and_advance missing_params v).state
          (queued (handle_load_diff_and_advance missing_params v).job [])
  unfolding handle_load_diff_and_advance
  handle_load_diff_and_advance-Coherent v c two gray =
      elim (Bool-cases
        (missing_params || not (version_is_valid v) || v.diff_loading || v.submitting)) [
          | inl barred ↦ rw barred c
          | inr free ↦ rw free (
              load_against-Coherent v c two gray (ground arith) (selected_version v)
                (live_version v v.using_version) refl refl)
        ]

  advance-Coherent :
      (n : ℕ) (v : State)
      → v.active_step ≡ n
      → Coherent v []
      → (n ≡ 3 → v.diff_loaded ≡ true)
      → Coherent (advance missing_params n v).state (queued (advance missing_params n v).job [])
  unfolding advance
  advance-Coherent zero v e c _ = ground arith
  advance-Coherent (suc zero) v e c _ = ground arith
  advance-Coherent (suc (suc zero)) v e c _ =
      ground (arith, handle_load_diff_and_advance-Coherent v c e)
  advance-Coherent (suc (suc (suc zero))) v e c _ = ground arith
  advance-Coherent (suc (suc (suc (suc zero)))) v e c _ = ground arith
  advance-Coherent (suc (suc (suc (suc (suc n))))) v e c _ = ground arith

  pub handle_next-Coherent :
      (v : State) (jobs : List Job)
      → Coherent v jobs
      → next_disabled missing_params v ≡ false
      → Coherent
          (handle_next missing_params v).state
          (queued (handle_next missing_params v).job jobs)
  unfolding handle_next next_disabled
  handle_next-Coherent v [] c free = ground (arith, advance-Coherent v.active_step v refl c)
  handle_next-Coherent v (load_options_job ∷ []) c free = ground arith
  handle_next-Coherent v (compare_job target using ∷ []) c free = ground arith
  handle_next-Coherent v (publish_job payload ∷ []) c free = ground arith
  handle_next-Coherent v (j ∷ k ∷ js) c free = absurd (no_pair v j k js c)

  pub mount-Coherent :
      (v : State) (jobs : List Job)
      → Coherent v jobs
      → v.mounted ≡ true
      → Coherent
          (mount missing_params (record v { mounted = false })).state
          (queued (mount missing_params (record v { mounted = false })).job jobs)
  unfolding mount
  mount-Coherent v jobs c m =
      let same : v ≡ record v { mounted = true; load_started = true } = ground (arith, c.started) in
      rw c.started (subst (λ s. Coherent s jobs) same c)
