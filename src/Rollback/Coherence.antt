-- ===== src/Rollback/Coherence.antt =====
-- Every event of the rollback wizard keeps its invariant.
use cassem.Base.{
  ℕ, zero, suc, ◌≡◌, refl, sym, subst, inl, inr, Bool, true, false, Option, none, some, List, [],
  ◌∷◌, arith, Bool-cases, ◌==◌, All, find_test, All-find, ◌||◌, not, leb,
}
use mathlib.Core.Path.{subst₂}
use cassem.Domain.{Element, is_number}
use cassem.Workflow.{VersionOption}
use cassem.Rollback.State.{
  State, initial, Job, load_options_job, compare_job, rollback_job, selected_version,
  version_is_valid, is_rollback_version_disabled, live_version,
}
use cassem.Rollback.Handlers.{
  show_diff, mount, load_against, load_without_live, cleared_diff, handle_load_diff_and_advance,
  advance, handle_next, next_disabled, fields_disabled,
}
use cassem.Rollback.World.{queued}
use cassem.Rollback.Older.{InFlight, IsNumbered, Coherent}

-- No two calls are under way together.
pub no_pair : (v : State) (j k : Job) (js : List Job) → Coherent v (j ∷ k ∷ js) → ⊥
no_pair v load_options_job k js c = c.flight
no_pair v (compare_job target using request_id) k js c = c.flight
no_pair v (rollback_job version) k js c = c.flight

-- The diff that is shown is `Reviewed`, and otherwise the wizard stays at its first step.
pub show_diff-Coherent :
    (target : VersionOption) (base : Element) (using : ℕ) (v : State)
    → v.load_started ≡ true
    → All IsNumbered v.version_options
    → v.active_step ≡ 0
    → InFlight [] (record v { diff_loading = false })
    → selected_version v ≡ some target
    → target.published ≡ true
    → v.using_version ≡ some using
    → is_number base.version using ≡ true
    → Coherent
        (show_diff target base using (some using) v).state
        (queued (show_diff target base using (some using) v).job [])
show_diff-Coherent target base using v st nu zero_step fl sel pub_ use_ num =
    elim (Bool-cases (leb using target.version)) [
      | inl newer ↦ rw newer (ground arith)
      | inr older ↦ rw older (record {
        started = st;
        numbered = nu;
        stage = record {
          target = target;
          base = base;
          using = using;
          selected = sel;
          in_use = use_;
          shown = refl;
          loaded = refl;
          published = pub_;
          older = ground arith;
          compared = num;
          labelled = refl;
        };
        flight = fl;
      })
    ]

module _ (v : State) (c : Coherent v []) (first_step : v.active_step ≡ 0)
    (valid : version_is_valid v ≡ true) where
  load_without_live-Coherent :
      (target : VersionOption) (using : Option ℕ)
      → selected_version v ≡ some target
      → v.using_version ≡ using
      → Coherent
          (load_without_live target using (cleared_diff v)).state
          (queued (load_without_live target using (cleared_diff v)).job [])
  unfolding load_without_live
  load_without_live-Coherent target none e u = ground arith
  load_without_live-Coherent target (some using) e u = ground arith

  load_against-Coherent :
      (target live : Option VersionOption) (using : Option ℕ)
      → selected_version v ≡ target
      → v.using_version ≡ using
      → live_version v using ≡ live
      → Coherent
          (load_against target live (cleared_diff v)).state
          (queued (load_against target live (cleared_diff v)).job [])
  unfolding load_against is_rollback_version_disabled
  load_against-Coherent none live using e u l = ground arith
  load_against-Coherent (some target) none using e u l =
      load_without_live-Coherent target v.using_version e refl
  load_against-Coherent (some target) (some live) none e u l = cc
  load_against-Coherent (some target) (some live) (some using) e u l =
      let same : live.version ≡ using =
        ground (arith, find_test (λ option. option.version == using) v.version_options live l) in
      let counted : is_number live.element.version live.version ≡ true =
        All-find IsNumbered (λ option. option.version == using) v.version_options live c.numbered
          l in
      subst₂
        (λ n o.
          Coherent (show_diff target live.element n o (cleared_diff v)).state
            (queued (show_diff target live.element n o (cleared_diff v)).job []))
        (sym same) (sym u)
        (show_diff-Coherent target live.element using (cleared_diff v) c.started c.numbered
          first_step (ground arith) e (ground arith) u
          (subst (λ n. is_number live.element.version n ≡ true) same counted))

module _ (missing_params : Bool) where
  pub mount_start-Coherent :
      Coherent (mount missing_params initial).state (queued (mount missing_params initial).job [])
  unfolding mount
  mount_start-Coherent = elim (Bool-cases missing_params) [
    | inl missing ↦ rw missing (ground arith)
    | inr given ↦ rw given (ground arith)
  ]

  handle_load_diff_and_advance-Coherent :
      (v : State)
      → Coherent v []
      → v.active_step ≡ 0
      → Coherent
          (handle_load_diff_and_advance missing_params v).state
          (queued (handle_load_diff_and_advance missing_params v).job [])
  unfolding handle_load_diff_and_advance
  handle_load_diff_and_advance-Coherent v c e =
      elim (Bool-cases
        (missing_params || not (version_is_valid v) || v.diff_loading || v.submitting)) [
          | inl barred ↦ rw barred c
          | inr free ↦ rw free (
              load_against-Coherent v c e (ground arith) (selected_version v)
                (live_version v v.using_version) v.using_version refl refl refl)
        ]

  advance-Coherent :
      (n : ℕ) (v : State)
      → v.active_step ≡ n
      → Coherent v []
      → Coherent (advance missing_params n v).state (queued (advance missing_params n v).job [])
  unfolding advance
  advance-Coherent zero v e c = ground (arith, handle_load_diff_and_advance-Coherent v c e)
  advance-Coherent (suc zero) v e c = ground arith
  advance-Coherent (suc (suc zero)) v e c = ground arith
  advance-Coherent (suc (suc (suc n))) v e c = ground arith

  pub handle_next-Coherent :
      (v : State) (jobs : List Job)
      → Coherent v jobs
      → next_disabled missing_params v ≡ false
      → Coherent
          (handle_next missing_params v).state
          (queued (handle_next missing_params v).job jobs)
  unfolding handle_next next_disabled
  handle_next-Coherent v [] c free = ground (arith, advance-Coherent v.active_step v refl c)
  handle_next-Coherent v (load_options_job ∷ []) c free = ground arith
  handle_next-Coherent v (compare_job target using request_id ∷ []) c free = ground arith
  handle_next-Coherent v (rollback_job version ∷ []) c free = ground arith
  handle_next-Coherent v (j ∷ k ∷ js) c free = absurd (no_pair v j k js c)

  pub mount-Coherent :
      (v : State) (jobs : List Job)
      → Coherent v jobs
      → v.mounted ≡ true
      → Coherent
          (mount missing_params (record v { mounted = false })).state
          (queued (mount missing_params (record v { mounted = false })).job jobs)
  unfolding mount
  mount-Coherent v jobs c m =
      let same : v ≡ record v { mounted = true; load_started = true } = ground (arith, c.started) in
      rw c.started (subst (λ s. Coherent s jobs) same c)

  -- While the version field is enabled no call is under way.
  pub no_job :
      (v : State) (jobs : List Job)
      → Coherent v jobs
      → fields_disabled missing_params v ≡ false
      → jobs ≡ []
  unfolding fields_disabled
  no_job v [] c free = refl
  no_job v (load_options_job ∷ []) c free = ground arith
  no_job v (compare_job target using request_id ∷ []) c free = ground arith
  no_job v (rollback_job version ∷ []) c free = ground arith
  no_job v (j ∷ k ∷ js) c free = absurd (no_pair v j k js c)
