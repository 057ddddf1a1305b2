-- ===== src/Instances/Shown.antt =====
-- What the page of instances shows, and that a new query keeps it so.
use cassem.Base.{
  ℕ, ◌≤◌, ◌<◌, ◌≡◌, refl, ◌⊎◌, inl, inr, true, ◌&&◌, none, some, List, [], ◌∷◌, String, arith, All,
  Bool-cases,
}
use cassem.Effects.{Failure}
use cassem.Instances.State.{
  Instance, State, Query, Job, instances_job, detail_job, apps_job, envs_job, keys_job,
  get_error_message, everything,
}
use cassem.Instances.Handlers.{is_given, failed_key, apply_filter, load_all, ask}
use cassem.Instances.World.{World, after, settled}

-- A call with the current number asks for what was asked for last.
abbrev pub Current : ℕ → ℕ → Query → String → Job → Type 0
Current n m asked detail (instances_job id query) = (id ≤ n) × ((id < n) ⊎ (query ≡ asked))
Current n m asked detail (detail_job id instance_id) =
    (id ≤ m) × ((id < m) ⊎ (instance_id ≡ detail))
Current n m asked detail (apps_job id) = Unit
Current n m asked detail (envs_job id app) = Unit
Current n m asked detail (keys_job id app env) = Unit

abbrev pub InForce : World → Job → Type 0
InForce w = Current w.view.request_seq w.view.detail_request_seq w.asked w.asked_detail

-- A list on display is the server's answer to the query, or empty behind its error.
abbrev pub Shows : (Query → List Instance) → Query → State → Type 0
Shows contents asked v =
    (v.instances ≡ contents asked)
    ⊎ ((reason : Failure) × (v.instances ≡ [])
        × (v.error.message ≡ get_error_message reason (failed_key asked)))

abbrev pub ShowsDetail : (String → String) → String → State → Type 0
ShowsDetail details asked v = (v.detail ≡ none) ⊎ (v.detail ≡ some (details asked))

pub Current-later :
    (n m n' m' : ℕ) (q q' : Query) (d d' : String) (jobs : List Job)
    → (n < n') ⊎ ((n ≡ n') × (q ≡ q'))
    → (m < m') ⊎ ((m ≡ m') × (d ≡ d'))
    → All (Current n m q d) jobs
    → All (Current n' m' q' d') jobs
Current-later n m n' m' q q' d d' [] h k a = tt
Current-later n m n' m' q q' d d' (instances_job id query ∷ jobs) h k (c, a) =
    (ground arith, Current-later n m n' m' q q' d d' jobs h k a)
Current-later n m n' m' q q' d d' (detail_job id instance_id ∷ jobs) h k (c, a) =
    (ground arith, Current-later n m n' m' q q' d d' jobs h k a)
Current-later n m n' m' q q' d d' (apps_job id ∷ jobs) h k (c, a) =
    (tt, Current-later n m n' m' q q' d d' jobs h k a)
Current-later n m n' m' q q' d d' (envs_job id app ∷ jobs) h k (c, a) =
    (tt, Current-later n m n' m' q q' d d' jobs h k a)
Current-later n m n' m' q q' d d' (keys_job id app env ∷ jobs) h k (c, a) =
    (tt, Current-later n m n' m' q q' d d' jobs h k a)

module _ (contents : Query → List Instance) (details : String → String) where
  pub record Inv (w : World) : Type 0 where
    pub started : w.view.load_started ≡ true
    pub current : All (InForce w) w.jobs
    pub shows : (w.view.loading ≡ true) ⊎ Shows contents w.asked w.view
    pub shows_detail : (w.view.detail_loading ≡ true) ⊎ ShowsDetail details w.asked_detail w.view

  -- A new query, whatever else the event has changed.
  pub ask-Inv :
      (w : World) (s : State) (query : Query)
      → s.request_seq ≡ w.view.request_seq
      → s.detail_request_seq ≡ w.view.detail_request_seq
      → s.loading ≡ true
      → s.load_started ≡ true
      → All (InForce w) w.jobs
      → Inv (after w (ask query s))
  ask-Inv w s query e k busy on a = record {
    started = on;
    current = (
      (omega arith, inr refl),
      Current-later w.view.request_seq w.view.detail_request_seq _ _ w.asked query w.asked_detail
          w.asked_detail w.jobs (inl (omega arith)) (inl (omega arith)) a,
    );
    shows = inl busy;
    shows_detail = inr (inl refl);
  }

  pub apply_filter-Inv :
      (w : World) (s : State) (app env key : String)
      → s.request_seq ≡ w.view.request_seq
      → s.detail_request_seq ≡ w.view.detail_request_seq
      → s.loading ≡ true
      → s.load_started ≡ true
      → All (InForce w) w.jobs
      → Inv (after w (apply_filter app env key s))
  unfolding apply_filter load_all
  apply_filter-Inv w s app env key e k busy on a =
      elim (Bool-cases (is_given app && is_given env && is_given key)) [
        | inl given ↦ rw given (ask-Inv w s _ e k busy on a)
        | inr not_given ↦ rw not_given (ask-Inv w s everything e k busy on a)
      ]

  pub settled-Inv :
      (w : World) (s : State) (rest : List Job)
      → s.request_seq ≡ w.view.request_seq
      → s.detail_request_seq ≡ w.view.detail_request_seq
      → s.load_started ≡ true
      → All (InForce w) rest
      → (s.loading ≡ true) ⊎ Shows contents w.asked s
      → (s.detail_loading ≡ true) ⊎ ShowsDetail details w.asked_detail s
      → Inv (settled w rest s)
  settled-Inv w s rest e k on a h d = record {
    started = on;
    current =
        Current-later w.view.request_seq w.view.detail_request_seq s.request_seq
          s.detail_request_seq w.asked w.asked w.asked_detail w.asked_detail rest
          (inr (omega arith, refl)) (inr (omega arith, refl)) a;
    shows = h;
    shows_detail = d;
  }
