-- ===== src/Detail/Shown.antt =====
-- The invariant of the page of one element: what it shows, and which calls are under way.
use cassem.Base.{
  ℕ, ◌+◌, ◌≤◌, ◌<◌, ◌==◌, ◌≡◌, refl, ◌⊎◌, inl, Bool, true, false, ◌||◌, Option, none, some, List,
  [], ◌∷◌, String, arith, All, any,
}
use cassem.Base.Pick.{Pick, first, later}
use cassem.Domain.{Element, is_truthy}
use cassem.Detail.State.{
  Location, is_missing, DiffPair, State, Job, page_job, retention_job, submit_job, put_job, get_job,
  publish_job,
}
use cassem.Detail.Handlers.{version_at}
use cassem.Detail.Loading.{Loaded, decode_raw}
use cassem.Detail.World.{World}

-- What each call carries, and that the latest loading is that of the location.
abbrev pub Current : State → Job → Type 0
Current v (page_job id at awaited) =
    (id ≤ v.request_seq) × ((id < v.request_seq) ⊎ (at ≡ v.location))
Current v (retention_job id) = Unit {0}
Current v (submit_job at raw) = is_missing at ≡ false
Current v (put_job at raw previous) = is_missing at ≡ false
Current v (get_job at previous) = is_missing at ≡ false
Current v (publish_job at version) = (is_missing at ≡ false) × (is_truthy (some version) ≡ true)

-- The same, with all loadings before number `n`.
abbrev pub Past : ℕ → Job → Type 0
Past n (page_job id at awaited) = id < n
Past n (retention_job id) = Unit {0}
Past n (submit_job at raw) = is_missing at ≡ false
Past n (put_job at raw previous) = is_missing at ≡ false
Past n (get_job at previous) = is_missing at ≡ false
Past n (publish_job at version) = (is_missing at ≡ false) × (is_truthy (some version) ≡ true)

abbrev pub one_if : Bool → ℕ
one_if true = 1
one_if false = 0

-- Whether a call is the loading with number `n`.
abbrev pub is_latest : ℕ → Job → Bool
is_latest n (page_job id at awaited) = id == n
is_latest n _ = false

-- The handlers under way that change the element.
abbrev pub changes_of : Job → ℕ
changes_of (page_job id at awaited) = one_if awaited
changes_of (retention_job id) = 0
changes_of (submit_job at raw) = 1
changes_of (put_job at raw previous) = 1
changes_of (get_job at previous) = 1
changes_of (publish_job at version) = 1

abbrev pub changes : List Job → ℕ
changes [] = 0
changes (job ∷ jobs) = changes_of job + changes jobs

-- A diff on the screen is of two of the versions on the screen.
abbrev pub IsDiff : List Element → Option DiffPair → Type 0
IsDiff versions none = Unit {0}
IsDiff versions (some pair) =
    (base : ℕ) × (compare : ℕ) × (version_at base versions ≡ some pair.base)
    × (version_at compare versions ≡ some pair.compare)

-- Nothing, or what the server has answered for the location.
abbrev pub Shows : (String → Option String) → (Location → Loaded → Type 0) → State → Type 0
Shows decode Answers v =
    (v.element ≡ none)
    ⊎ ((loaded : Loaded) × Answers v.location loaded
        × (v.element ≡ some loaded.element)
        × (v.versions ≡ loaded.versions)
        × (v.operations ≡ loaded.operations)
        × (v.raw ≡ decode_raw decode loaded.element.raw)
        × IsDiff v.versions v.diff_pair)

pub record Inv (decode : String → Option String) (Answers : Location → Loaded → Type 0) (w : World)
    : Type 0 where
  pub present : w.view.mounted ≡ true
  pub keyed : w.view.load_key ≡ some w.view.location
  pub current : All (Current w.view) w.jobs
  pub single : changes w.jobs ≡ one_if w.view.saving
  pub settles :
      (any (is_latest w.view.request_seq) w.jobs ≡ true)
      ⊎ ((w.view.loading ≡ false) × Shows decode Answers w.view)

pub changes-Pick :
    {job : Job} {jobs rest : List Job}
    → Pick job jobs rest
    → changes jobs ≡ changes_of job + changes rest
changes-Pick first = refl
changes-Pick (later p) = omega (arith, changes-Pick p)

pub any-Pick :
    (p : Job → Bool) {job : Job} {jobs rest : List Job}
    → Pick job jobs rest
    → any p jobs ≡ (p job || any p rest)
any-Pick p first = refl
any-Pick p (later q) = ground (arith, any-Pick p q)

pub Past-Current :
    (n : ℕ) (u : State) (jobs : List Job)
    → n ≤ u.request_seq
    → All (Past n) jobs
    → All (Current u) jobs
Past-Current n u [] e a = tt
Past-Current n u (page_job id at awaited ∷ jobs) e (h, a) =
    ((omega arith, inl (omega arith)), Past-Current n u jobs e a)
Past-Current n u (retention_job id ∷ jobs) e (h, a) = (h, Past-Current n u jobs e a)
Past-Current n u (submit_job at raw ∷ jobs) e (h, a) = (h, Past-Current n u jobs e a)
Past-Current n u (put_job at raw previous ∷ jobs) e (h, a) = (h, Past-Current n u jobs e a)
Past-Current n u (get_job at previous ∷ jobs) e (h, a) = (h, Past-Current n u jobs e a)
Past-Current n u (publish_job at version ∷ jobs) e (h, a) = (h, Past-Current n u jobs e a)

pub Current-Past :
    (v : State) (jobs : List Job) → All (Current v) jobs → All (Past (v.request_seq + 1)) jobs
Current-Past v [] a = tt
Current-Past v (page_job id at awaited ∷ jobs) ((h, k), a) = (omega arith, Current-Past v jobs a)
Current-Past v (retention_job id ∷ jobs) (h, a) = (h, Current-Past v jobs a)
Current-Past v (submit_job at raw ∷ jobs) (h, a) = (h, Current-Past v jobs a)
Current-Past v (put_job at raw previous ∷ jobs) (h, a) = (h, Current-Past v jobs a)
Current-Past v (get_job at previous ∷ jobs) (h, a) = (h, Current-Past v jobs a)
Current-Past v (publish_job at version ∷ jobs) (h, a) = (h, Current-Past v jobs a)
