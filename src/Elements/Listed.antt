-- ===== src/Elements/Listed.antt =====
-- The invariant of the page of elements: what it shows are the pages of a listing, one behind the
-- other, and each of its calls is accounted for.
use cassem.Base.{
  ℕ, ◌+◌, ◌≤◌, ◌<◌, ◌==◌, ◌≡◌, refl, sym, ◌∙◌, ◌⊎◌, inl, ◌≢◌, Bool, true, false, some, List, [],
  ◌∷◌, ◌++◌, String, arith, All,
}
use cassem.Base.Pick.{Pick, first, later}
use cassem.Domain.{Element}
use cassem.Elements.State.{
  Location, ElementsResponse, State, Request, Closure, Job, elements_job, create_job, delete_job,
  closure_of,
}
use cassem.Elements.World.{World}

abbrev pub request_of : Closure → String → Request
request_of c seek = record {
  location = c.location;
  query = c.query;
  limit = c.page_size;
  seek = seek;
}

module _ (Answers : Request → ElementsResponse → Type 0) where
  -- The specification: a listing by its search and page size is the server's answer for the first
  -- page, and goes on with the answer for the page that the last answer names.
  pub data Listed (c : Closure) : List Element → Bool → String → Type 0 where
    first_page :
        {found : ElementsResponse}
        → Answers (request_of c "") found
        → Listed c found.elements found.has_more found.next_seek
    next_page :
        {elements : List Element} {seek : String} {found : ElementsResponse}
        → Listed c elements true seek
        → seek ≢ ""
        → Answers (request_of c seek) found
        → Listed c (elements ++ found.elements) found.has_more found.next_seek

  -- What a latest request asks for.
  abbrev pub Continues : State → Request → Bool → Type 0
  Continues v asked false = asked ≡ request_of (closure_of v) ""
  Continues v asked true =
      (asked ≡ request_of (closure_of v) asked.seek)
      × Listed (closure_of v) v.elements true asked.seek
      × (asked.seek ≢ "")

  -- A call under way: a listing is older than the latest one, or asks for what the page lacks.
  abbrev pub Current : State → Job → Type 0
  Current v (elements_job id asked append awaited) =
      (id ≤ v.request_seq) × ((id < v.request_seq) ⊎ Continues v asked append)
  Current v (create_job c key raw content_type) = c ≡ closure_of v
  Current v (delete_job c key) = c ≡ closure_of v

  abbrev pub Shows : State → Type 0
  Shows v =
      (v.elements ≡ [])
      ⊎ ((more : Bool) × (seek : String) × Listed (closure_of v) v.elements more seek)

-- A listing before number `n`, or a change that was made at this search.
abbrev pub Past : ℕ → Closure → Job → Type 0
Past n c (elements_job id asked append awaited) = id < n
Past n c (create_job d key raw content_type) = d ≡ c
Past n c (delete_job d key) = d ≡ c

abbrev pub one_if : Bool → ℕ
one_if true = 1
one_if false = 0

-- The listings with number `n`.
abbrev pub pending : ℕ → List Job → ℕ
pending n [] = 0
pending n (elements_job id asked append awaited ∷ jobs) = one_if (id == n) + pending n jobs
pending n (create_job c key raw content_type ∷ jobs) = pending n jobs
pending n (delete_job c key ∷ jobs) = pending n jobs

-- The handlers under way that change an element.
abbrev pub changes_of : Job → ℕ
changes_of (elements_job id asked append awaited) = one_if awaited
changes_of (create_job c key raw content_type) = 1
changes_of (delete_job c key) = 1

abbrev pub changes : List Job → ℕ
changes [] = 0
changes (job ∷ jobs) = changes_of job + changes jobs

pub record Inv (Answers : Request → ElementsResponse → Type 0) (at : Location) (w : World)
    : Type 0 where
  pub present : w.view.mounted ≡ true
  pub placed : w.view.location ≡ at
  pub keyed : w.view.load_key ≡ some at
  pub current : All (Current Answers w.view) w.jobs
  pub single : changes w.jobs ≡ one_if w.view.submitting
  pub alone : pending w.view.request_seq w.jobs ≤ 1
  pub settles :
      (pending w.view.request_seq w.jobs ≡ 1)
      ⊎ ((w.view.loading ≡ false) × (w.view.loading_more ≡ false))
  pub shown : w.view.loading ≡ false → Shows Answers w.view
  pub goes_on :
      w.view.has_more ≡ true
      → w.view.next_seek ≢ ""
      → Listed Answers (closure_of w.view) w.view.elements true w.view.next_seek

pub changes-Pick :
    {job : Job} {jobs rest : List Job}
    → Pick job jobs rest
    → changes jobs ≡ changes_of job + changes rest
changes-Pick first = refl
changes-Pick (later p) = omega (arith, changes-Pick p)

pending-cons :
    (n : ℕ) (job : Job) (jobs : List Job)
    → pending n (job ∷ jobs) ≡ pending n (job ∷ []) + pending n jobs
pending-cons n (elements_job id asked append awaited) jobs = omega arith
pending-cons n (create_job c key raw content_type) jobs = omega arith
pending-cons n (delete_job c key) jobs = omega arith

pub pending-Pick :
    (n : ℕ) {job : Job} {jobs rest : List Job}
    → Pick job jobs rest
    → pending n jobs ≡ pending n (job ∷ []) + pending n rest
pending-Pick n (first {x} {rest}) = pending-cons n x rest
pending-Pick n (later {x} {other} {xs} {rest} p) =
    omega (arith, pending-cons n other xs, pending-cons n other rest, pending-Pick n p)

pub pending-Past :
    (n : ℕ) (c : Closure) (jobs : List Job) → All (Past n c) jobs → pending n jobs ≡ 0
pending-Past n c [] a = refl
pending-Past n c (elements_job id asked append awaited ∷ jobs) (h, a) =
    ground (arith, pending-Past n c jobs a)
pending-Past n c (create_job d key raw content_type ∷ jobs) (h, a) = pending-Past n c jobs a
pending-Past n c (delete_job d key ∷ jobs) (h, a) = pending-Past n c jobs a

module _ (Answers : Request → ElementsResponse → Type 0) where
  pub Past-Current :
      (n : ℕ) (c : Closure) (u : State) (jobs : List Job)
      → u.request_seq ≡ n
      → closure_of u ≡ c
      → All (Past n c) jobs
      → All (Current Answers u) jobs
  Past-Current n c u [] e q a = tt
  Past-Current n c u (elements_job id asked append awaited ∷ jobs) e q (h, a) =
      ((omega arith, inl (omega arith)), Past-Current n c u jobs e q a)
  Past-Current n c u (create_job d key raw content_type ∷ jobs) e q (h, a) =
      (h ∙ sym q, Past-Current n c u jobs e q a)
  Past-Current n c u (delete_job d key ∷ jobs) e q (h, a) =
      (h ∙ sym q, Past-Current n c u jobs e q a)

  -- Before a new listing, all are past.
  pub Current-Past :
      (v : State) (jobs : List Job)
      → All (Current Answers v) jobs
      → All (Past (v.request_seq + 1) (closure_of v)) jobs
  Current-Past v [] a = tt
  Current-Past v (elements_job id asked append awaited ∷ jobs) ((h, k), a) =
      (omega arith, Current-Past v jobs a)
  Current-Past v (create_job d key raw content_type ∷ jobs) (h, a) = (h, Current-Past v jobs a)
  Current-Past v (delete_job d key ∷ jobs) (h, a) = (h, Current-Past v jobs a)

  -- Where no change is under way, the search may be another one.
  pub Current-Past_free :
      (v : State) (c : Closure) (jobs : List Job)
      → changes jobs ≡ 0
      → All (Current Answers v) jobs
      → All (Past (v.request_seq + 1) c) jobs
  Current-Past_free v c [] e a = tt
  Current-Past_free v c (elements_job id asked append awaited ∷ jobs) e ((h, k), a) =
      (omega arith, Current-Past_free v c jobs (omega arith) a)
  Current-Past_free v c (create_job d key raw content_type ∷ jobs) e a = absurd (omega arith)
  Current-Past_free v c (delete_job d key ∷ jobs) e a = absurd (omega arith)

  -- Behind the answer to the latest listing, all are past.
  pub Current-Past_answered :
      (v : State) (jobs : List Job)
      → pending v.request_seq jobs ≡ 0
      → All (Current Answers v) jobs
      → All (Past v.request_seq (closure_of v)) jobs
  Current-Past_answered v [] e a = tt
  Current-Past_answered v (elements_job id asked append awaited ∷ jobs) e ((h, k), a) =
      (ground arith, Current-Past_answered v jobs (omega arith) a)
  Current-Past_answered v (create_job d key raw content_type ∷ jobs) e (h, a) =
      (h, Current-Past_answered v jobs e a)
  Current-Past_answered v (delete_job d key ∷ jobs) e (h, a) = (h, Current-Past_answered v jobs e a)
