-- ===== src/Elements/Loading.antt =====
-- A new listing keeps the invariant of the page of elements.
use cassem.Base.{
  ℕ, ◌+◌, ◌≡◌, refl, ap, inl, inr, ◌≢◌, Bool, true, false, some, List, String, arith, All,
  Bool-cases,
}
use cassem.Elements.State.{
  Location, is_missing, ElementsResponse, State, Request, Closure, Job, closure_of,
}
use cassem.Elements.Handlers.{load_elements, end_awaited, missing_location}
use cassem.Elements.World.{after}
use cassem.Elements.Listed.{
  request_of, Listed, Continues, Shows, Past, one_if, pending, changes, Inv, pending-Past,
  Past-Current,
}

module _ (Answers : Request → ElementsResponse → Type 0) (at : Location) where
  -- A state behind which no listing waits.
  pub rested-Inv :
      (n : ℕ) (c : Closure) (u : State) (jobs : List Job)
      → u.mounted ≡ true
      → u.location ≡ at
      → u.load_key ≡ some at
      → u.request_seq ≡ n
      → closure_of u ≡ c
      → u.loading ≡ false
      → u.loading_more ≡ false
      → Shows Answers u
      → (u.has_more ≡ true
          → u.next_seek ≢ ""
          → Listed Answers (closure_of u) u.elements true u.next_seek)
      → changes jobs ≡ one_if u.submitting
      → All (Past n c) jobs
      → Inv Answers at (record { view = u; jobs = jobs })
  rested-Inv n c u jobs m p k e q l lm shown more single past = record {
    present = m;
    placed = p;
    keyed = k;
    current = Past-Current Answers n c u jobs e q past;
    single = single;
    alone = omega (arith, ap (λ i. pending i jobs) e, pending-Past n c jobs past);
    settles = inr (l, lm);
    shown = λ _. shown;
    goes_on = more;
  }

  missing-Inv :
      (s : State) (awaited : Bool) (jobs : List Job)
      → s.mounted ≡ true
      → s.location ≡ at
      → s.load_key ≡ some at
      → All (Past s.request_seq (closure_of s)) jobs
      → changes jobs + one_if awaited ≡ one_if s.submitting
      → Inv Answers at (record { view = end_awaited awaited (missing_location s); jobs = jobs })
  missing-Inv s true jobs m p k past single =
      let u : State = end_awaited true (missing_location s) in
      rested-Inv s.request_seq (closure_of s) u jobs (ground arith) (ground arith) (ground arith)
        (ground arith) (ground arith) (ground arith) (ground arith) (inl (ground arith))
        (λ h. ground arith) (ground arith) past
  missing-Inv s false jobs m p k past single =
      let u : State = end_awaited false (missing_location s) in
      rested-Inv s.request_seq (closure_of s) u jobs (ground arith) (ground arith) (ground arith)
        (ground arith) (ground arith) (ground arith) (ground arith) (inl (ground arith))
        (λ h. ground arith) (ground arith) past

  pub load-Inv :
      (s : State) (seek : String) (append awaited : Bool) (jobs : List Job)
      → s.mounted ≡ true
      → s.location ≡ at
      → s.load_key ≡ some at
      → All (Past (s.request_seq + 1) (closure_of s)) jobs
      → changes jobs + one_if awaited ≡ one_if s.submitting
      → Continues Answers s (request_of (closure_of s) seek) append
      → (s.loading ≡ false → Shows Answers s)
      → (s.has_more ≡ true
          → s.next_seek ≢ ""
          → Listed Answers (closure_of s) s.elements true s.next_seek)
      → Inv Answers at
          (after jobs (load_elements s.location s.query s.page_size seek append awaited s))
  load-Inv s seek append awaited jobs m p k past single continues shown more =
      let u : State = record s { request_seq = s.request_seq + 1 } in
      elim (Bool-cases (is_missing s.location)) [
        | inl missing ↦ rw missing (missing-Inv u awaited jobs m p k past single)
        | inr there ↦ rw there (record {
          present = m;
          placed = p;
          keyed = k;
          current = (
            (omega arith, inr continues_of),
            Past-Current Answers (s.request_seq + 1) (closure_of s) u jobs refl refl past,
          );
          single = omega arith;
          alone = ground (arith, pending-Past (s.request_seq + 1) (closure_of s) jobs past);
          settles = inl (ground (arith, pending-Past (s.request_seq + 1) (closure_of s) jobs past));
          shown = shown;
          goes_on = more;
        })
      ]
    where
      continues_of :
          Continues Answers
            (record s { request_seq = s.request_seq + 1 })
            (request_of (closure_of s) seek)
            append
      continues_of =
          elim append
              as (λ more.
                Continues Answers s (request_of (closure_of s) seek) more
                → Continues Answers (record s { request_seq = s.request_seq + 1 })
                    (request_of (closure_of s) seek) more) [ true ↦ λ c. c | false ↦ λ c. c ]
            continues
