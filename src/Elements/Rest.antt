-- ===== src/Elements/Rest.antt =====
-- The page of elements comes to rest: its calls end, and then nothing on it is busy.
use cassem.Base.{
  ℕ, zero, suc, ◌+◌, ◌≤◌, ◌<◌, ◌≡◌, refl, inl, inr, false, List, [], ◌∷◌, arith, Bool-cases,
}
use cassem.Base.Pick.{Pick, first, later}
use cassem.Effects.{Reply, resolved, rejected, other_error}
use cassem.Content.Parsers.{Parsers}
use cassem.Elements.State.{
  create_job, delete_job, elements_job, Location, ElementsResponse, State, Request, Closure, Job,
  is_missing,
}
use cassem.Elements.Handlers.{
  create_settled, delete_settled, list_again, can_apply_mutation_result, emptied_form,
}
use cassem.Elements.World.{
  World, after, Answer, elements_arrive, elements_fail, create_ends, delete_ends, Reach,
}
use cassem.Elements.Listed.{Inv}
use cassem.Elements.Answers.{Answer-Inv, Reach-Inv}

-- The answers that are still to come: behind a change there is a listing.
abbrev weight : List Job → ℕ
weight [] = 0
weight (elements_job id asked append awaited ∷ jobs) = 1 + weight jobs
weight (create_job c key raw content_type ∷ jobs) = 2 + weight jobs
weight (delete_job c key ∷ jobs) = 2 + weight jobs

weight-cons : (job : Job) (jobs : List Job) → weight (job ∷ jobs) ≡ weight (job ∷ []) + weight jobs
weight-cons (elements_job id asked append awaited) jobs = omega arith
weight-cons (create_job c key raw content_type) jobs = omega arith
weight-cons (delete_job c key) jobs = omega arith

weight-Pick :
    {job : Job} {jobs rest : List Job}
    → Pick job jobs rest
    → weight jobs ≡ weight (job ∷ []) + weight rest
weight-Pick (first {x} {rest}) = weight-cons x rest
weight-Pick (later {x} {other} {xs} {rest} p) =
    omega (arith, weight-cons other xs, weight-cons other rest, weight-Pick p)

weight-again :
    (c : Closure) (s : State) (rest : List Job)
    → weight (after rest (list_again c s)).jobs ≤ 1 + weight rest
weight-again c s rest = elim (Bool-cases (is_missing c.location)) [
  | inl missing ↦ rw missing (omega arith)
  | inr there ↦ rw there (omega arith)
]

weight-create :
    (c : Closure) (reply : Reply (Unit {0})) (s : State) (rest : List Job)
    → weight (after rest (create_settled c reply s)).jobs ≤ 1 + weight rest
unfolding create_settled
weight-create c (resolved done) s rest =
    elim (Bool-cases (can_apply_mutation_result c.location s)) [
      | inl applies ↦ rw applies (weight-again c (emptied_form s) rest)
      | inr gone ↦ rw gone (omega arith)
    ]
weight-create c (rejected reason) s rest = omega arith

weight-delete :
    (c : Closure) (reply : Reply (Unit {0})) (s : State) (rest : List Job)
    → weight (after rest (delete_settled c reply s)).jobs ≤ 1 + weight rest
unfolding delete_settled
weight-delete c (resolved done) s rest =
    elim (Bool-cases (can_apply_mutation_result c.location s)) [
      | inl applies ↦ rw applies (weight-again c (record s { delete_target = "" }) rest)
      | inr gone ↦ rw gone (omega arith)
    ]
weight-delete c (rejected reason) s rest = omega arith

-- Nothing on the page is busy.
abbrev pub IsIdle : State → Type 0
IsIdle v = (v.loading ≡ false) × (v.loading_more ≡ false) × (v.submitting ≡ false)

module _ (Answers : Request → ElementsResponse → Type 0) where
  -- Some call can end while there is one, and whichever does, the page comes to rest.
  pub data ComesToRest : World → Type 0 where
    rests : {w : World} → w.jobs ≡ [] → IsIdle w.view → ComesToRest w
    waits :
        {w w' : World}
        → Answer Answers w w'
        → ((u : World) → Answer Answers w u → ComesToRest u)
        → ComesToRest w

  weight-Answer : {w w' : World} → Answer Answers w w' → weight w'.jobs < weight w.jobs
  weight-Answer (elements_arrive id asked append awaited found p a) = omega (arith, weight-Pick p)
  weight-Answer (elements_fail id asked append awaited reason p) = omega (arith, weight-Pick p)
  weight-Answer {w} (create_ends c key raw content_type reply {rest} p) =
      omega (arith, weight-Pick p, weight-create c reply w.view rest)
  weight-Answer {w} (delete_ends c key reply {rest} p) =
      omega (arith, weight-Pick p, weight-delete c reply w.view rest)

  -- A call can fail.
  failure :
      (v : State) (job : Job) (jobs : List Job)
      → (w' : World) × Answer Answers (record { view = v; jobs = job ∷ jobs }) w'
  failure v (elements_job id asked append awaited) jobs =
      (_, elements_fail id asked append awaited other_error first)
  failure v (create_job c key raw content_type) jobs =
      (_, create_ends c key raw content_type (rejected other_error) first)
  failure v (delete_job c key) jobs = (_, delete_ends c key (rejected other_error) first)

  Inv-ComesToRest :
      (at : Location) (n : ℕ) (v : State) (jobs : List Job)
      → weight jobs ≤ n
      → Inv Answers at (record { view = v; jobs = jobs })
      → ComesToRest (record { view = v; jobs = jobs })
  Inv-ComesToRest at n v [] h i =
      rests refl (ground (arith, i.settles), ground (arith, i.settles), ground (arith, i.single))
  Inv-ComesToRest at zero v (job ∷ jobs) h i =
      absurd (omega (arith, weight-Answer (failure v job jobs).1))
  Inv-ComesToRest at (suc n) v (job ∷ jobs) h i = waits (failure v job jobs).1 (λ w' a.
      Inv-ComesToRest at n w'.view w'.jobs (omega (arith, weight-Answer a))
        (Answer-Inv Answers at a i))

-- Whatever the user has done on a page of elements that stays open at one location: if the user then
-- waits, its calls end whatever the server answers and in whatever order (there is always one that can
-- end until none is left), and then the page is neither loading nor submitting.
pub Reach-ComesToRest :
    (parsers : Parsers) (Answers : Request → ElementsResponse → Type 0) (at : Location) (w : World)
    → Reach parsers Answers at w
    → ComesToRest Answers w
Reach-ComesToRest parsers Answers at w r =
    Inv-ComesToRest Answers at (weight w.jobs) w.view w.jobs (omega arith)
      (Reach-Inv Answers at parsers r)
