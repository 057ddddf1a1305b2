-- ===== src/Elements/Ended.antt =====
-- The end of a listing keeps the invariant of the page of elements.
use cassem.Base.{
  ℕ, ◌==◌, ◌≡◌, refl, ◌∙◌, subst, inl, inr, ◌≢◌, Bool, true, false, ◌&&◌, List, ◌++◌, arith, All,
  if◌then◌else◌, Bool-cases,
}
use cassem.Base.Pick.{Pick, All-Pick}
use cassem.Effects.{Reply, resolved, rejected, Failure}
use cassem.Elements.State.{
  elements_job, Location, ElementsResponse, State, Request, Job, closure_of,
}
use cassem.Elements.Handlers.{elements_settled, list_elements, apply_elements, end_awaited}
use cassem.Elements.Listed.{
  Listed, Listed.first_page as first_of, next_page, Continues, Current, Shows, one_if, pending,
  changes, Inv, Current-Past_answered, changes-Pick, pending-Pick,
}
use cassem.Elements.Loading.{rested-Inv}
use cassem.Elements.Reactions.{core, same-Inv}

module _ (Answers : Request → ElementsResponse → Type 0) (at : Location) where
  -- Fewer calls: the handler behind the one that has ended no longer waits.
  pub rest-Inv :
      (v : State) (busy : Bool) (jobs rest : List Job)
      → All (Current Answers v) rest
      → changes rest ≡ one_if busy
      → pending v.request_seq rest ≡ pending v.request_seq jobs
      → Inv Answers at (record { view = v; jobs = jobs })
      → Inv Answers at (record { view = record v { submitting = busy }; jobs = rest })
  rest-Inv v busy jobs rest c single p i = record {
    present = i.present;
    placed = i.placed;
    keyed = i.keyed;
    current = c;
    single = single;
    alone = omega (arith, i.alone, p);
    settles = elim i.settles [ inl waits ↦ inl (p ∙ waits) | inr rests ↦ inr rests ];
    shown = i.shown;
    goes_on = i.goes_on;
  }

  found-Listed :
      (v : State) (asked : Request) (append : Bool) (found : ElementsResponse)
      → Continues Answers v asked append
      → Answers asked found
      → Listed Answers
          (closure_of v)
          (if append then v.elements ++ found.elements else found.elements)
          found.has_more
          found.next_seek
  found-Listed v asked false found c a = first_of (subst (λ r. Answers r found) c a)
  found-Listed v asked true found c a = next_page c.1 c.2 (subst (λ r. Answers r found) c.0 a)

  -- What an answer to the latest listing leaves behind.
  abbrev Leaves : State → Request → Bool → Reply ElementsResponse → Type 0
  Leaves v asked append reply =
      let u = apply_elements append reply v in
      Continues Answers v asked append
      → Shows Answers u
        × (u.has_more ≡ true
            → u.next_seek ≢ ""
            → Listed Answers (closure_of u) u.elements true u.next_seek)

  pub resolved-Leaves :
      (v : State) (asked : Request) (append : Bool) (found : ElementsResponse)
      → Answers asked found
      → Leaves v asked append (resolved found)
  resolved-Leaves v asked append found a c =
      let listed = found-Listed v asked append found c a in
      (
        inr (found.has_more, found.next_seek, listed),
        λ h given.
            subst
              (λ (more : Bool).
                Listed Answers (closure_of v)
                  (if append then v.elements ++ found.elements else found.elements) more
                  found.next_seek)
              h listed,
      )

  pub rejected-Leaves :
      (v : State) (asked : Request) (append : Bool) (reason : Failure)
      → Leaves v asked append (rejected reason)
  rejected-Leaves v asked false reason c = (inl refl, λ h. cc)
  rejected-Leaves v asked true reason c = (inr (true, asked.seek, c.1), λ h. cc)

  latest-Inv :
      (v : State) (append busy : Bool) (reply : Reply ElementsResponse) (jobs rest : List Job)
      → All (Current Answers v) rest
      → changes rest ≡ one_if busy
      → pending v.request_seq rest ≡ 0
      → Shows Answers (apply_elements append reply v)
        × ((apply_elements append reply v).has_more ≡ true
            → (apply_elements append reply v).next_seek ≢ ""
            → Listed Answers
                (closure_of (apply_elements append reply v))
                (apply_elements append reply v).elements
                true
                (apply_elements append reply v).next_seek)
      → Inv Answers at (record { view = v; jobs = jobs })
      → Inv Answers at (record {
        view = record (apply_elements append reply v) { submitting = busy };
        jobs = rest;
      })
  latest-Inv v append busy (resolved found) jobs rest c single gone (shown, more) i =
      rested-Inv Answers at v.request_seq (closure_of v) _ rest i.present i.placed i.keyed refl refl
        refl refl shown more single (Current-Past_answered Answers v rest gone c)
  latest-Inv v append busy (rejected reason) jobs rest c single gone (shown, more) i =
      rested-Inv Answers at v.request_seq (closure_of v) _ rest i.present i.placed i.keyed refl refl
        refl refl shown more single (Current-Past_answered Answers v rest gone c)

  core_of_end :
      (v : State) (append awaited busy : Bool) (reply : Reply ElementsResponse)
      → v.mounted ≡ true
      → (if awaited then false else v.submitting) ≡ busy
      → core (end_awaited awaited (apply_elements append reply v))
        ≡ core (record (apply_elements append reply v) { submitting = busy })
  core_of_end v append true busy (resolved found) m b = ground arith
  core_of_end v append true busy (rejected reason) m b = ground arith
  core_of_end v append false busy (resolved found) m b = ground arith
  core_of_end v append false busy (rejected reason) m b = ground arith

  core_of_stale :
      (v : State) (awaited busy : Bool)
      → v.mounted ≡ true
      → (if awaited then false else v.submitting) ≡ busy
      → core (end_awaited awaited v) ≡ core (record v { submitting = busy })
  core_of_stale v true busy m b = ground arith
  core_of_stale v false busy m b = ground arith

  pub listing-Inv :
      (v : State) (jobs rest : List Job) (id : ℕ) (asked : Request) (append awaited : Bool)
      (reply : Reply ElementsResponse)
      → Leaves v asked append reply
      → Pick (elements_job id asked append awaited) jobs rest
      → Inv Answers at (record { view = v; jobs = jobs })
      → Inv Answers at (record { view = elements_settled id append awaited reply v; jobs = rest })
  unfolding elements_settled list_elements
  listing-Inv v jobs rest id asked append awaited reply leaves p i =
      let ((le, c), others) = All-Pick (Current Answers v) p i.current in
      let busy : Bool = if awaited then false else v.submitting in
      let single : changes rest ≡ one_if busy = ground (arith, i.single, changes-Pick p) in
      elim (Bool-cases (v.mounted && id == v.request_seq)) [
        | inl counts ↦
            let continues : Continues Answers v asked append = elim c [
              | inl older ↦ absurd (ground arith)
              | inr goes_on ↦ goes_on
            ] in
            let gone : pending v.request_seq rest ≡ 0 =
              ground (arith, i.alone, pending-Pick v.request_seq p) in
            rw counts (
              same-Inv Answers at (record (apply_elements append reply v) { submitting = busy })
                (end_awaited awaited (apply_elements append reply v)) rest
                (core_of_end v append awaited busy reply i.present refl)
                (latest-Inv v append busy reply jobs rest others single gone (leaves continues) i))
        | inr stale ↦
            let same : pending v.request_seq rest ≡ pending v.request_seq jobs =
              ground (arith, i.present, pending-Pick v.request_seq p) in
            rw stale (
              same-Inv Answers at (record v { submitting = busy }) (end_awaited awaited v) rest
                (core_of_stale v awaited busy i.present refl)
                (rest-Inv v busy jobs rest others single same i))
      ]
