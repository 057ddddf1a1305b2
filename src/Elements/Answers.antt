-- ===== src/Elements/Answers.antt =====
-- Every answer keeps the invariant of the page of elements.
use cassem.Base.{◌+◌, ◌≡◌, refl, sym, ap, ◌∙◌, subst, ◌≢◌, true, false, List, arith, All}
use cassem.Base.Pick.{All-Pick}
use cassem.Effects.{resolved, rejected}
use cassem.Content.Parsers.{Parsers}
use cassem.Elements.State.{Location, ElementsResponse, State, Request, Job, closure_of}
use cassem.Elements.Handlers.{
  first_page, emptied_form, create_settled, delete_settled, list_again, can_apply_mutation_result,
}
use cassem.Elements.World.{
  World, after, Answer, elements_arrive, elements_fail, create_ends, delete_ends, happens, answered,
  Reach, here, next,
}
use cassem.Elements.Listed.{
  Listed, Current, Shows, Past, one_if, pending, changes, Inv, Current-Past, changes-Pick,
  pending-Pick,
}
use cassem.Elements.Loading.{load-Inv}
use cassem.Elements.Reactions.{is_at_self, core, same-Inv, react-Inv, start-Inv}
use cassem.Elements.Ended.{rest-Inv, resolved-Leaves, rejected-Leaves, listing-Inv}

module _ (Answers : Request → ElementsResponse → Type 0) (at : Location) where
  applies : (v : State) → v.mounted ≡ true → can_apply_mutation_result v.location v ≡ true
  applies v m = rw (m, is_at_self v.location)

  -- The listing behind a change that the server has made.
  again-Inv :
      (v u : State) (jobs rest : List Job)
      → core u ≡ core v
      → All (Current Answers v) rest
      → changes rest + 1 ≡ one_if v.submitting
      → Inv Answers at (record { view = v; jobs = jobs })
      → Inv Answers at (after rest (list_again (closure_of v) u))
  again-Inv v u jobs rest e c single i =
      let mounted : u.mounted ≡ v.mounted = ap (λ (s : State). s.mounted) e in
      let location : u.location ≡ v.location = ap (λ (s : State). s.location) e in
      let key : u.load_key ≡ v.load_key = ap (λ (s : State). s.load_key) e in
      let seq : u.request_seq ≡ v.request_seq = ap (λ (s : State). s.request_seq) e in
      let closure : closure_of u ≡ closure_of v = ap closure_of e in
      let busy : u.submitting ≡ v.submitting = ap (λ (s : State). s.submitting) e in
      subst (λ k. Inv Answers at (after rest (list_again k u))) closure
        (load-Inv Answers at (first_page u) "" false true rest (mounted ∙ i.present)
          (location ∙ i.placed) (key ∙ i.keyed)
          (subst (λ n. All (Past (n + 1) (closure_of u)) rest) (sym seq)
            (subst (λ k. All (Past (v.request_seq + 1) k) rest) (sym closure)
              (Current-Past Answers v rest c)))
          (single ∙ ap one_if (sym busy)) refl (λ h. cc) (λ h. cc))

  -- A change that has failed.
  failed-Inv :
      (v u : State) (jobs rest : List Job)
      → core u ≡ core (record v { submitting = false })
      → All (Current Answers v) rest
      → changes rest + 1 ≡ one_if v.submitting
      → pending v.request_seq rest ≡ pending v.request_seq jobs
      → Inv Answers at (record { view = v; jobs = jobs })
      → Inv Answers at (record { view = u; jobs = rest })
  failed-Inv v u jobs rest e c single same i =
      same-Inv Answers at (record v { submitting = false }) u rest e
        (rest-Inv Answers at v false jobs rest c (ground arith) same i)

  pub Answer-Inv : {w w' : World} → Answer Answers w w' → Inv Answers at w → Inv Answers at w'
  unfolding create_settled delete_settled
  Answer-Inv {w} (elements_arrive id asked append awaited found {rest} p a) i =
      listing-Inv Answers at w.view w.jobs rest id asked append awaited (resolved found)
        (resolved-Leaves Answers at w.view asked append found a) p i
  Answer-Inv {w} (elements_fail id asked append awaited reason {rest} p) i =
      listing-Inv Answers at w.view w.jobs rest id asked append awaited (rejected reason)
        (rejected-Leaves Answers at w.view asked append reason) p i
  Answer-Inv {w} (create_ends c key raw content_type (resolved done) {rest} p) i =
      let (e, others) = All-Pick (Current Answers w.view) p i.current in
      subst (λ k. Inv Answers at (after rest (create_settled k (resolved done) w.view))) (sym e)
        (rw (applies w.view i.present) (
          again-Inv w.view (emptied_form w.view) w.jobs rest refl others
            (omega (arith, i.single, changes-Pick p)) i))
  Answer-Inv {w} (delete_ends c key (resolved done) {rest} p) i =
      let (e, others) = All-Pick (Current Answers w.view) p i.current in
      subst (λ k. Inv Answers at (after rest (delete_settled k (resolved done) w.view))) (sym e)
        (rw (applies w.view i.present) (
          again-Inv w.view (record w.view { delete_target = "" }) w.jobs rest refl others
            (omega (arith, i.single, changes-Pick p)) i))
  Answer-Inv {w} (create_ends c key raw content_type (rejected reason) {rest} p) i =
      failed-Inv w.view (create_settled c (rejected reason) w.view).0 w.jobs rest
        (ground (arith, i.present)) (All-Pick (Current Answers w.view) p i.current).1
        (omega (arith, i.single, changes-Pick p)) (omega (arith, pending-Pick w.view.request_seq p))
        i
  Answer-Inv {w} (delete_ends c key (rejected reason) {rest} p) i =
      failed-Inv w.view (delete_settled c (rejected reason) w.view).0 w.jobs rest
        (ground (arith, i.present)) (All-Pick (Current Answers w.view) p i.current).1
        (omega (arith, i.single, changes-Pick p)) (omega (arith, pending-Pick w.view.request_seq p))
        i

  pub Reach-Inv : (parsers : Parsers) {w : World} → Reach parsers Answers at w → Inv Answers at w
  Reach-Inv parsers here = start-Inv Answers at parsers
  Reach-Inv parsers (next {w} r (happens event h)) =
      react-Inv Answers at parsers event w.view w.jobs h (Reach-Inv parsers r)
  Reach-Inv parsers (next r (answered a)) = Answer-Inv a (Reach-Inv parsers r)

-- Whatever the user does and whatever the server answers in whatever order, while the page of elements
-- stays open at one location: once it is not loading, the elements that it shows are none, or the pages
-- of one listing by the chosen search and page size, from the first page on, each asked for by the seek
-- that the page before it gave; and what "Load more" asks for next is the page behind them.
pub Reach-Lists :
    (parsers : Parsers) (Answers : Request → ElementsResponse → Type 0) (at : Location) (w : World)
    → Reach parsers Answers at w
    → w.view.loading ≡ false
    → Shows Answers w.view
      × (w.view.has_more ≡ true
          → w.view.next_seek ≢ ""
          → Listed Answers (closure_of w.view) w.view.elements true w.view.next_seek)
Reach-Lists parsers Answers at w r done =
    let i = Reach-Inv Answers at parsers r in (i.shown done, i.goes_on)
