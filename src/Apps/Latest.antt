-- ===== src/Apps/Latest.antt =====
-- The list of apps is that of the page that is chosen, once its request has ended, and one change is
-- under way at a time.
use cassem.Base.{ℕ, List, ◌∷◌, ◌++◌, ◌≡◌, refl, sym, subst, ◌⊎◌, inl, inr, true, arith, any}
use cassem.Base.Pick.{Pick, All-Pick}
use cassem.Effects.{resolved, rejected}
use cassem.Apps.{
  Params, params_of, create_job, delete_job, AppsResponse, create_settled, delete_settled,
  load_effect,
}
use cassem.Apps.World.{
  World, rendered, Step, happens, arrives, fails, create_ends, delete_ends, Reach, here, next,
}
use cassem.Apps.Held.{Current, changes, is_latest, one_if, Shows, Inv, rendered-Inv}
use cassem.Apps.Reactions.{react-Inv}
use cassem.Apps.Settled.{listed, settled-Inv, create_settled-Ready, delete_settled-Ready}

module _ (Answers : Params → AppsResponse → Type 0) where
  -- A failure more.
  failed_more :
      (id : ℕ) (failed : List ℕ) {w : World} → Inv Answers failed w → Inv Answers (id ∷ failed) w
  failed_more id failed i = record {
    present = i.present;
    keyed = i.keyed;
    single = i.single;
    current = i.current;
    shows = elim i.shows [
      | inl waits ↦ inl waits
      | inr (inl found) ↦ inr (inl found)
      | inr (inr (empty, fell)) ↦ inr (inr (empty, ground arith))
    ];
  }

  Step-Inv :
      (failed : List ℕ) {more : List ℕ} {w w' : World}
      → Step Answers w more w'
      → Inv Answers failed w
      → Inv Answers (more ++ failed) w'
  Step-Inv failed {w = w} (happens event on) i = react-Inv Answers failed event w on i
  Step-Inv failed {w = w} (arrives id asked awaited found {rest} p answer) i =
      settled-Inv Answers failed w id asked awaited (resolved found) rest p i (
        listed Answers failed w id asked awaited (resolved found) rest p i
          (refl, refl, refl, refl, refl, refl)
          (λ q n. inl (found, (subst (λ a. Answers a found) q answer, refl))))
  Step-Inv failed {w = w} (fails id asked awaited reason {rest} p) i =
      let j = failed_more id failed i in
      settled-Inv Answers (id ∷ failed) w id asked awaited (rejected reason) rest p j (
        listed Answers (id ∷ failed) w id asked awaited (rejected reason) rest p j
          (refl, refl, refl, refl, refl, refl) (λ q n. inr (refl, ground arith)))
  Step-Inv failed {w = w} (create_ends asked id description reply {rest} p) i =
      let (q, opened) = (All-Pick (Current w.view) p i.current).0 in
      subst (λ a. Inv Answers failed (rendered rest (create_settled a reply w.view))) (sym q)
        (rendered-Inv Answers failed (params_of w.view)
          (create_settled (params_of w.view) reply w.view).0
          (create_settled (params_of w.view) reply w.view).1 rest
          (create_settled-Ready Answers failed w id description reply rest
            (subst (λ a. Pick (create_job a id description) w.jobs rest) q p) i))
  Step-Inv failed {w = w} (delete_ends asked id reply {rest} p) i =
      let (q, opened) = (All-Pick (Current w.view) p i.current).0 in
      subst (λ a. Inv Answers failed (rendered rest (delete_settled a reply w.view))) (sym q)
        (rendered-Inv Answers failed (params_of w.view)
          (delete_settled (params_of w.view) reply w.view).0
          (delete_settled (params_of w.view) reply w.view).1 rest
          (delete_settled-Ready Answers failed w id reply rest
            (subst (λ a. Pick (delete_job a id) w.jobs rest) q p) i))

  Reach-Inv : (failed : List ℕ) {w : World} → Reach Answers failed w → Inv Answers failed w
  unfolding load_effect
  Reach-Inv failed here = record {
    present = refl;
    keyed = refl;
    single = refl;
    current = ((omega arith, inr refl), tt);
    shows = inl refl;
  }
  Reach-Inv failed (next {failed = before} r s) = Step-Inv before s (Reach-Inv before r)

-- Whatever the user and the server do while the page is mounted, with apps created and deleted
-- meanwhile: of the handlers that create or delete an app at most one is under way, up to the end of
-- the listing behind it, and the page is locked exactly while it is; and once the latest request for
-- the list has ended, the list is an answer of the server for the search, the page and the page size
-- that are chosen, or it is empty and the latest request is among those that have failed.
pub Reach-Shows_apps :
    (Answers : Params → AppsResponse → Type 0) (failed : List ℕ) (w : World)
    → Reach Answers failed w
    → (changes w.jobs ≡ one_if w.view.submitting)
      × ((any (is_latest w.view.request_seq) w.jobs ≡ true) ⊎ Shows Answers failed w.view)
Reach-Shows_apps Answers failed w r = let i = Reach-Inv Answers failed r in (i.single, i.shows)
