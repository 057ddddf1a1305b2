-- ===== src/Apps/Ready.antt =====
-- What a handler of the user has to leave alone for the page of apps to keep its invariant.
use cassem.Base.{
  ℕ, ◌==◌, ◌≡◌, refl, sym, ap, ◌∙◌, subst, ◌⊎◌, inl, inr, true, false, not, ◌||◌, List, [], ◌∷◌,
  arith, All, any, Bool-cases,
}
use cassem.Apps.{
  pop_seek, State, Params, params_of, Job, AppsResponse, handle_next_page, handle_previous_page,
}
use cassem.Apps.World.{World, Event, goes_forth, goes_back, is_chosen, react}
use cassem.Apps.Held.{
  Current, Listing, is_latest, one_if, locks, Shows, Inv, Ready, All-kept, All-listings,
  unlocked-Listing,
}
use text.Mathlib.Text.{◌==◌ as str_eq}

-- What no event of the user changes at once.
abbrev pub Untouched : State → State → Type 0
Untouched v s =
    (v.request_seq ≡ s.request_seq)
    × (v.load_key ≡ s.load_key)
    × (v.apps ≡ s.apps)
    × (v.submitting ≡ s.submitting)

pub turned-Untouched :
    (event : Event) (v : State)
    → (event ≡ goes_forth) ⊎ (event ≡ goes_back)
    → Untouched v (react event v).0
unfolding handle_next_page handle_previous_page
turned-Untouched event v (inl e) =
    subst (λ it. Untouched v (react it v).0) (sym e)
      (elim (Bool-cases (not v.has_more || str_eq v.next_seek "")) [
        | inl last ↦ rw last (refl, refl, refl, refl)
        | inr more ↦ rw more (refl, refl, refl, refl)
      ])
turned-Untouched event v (inr e) =
    subst (λ it. Untouched v (react it v).0) (sym e)
      (elim v.seek_stack as (λ seeks. Untouched v (pop_seek seeks v)) [
        | [] ↦ (refl, refl, refl, refl)
        | seek ∷ seeks ↦ (refl, refl, refl, refl)
      ])

module _ (Answers : Params → AppsResponse → Type 0) (failed : List ℕ) where
  -- The list shown does not change.
  shown-Waits :
      (v s : State) (jobs : List Job)
      → Untouched v s
      → params_of v ≡ params_of s
      → (any (is_latest v.request_seq) jobs ≡ true) ⊎ Shows Answers failed v
      → (any (is_latest s.request_seq) jobs ≡ true) ⊎ Shows Answers failed s
  shown-Waits v s jobs (n, _, a, _) q (inl waits) =
      inl (ap (λ m. any (is_latest m) jobs) (sym n) ∙ waits)
  shown-Waits v s jobs (n, _, a, _) q (inr (inl (found, (answer, h)))) =
      inr (inl (found, (subst (λ p. Answers p found) q answer, sym a ∙ h)))
  shown-Waits v s jobs (n, _, a, _) q (inr (inr (h, fell))) =
      inr (inr (sym a ∙ h, ap (λ m. any (λ id. id == m) failed) (sym n) ∙ fell))

  -- An event that leaves alone what is chosen, and the dialogs that are open.
  pub kept-Ready :
      (w : World) (s : State)
      → Untouched w.view s
      → params_of w.view ≡ params_of s
      → (w.view.create_open ≡ true → s.create_open ≡ true)
      → (is_chosen w.view.delete_target ≡ true → is_chosen s.delete_target ≡ true)
      → Inv Answers failed w
      → Ready Answers failed (params_of w.view) s w.jobs
  kept-Ready w s u q c d i = record {
    keyed = sym u.1 ∙ i.keyed;
    single = i.single ∙ ap one_if u.3;
    kept = inl q;
    same = λ _.
        (All-kept w.view s w.jobs u.0 q c d i.current, shown-Waits w.view s w.jobs u q i.shows);
  }

  -- An event while no change is under way.
  pub listed-Ready :
      (w : World) (s : State)
      → Untouched w.view s
      → All (Listing w.view.request_seq) w.jobs
      → Inv Answers failed w
      → Ready Answers failed (params_of w.view) s w.jobs
  listed-Ready w s u l i = record {
    keyed = sym u.1 ∙ i.keyed;
    single = i.single ∙ ap one_if u.3;
    kept = inr (subst (λ n. All (Listing n) w.jobs) u.0 l);
    same = λ q.
        (All-listings w.view s w.jobs u.0 q l i.current, shown-Waits w.view s w.jobs u q i.shows);
  }

  pub unlocked :
      (w : World)
      → w.view.submitting ≡ false
      → Inv Answers failed w
      → All (Listing w.view.request_seq) w.jobs
  unlocked w free i = unlocked-Listing w.view w.jobs (i.single ∙ ap one_if free) i.current

  -- The first call of a change, out of its open dialog.
  pub sent-Ready :
      (w : World) (s : State) (job : Job)
      → Untouched w.view (record s { submitting = false })
      → params_of w.view ≡ params_of s
      → s.submitting ≡ true
      → Current s job
      → locks job ≡ true
      → is_latest s.request_seq job ≡ false
      → All (Listing w.view.request_seq) w.jobs
      → Inv Answers failed w
      → Ready Answers failed (params_of w.view) s (job ∷ w.jobs)
  sent-Ready w s job u q busy c locked other l i = record {
    keyed = sym u.1 ∙ i.keyed;
    single = ground (arith, i.single, u.3, locked, busy);
    kept = inl q;
    same = λ _. (
      (c, All-listings w.view s w.jobs u.0 q l i.current),
      elim (shown-Waits w.view (record s { submitting = false }) w.jobs u q i.shows) [
        | inl waits ↦ inl (ground (arith, waits, other))
        | inr shown ↦ inr shown
      ],
    );
  }
