-- ===== src/Apps/Paging.antt =====
-- The pages of the list of apps: going forth and back, and going forth twice.
use cassem.Base.{
  ap, ◌∙◌, ◌-◌, max, inl, inr, Bool-cases, ◌+◌, ◌≤◌, ◌≡◌, refl, true, arith, eq_iff, ◌≢◌,
}
use cassem.Apps.{State, forth, handle_next_page, handle_previous_page}
use text.Mathlib.Text.{◌==◌ as str_eq}

goes_forth : (s : State) → s.has_more ≡ true → s.next_seek ≢ "" → handle_next_page s ≡ forth s
unfolding handle_next_page
goes_forth s more given = elim (Bool-cases (str_eq s.next_seek "")) [
  | inl empty ↦ absurd (given ((eq_iff s.next_seek "").0 empty))
  | inr some_seek ↦ rw (more, some_seek) refl
]

-- From a page with a next one, going forth and back leaves the page as it was.
pub handle_previous_page-handle_next_page :
    (s : State)
    → s.has_more ≡ true
    → s.next_seek ≢ ""
    → 1 ≤ s.page_index
    → handle_previous_page (handle_next_page s) ≡ s
unfolding handle_previous_page
handle_previous_page-handle_next_page s more given one =
    let n : max 1 (s.page_index + 1 - 1) ≡ s.page_index = omega arith in
    ap handle_previous_page (goes_forth s more given) ∙ (λ i. record s { page_index = n i })

-- A second click on "Next" before the next page has arrived counts a page more, and stays on the same
-- page.
pub handle_next_page-twice :
    (s : State)
    → s.has_more ≡ true
    → s.next_seek ≢ ""
    → let t = handle_next_page (handle_next_page s) in
      (t.seek ≡ (handle_next_page s).seek) × (t.page_index ≡ (handle_next_page s).page_index + 1)
handle_next_page-twice s more given =
    let twice : handle_next_page (handle_next_page s) ≡ forth (forth s) =
      ap handle_next_page (goes_forth s more given) ∙ goes_forth (forth s) more given in
    rw (twice, goes_forth s more given) (refl, refl)
