-- ===== src/Elements/Moved.antt =====
-- Another location under a page of elements that stays mounted, as the history of the browser brings
-- it.
use cassem.Base.{
  ◌+◌, ◌≡◌, ◌≢◌, true, false, some, [], ◌∷◌, ◌++◌, String, sym, ap, ◌∙◌, arith, eq_iff,
}
use cassem.Effects.{Reply, resolved}
use cassem.Content.Parsers.{Parsers}
use cassem.Elements.State.{
  Location, is_missing, is_at, ElementsResponse, State, Request, elements_job, Turn,
}
use cassem.Elements.Handlers.{load_effect, handle_load_more, elements_settled, list_elements}
use cassem.Elements.World.{World, Reach, loads_more, enabled}
use cassem.Elements.Answers.{Reach-Inv}

-- The render at another location, behind the clean-up of the effect.
unfoldable pub move : Location → State → Turn
unfolding load_effect
move at s = load_effect (record s { mounted = false; location = at })

-- The request of the page for its location, by the seek.
abbrev pub asks : Location → State → String → Request
asks at s seek = record { location = at; query = s.query; limit = s.page_size; seek = seek }

moved :
    (at : Location) (s : State)
    → s.load_key ≡ some s.location
    → is_at s.location at ≡ false
    → is_missing at ≡ false
    → enabled loads_more s ≡ true
    → s.next_seek ≢ ""
    → let moved = (move at s).0 in
      let clicked = handle_load_more moved in
      ((move at s).1 ≡ elements_job moved.request_seq (asks at s "") false false ∷ [])
      × (enabled loads_more moved ≡ true)
      × (clicked.1 ≡ elements_job (moved.request_seq + 1) (asks at s s.next_seek) true false ∷ [])
      × ((reply : Reply ElementsResponse)
          → elements_settled moved.request_seq false false reply clicked.0 ≡ clicked.0)
      × ((found : ElementsResponse)
          → (elements_settled
              (moved.request_seq + 1)
              true
              false
              (resolved found)
              clicked.0).elements
            ≡ s.elements ++ found.elements)
unfolding move handle_load_more elements_settled list_elements enabled
moved at s key other there on given = (
  ground arith,
  ground arith,
  ground (arith, eq_iff s.next_seek ""),
  λ reply. ground (arith, eq_iff s.next_seek ""),
  λ found. ground (arith, eq_iff s.next_seek ""),
)

-- On a page that has run in any way at one location and on which "Load more" can be used, another
-- location asks for its first page, and leaves "Load more" enabled meanwhile. If it is clicked before
-- that page has come, the page asks the new location for what the old one named as its next page; the
-- new first page is dropped when it arrives, and the answer is put behind the elements of the old
-- location.
pub move-loads_more :
    (parsers : Parsers) (Answers : Request → ElementsResponse → Type 0) (old at : Location)
    (w : World)
    → Reach parsers Answers old w
    → is_at old at ≡ false
    → is_missing at ≡ false
    → enabled loads_more w.view ≡ true
    → w.view.next_seek ≢ ""
    → let moved = (move at w.view).0 in
      let clicked = handle_load_more moved in
      ((move at w.view).1 ≡ elements_job moved.request_seq (asks at w.view "") false false ∷ [])
      × (enabled loads_more moved ≡ true)
      × (clicked.1
          ≡ elements_job (moved.request_seq + 1) (asks at w.view w.view.next_seek) true false ∷ [])
      × ((reply : Reply ElementsResponse)
          → elements_settled moved.request_seq false false reply clicked.0 ≡ clicked.0)
      × ((found : ElementsResponse)
          → (elements_settled
              (moved.request_seq + 1)
              true
              false
              (resolved found)
              clicked.0).elements
            ≡ w.view.elements ++ found.elements)
move-loads_more parsers Answers old at w r other there on given =
    let i = Reach-Inv Answers old parsers r in
    moved at w.view (i.keyed ∙ ap some (sym i.placed))
      (ap (λ place. is_at place at) i.placed ∙ other) there on given
