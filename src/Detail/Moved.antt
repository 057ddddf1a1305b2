-- ===== src/Detail/Moved.antt =====
-- Another location under a page of one element that stays mounted, as the history of the browser
-- brings it.
use cassem.Base.{ℕ, ◌≡◌, true, false, some, [], ◌∷◌, ◌++◌, String, Option, arith, ap, ◌∙◌, refl}
use cassem.Content.Parsers.{Parsers}
use cassem.Detail.State.{Location, is_missing, is_at, State, page_job, submit_job}
use cassem.Detail.Handlers.{handle_submit_new_version}
use cassem.Detail.Loading.{Loaded}
use cassem.Detail.World.{World, after, move, moves, submits, enabled, react, Reach, next, happens}
use cassem.Detail.Latest.{Reach-Inv}

moved :
    (parsers : Parsers) (at : Location) (s : State)
    → s.load_key ≡ some s.location
    → is_at s.location at ≡ false
    → is_missing at ≡ false
    → enabled submits s ≡ true
    → (handle_submit_new_version parsers s).jobs ≡ submit_job s.location s.edit_raw ∷ []
    → let t = (move at s).state in
      ((move at s).jobs ≡ page_job t.request_seq at false ∷ [])
      × (enabled submits t ≡ true)
      × ((handle_submit_new_version parsers t).jobs ≡ submit_job at s.edit_raw ∷ [])
      × ((handle_submit_new_version parsers t).state.element ≡ s.element)
unfolding move enabled handle_submit_new_version
moved parsers at s key other there on sends =
    (ground arith, ground arith, ground arith, ground arith)

-- Wherever a page of one element has run, if a click sends its new version to its own element, then so
-- does a click behind a change of the location, to the element of the new location: the world is
-- reached in which the text, which was written and validated for the old element, is on its way to the
-- new one, while the page still shows the old element and the request for the new one has not ended.
pub move-submits :
    (parsers : Parsers) (decode : String → Option String) (Answers : Location → Loaded → Type 0)
    (start_at at : Location) (w : World)
    → Reach parsers decode Answers start_at w
    → is_at w.view.location at ≡ false
    → is_missing at ≡ false
    → enabled submits w.view ≡ true
    → (handle_submit_new_version parsers w.view).jobs
      ≡ submit_job w.view.location w.view.edit_raw ∷ []
    → (reached : World) × Reach parsers decode Answers start_at reached
      × (reached.view.element ≡ w.view.element)
      × ((id : ℕ) × (reached.jobs ≡ submit_job at w.view.edit_raw ∷ page_job id at false ∷ w.jobs))
unfolding enabled
move-submits parsers decode Answers start_at at w r other there on sends =
    let i = Reach-Inv decode Answers parsers r in
    let (loads, still, sent, shown) = moved parsers at w.view i.keyed other there on sends in
    let between : World = after w.jobs (react parsers decode (moves at) w.view) in
    (
      after between.jobs (react parsers decode submits between.view),
      next (next r (happens (moves at) refl)) (happens submits still),
      shown,
      (
        (move at w.view).state.request_seq,
        ap (λ jobs. jobs ++ between.jobs) sent
            ∙ ap (λ jobs. submit_job at w.view.edit_raw ∷ (jobs ++ w.jobs)) loads,
      ),
    )
