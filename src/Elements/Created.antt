-- ===== src/Elements/Created.antt =====
-- What the page of elements asks the server to change.
use cassem.Base.{
  ℕ, ◌≡◌, inl, inr, some, Bool, true, false, not, ◌||◌, [], String, arith, All, All-append,
  Bool-cases, is_blank, trim,
}
use cassem.Base.Pick.{All-Pick}
use cassem.Domain.{nat, number}
use cassem.Effects.{resolved, rejected}
use cassem.Content.Parsers.{Parsers, validate}
use cassem.Elements.State.{
  create_job, delete_job, elements_job, Location, is_missing, ElementsResponse, State, Request,
  Closure, Job, initial,
}
use cassem.Elements.Handlers.{
  load_effect, load_elements, create_settled, delete_settled, list_again, first_page,
  handle_search_submit, handle_load_more, handle_clear_search, handle_page_size_change,
  handle_create, handle_delete, can_apply_mutation_result, emptied_form, validation_of, is_load_key,
}
use cassem.Elements.World.{
  World, Answer, elements_arrive, elements_fail, create_ends, delete_ends, happens, answered, Reach,
  here, next, Event, react, renews, searches, loads_more, clears, picks_size, creates, deletes,
}
use cassem.Elements.Listed.{one_if, changes}
use cassem.Elements.Answers.{Reach-Inv}
use text.Mathlib.Text.{◌==◌ as str_eq}

-- What a request that creates or deletes an element carries.
abbrev pub IsSound : Parsers → Job → Type 0
IsSound parsers (create_job c key raw content_type) =
    (is_missing c.location ≡ false)
    × (is_blank key ≡ false)
    × (is_blank (trim raw) ≡ false)
    × ((validate parsers (number (nat content_type)) raw).valid ≡ true)
IsSound parsers (delete_job c key) = (is_missing c.location ≡ false) × (str_eq key "" ≡ false)
IsSound parsers (elements_job id asked append awaited) = Unit {0}

module _ (parsers : Parsers) where
  load-IsSound :
      (at : Location) (query : String) (limit : ℕ) (seek : String) (append awaited : Bool)
      (s : State)
      → All (IsSound parsers) (load_elements at query limit seek append awaited s).1
  load-IsSound at query limit seek append awaited s = elim (Bool-cases (is_missing at)) [
    | inl missing ↦ rw missing tt
    | inr there ↦ rw there (tt, tt)
  ]

  effect-IsSound : (s : State) → All (IsSound parsers) (load_effect s).1
  unfolding load_effect
  effect-IsSound s = elim (Bool-cases (is_load_key s.load_key s.location)) [
    | inl same ↦ rw same tt
    | inr other ↦ rw other (
        load-IsSound s.location s.query s.page_size "" false false
          (record s { mounted = true; load_key = some s.location }))
  ]

  load_more-IsSound : (s : State) → All (IsSound parsers) (handle_load_more s).1
  unfolding handle_load_more
  load_more-IsSound s =
      elim (Bool-cases (not s.has_more || str_eq s.next_seek "" || s.loading_more)) [
        | inl stops ↦ rw stops tt
        | inr goes ↦ rw goes (
            load-IsSound s.location s.query s.page_size s.next_seek true false
              (record s { loading_more = true }))
      ]

  create-IsSound : (s : State) → All (IsSound parsers) (handle_create parsers s).1
  unfolding handle_create
  create-IsSound s =
      elim (Bool-cases
        (is_missing s.location || is_blank (trim s.create_key) || is_blank (trim s.create_raw))) [
          | inl blank ↦ rw blank tt
          | inr given ↦ rw given (elim (Bool-cases (not (validation_of parsers s).valid)) [
            | inl invalid ↦ rw invalid tt
            | inr valid ↦ rw valid ((ground arith, ground arith, ground arith, ground arith), tt)
          ])
        ]

  delete-IsSound : (s : State) → All (IsSound parsers) (handle_delete s).1
  unfolding handle_delete
  delete-IsSound s = elim (Bool-cases (is_missing s.location || str_eq s.delete_target "")) [
    | inl nothing ↦ rw nothing tt
    | inr given ↦ rw given ((ground arith, ground arith), tt)
  ]

  again-IsSound : (c : Closure) (s : State) → All (IsSound parsers) (list_again c s).1
  again-IsSound c s = load-IsSound c.location c.query c.page_size "" false true (first_page s)

  react-IsSound : (event : Event) (s : State) → All (IsSound parsers) (react parsers event s).1
  unfolding handle_search_submit handle_clear_search handle_page_size_change
  react-IsSound renews s = effect-IsSound (record s { mounted = false })
  react-IsSound searches s =
      load-IsSound s.location (trim s.query_input) s.page_size "" false false
        (first_page (record s { query = trim s.query_input }))
  react-IsSound loads_more s = load_more-IsSound s
  react-IsSound clears s =
      load-IsSound s.location "" s.page_size "" false false
        (first_page (record s { query_input = ""; query = "" }))
  react-IsSound (picks_size size) s =
      load-IsSound s.location s.query size "" false false
        (first_page (record s { page_size = size }))
  react-IsSound creates s = create-IsSound s
  react-IsSound deletes s = delete-IsSound s
  react-IsSound _ s = tt

  module _ (Answers : Request → ElementsResponse → Type 0) where
    answer-IsSound :
        {w w' : World}
        → Answer Answers w w'
        → All (IsSound parsers) w.jobs
        → All (IsSound parsers) w'.jobs
    unfolding create_settled delete_settled
    answer-IsSound (elements_arrive id asked append awaited found p a) s =
        (All-Pick (IsSound parsers) p s).1
    answer-IsSound (elements_fail id asked append awaited reason p) s =
        (All-Pick (IsSound parsers) p s).1
    answer-IsSound {w} (create_ends c key raw content_type (resolved done) {rest} p) s =
        let left = (All-Pick (IsSound parsers) p s).1 in
        elim (Bool-cases (can_apply_mutation_result c.location w.view)) [
          | inl applies ↦ rw applies (
              All-append (IsSound parsers) (list_again c (emptied_form w.view)).1 rest
                (again-IsSound c (emptied_form w.view)) left)
          | inr gone ↦ rw gone left
        ]
    answer-IsSound (create_ends c key raw content_type (rejected reason) p) s =
        (All-Pick (IsSound parsers) p s).1
    answer-IsSound {w} (delete_ends c key (resolved done) {rest} p) s =
        let left = (All-Pick (IsSound parsers) p s).1 in
        elim (Bool-cases (can_apply_mutation_result c.location w.view)) [
          | inl applies ↦ rw applies (
              All-append (IsSound parsers) (list_again c (record w.view { delete_target = "" })).1
                rest (again-IsSound c (record w.view { delete_target = "" })) left)
          | inr gone ↦ rw gone left
        ]
    answer-IsSound (delete_ends c key (rejected reason) p) s = (All-Pick (IsSound parsers) p s).1

    jobs-IsSound :
        (at : Location) {w : World} → Reach parsers Answers at w → All (IsSound parsers) w.jobs
    jobs-IsSound at here =
        All-append (IsSound parsers) (load_effect (initial at)).1 [] (effect-IsSound (initial at))
          tt
    jobs-IsSound at (next {w} r (happens event h)) =
        All-append (IsSound parsers) (react parsers event w.view).1 w.jobs
          (react-IsSound event w.view) (jobs-IsSound at r)
    jobs-IsSound at (next r (answered a)) = answer-IsSound a (jobs-IsSound at r)

-- Whatever the user does and the server answers, while the page of elements stays open at one location:
-- a request that creates an element is for a location that is not missing and carries a key that is not
-- blank and a content that is neither blank nor invalid for its type; one that deletes an element names
-- a key; and of these requests and the listings behind them exactly one is under way while the page is
-- submitting, and none otherwise.
pub Reach-IsSound :
    (parsers : Parsers) (Answers : Request → ElementsResponse → Type 0) (at : Location) (w : World)
    → Reach parsers Answers at w
    → All (IsSound parsers) w.jobs × (changes w.jobs ≡ one_if w.view.submitting)
Reach-IsSound parsers Answers at w r =
    (jobs-IsSound parsers Answers at r, (Reach-Inv Answers at parsers r).single)
