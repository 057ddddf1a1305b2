-- ===== src/Elements/Reactions.antt =====
-- Every event of the page of elements keeps its invariant.
use cassem.Base.{
  ℕ, ◌≡◌, refl, sym, ap, ◌∙◌, subst, inl, inr, ◌≢◌, true, false, not, ◌||◌, is_blank, trim, some,
  List, [], ◌∷◌, String, arith, Bool-cases, eq_iff, eq_refl,
}
use cassem.Content.Parsers.{Parsers}
use cassem.Elements.State.{
  create_job, delete_job, Location, is_missing, is_at, ElementsResponse, State, initial, Request,
  Job, closure_of, no_error,
}
use cassem.Content.Validation.{valid_result}
use cassem.Elements.Handlers.{
  is_load_key, load_effect, load_elements, first_page, handle_search_submit, handle_load_more,
  handle_clear_search, handle_page_size_change, close_create_dialog, close_delete_dialog,
  validate_later, handle_create, handle_delete, validation_of,
}
use cassem.Elements.World.{
  after, Event, renews, searches, loads_more, clears, opens_create, closes_create, closes_delete,
  validates, creates, deletes, types, types_key, types_raw, chooses_delete, picks_size, picks_type,
  enabled, react, start,
}
use cassem.Elements.Listed.{
  Current, one_if, changes_of, pending, changes, Inv, Current-Past, Current-Past_free,
}
use cassem.Elements.Loading.{load-Inv}
use text.Mathlib.Text.{◌==◌ as str_eq}

pub is_at_self : (at : Location) → is_at at at ≡ true
is_at_self at = rw (eq_refl at.app_id, eq_refl at.env)

-- What the invariant does not read: the form of the dialogs, the field of the search and the error.
abbrev pub core : State → State
core v = record v {
  error = no_error;
  query_input = "";
  create_open = false;
  delete_target = "";
  create_key = "";
  create_raw = "";
  create_content_type = 1;
  create_validation = valid_result;
}

module _ (Answers : Request → ElementsResponse → Type 0) (at : Location) where
  core-Inv :
      (v : State) (jobs : List Job)
      → Inv Answers at (record { view = v; jobs = jobs })
      → Inv Answers at (record { view = core v; jobs = jobs })
  core-Inv v jobs i = record {
    present = i.present;
    placed = i.placed;
    keyed = i.keyed;
    current = i.current;
    single = i.single;
    alone = i.alone;
    settles = i.settles;
    shown = i.shown;
    goes_on = i.goes_on;
  }

  Inv-core :
      (v : State) (jobs : List Job)
      → Inv Answers at (record { view = core v; jobs = jobs })
      → Inv Answers at (record { view = v; jobs = jobs })
  Inv-core v jobs i = record {
    present = i.present;
    placed = i.placed;
    keyed = i.keyed;
    current = i.current;
    single = i.single;
    alone = i.alone;
    settles = i.settles;
    shown = i.shown;
    goes_on = i.goes_on;
  }

  pub same-Inv :
      (v u : State) (jobs : List Job)
      → core u ≡ core v
      → Inv Answers at (record { view = v; jobs = jobs })
      → Inv Answers at (record { view = u; jobs = jobs })
  same-Inv v u jobs e i =
      Inv-core u jobs
        (subst (λ c. Inv Answers at (record { view = c; jobs = jobs })) (sym e) (core-Inv v jobs i))

  -- A change begins.
  begun-Inv :
      (v : State) (job : Job) (jobs : List Job)
      → Current Answers v job
      → changes_of job ≡ 1
      → pending v.request_seq (job ∷ jobs) ≡ pending v.request_seq jobs
      → v.submitting ≡ false
      → Inv Answers at (record { view = v; jobs = jobs })
      → Inv Answers at (record { view = record v { submitting = true }; jobs = job ∷ jobs })
  begun-Inv v job jobs c one p free i = record {
    present = i.present;
    placed = i.placed;
    keyed = i.keyed;
    current = (current_of, i.current);
    single = omega (arith, i.single, ap one_if free);
    alone = omega (arith, i.alone);
    settles = elim i.settles [ inl waits ↦ inl (p ∙ waits) | inr rests ↦ inr rests ];
    shown = i.shown;
    goes_on = i.goes_on;
  }
    where
      current_of : Current Answers (record v { submitting = true }) job
      current_of = c

  -- The listing of the first page for another search or page size, while no change is under way.
  anew-Inv :
      (v : State) (jobs : List Job) (query input : String) (size : ℕ)
      → v.submitting ≡ false
      → Inv Answers at (record { view = v; jobs = jobs })
      → Inv Answers at (
          after jobs (
            load_elements v.location query size "" false false
              (first_page (record v { query = query; query_input = input; page_size = size }))))
  anew-Inv v jobs query input size free i =
      let s : State =
        first_page (record v { query = query; query_input = input; page_size = size }) in
      let none : changes jobs ≡ 0 = omega (arith, i.single, ap one_if free) in
      load-Inv Answers at s "" false false jobs i.present i.placed i.keyed
        (Current-Past_free Answers v (closure_of s) jobs none i.current) (omega (arith, i.single))
        refl (λ h. cc) (λ h. cc)

  load_more-Inv :
      (v : State) (jobs : List Job)
      → Inv Answers at (record { view = v; jobs = jobs })
      → Inv Answers at (after jobs (handle_load_more v))
  unfolding handle_load_more
  load_more-Inv v jobs i =
      elim (Bool-cases (not v.has_more || str_eq v.next_seek "" || v.loading_more)) [
        | inl stops ↦ rw stops i
        | inr goes ↦
            let more : v.has_more ≡ true = ground arith in
            let given : v.next_seek ≢ "" = ground (arith, eq_iff v.next_seek "") in
            rw goes (
              load-Inv Answers at (record v { loading_more = true }) v.next_seek true false jobs
                i.present i.placed i.keyed (Current-Past Answers v jobs i.current)
                (omega (arith, i.single)) (refl, i.goes_on more given, given) i.shown i.goes_on)
      ]

  renews-Inv :
      (v : State) (jobs : List Job)
      → Inv Answers at (record { view = v; jobs = jobs })
      → Inv Answers at (after jobs (load_effect (record v { mounted = false })))
  unfolding load_effect
  renews-Inv v jobs i =
      let key : v.load_key ≡ some v.location = i.keyed ∙ ap some (sym i.placed) in
      let same : is_load_key v.load_key v.location ≡ true =
        ap (λ k. is_load_key k v.location) key ∙ is_at_self v.location in
      rw same (record {
        present = refl;
        placed = i.placed;
        keyed = i.keyed;
        current = i.current;
        single = i.single;
        alone = i.alone;
        settles = i.settles;
        shown = i.shown;
        goes_on = i.goes_on;
      })

  creates-Inv :
      (parsers : Parsers) (v : State) (jobs : List Job)
      → v.submitting ≡ false
      → Inv Answers at (record { view = v; jobs = jobs })
      → Inv Answers at (after jobs (handle_create parsers v))
  unfolding handle_create
  creates-Inv parsers v jobs free i =
      elim (Bool-cases
        (is_missing v.location || is_blank (trim v.create_key) || is_blank (trim v.create_raw))) [
          | inl blank ↦ rw blank i
          | inr given ↦ rw given (elim (Bool-cases (not (validation_of parsers v).valid)) [
            | inl invalid ↦ rw invalid (same-Inv v _ jobs refl i)
            | inr valid ↦ rw valid (
                same-Inv (record v { submitting = true }) _ _ refl
                  (begun-Inv v
                    (create_job (closure_of v) (trim v.create_key) v.create_raw
                      v.create_content_type)
                    jobs refl refl refl free i))
          ])
        ]

  deletes-Inv :
      (v : State) (jobs : List Job)
      → v.submitting ≡ false
      → Inv Answers at (record { view = v; jobs = jobs })
      → Inv Answers at (after jobs (handle_delete v))
  unfolding handle_delete
  deletes-Inv v jobs free i =
      elim (Bool-cases (is_missing v.location || str_eq v.delete_target "")) [
        | inl nothing ↦ rw nothing i
        | inr given ↦ rw given (
            same-Inv (record v { submitting = true }) _ _ refl
              (begun-Inv v (delete_job (closure_of v) v.delete_target) jobs refl refl refl free i))
      ]

  -- While a change is under way, no control can be used that would begin another one or change the
  -- search.
  pub react-Inv :
      (parsers : Parsers) (event : Event) (v : State) (jobs : List Job)
      → enabled event v ≡ true
      → Inv Answers at (record { view = v; jobs = jobs })
      → Inv Answers at (after jobs (react parsers event v))
  unfolding handle_search_submit handle_clear_search handle_page_size_change close_create_dialog
      close_delete_dialog validate_later enabled
  react-Inv parsers renews v jobs h i = renews-Inv v jobs i
  react-Inv parsers searches v jobs h i =
      anew-Inv v jobs (trim v.query_input) v.query_input v.page_size (ground arith) i
  react-Inv parsers loads_more v jobs h i = load_more-Inv v jobs i
  react-Inv parsers clears v jobs h i = anew-Inv v jobs "" "" v.page_size (ground arith) i
  react-Inv parsers (picks_size size) v jobs h i =
      anew-Inv v jobs v.query v.query_input size (ground arith) i
  react-Inv parsers creates v jobs h i = creates-Inv parsers v jobs (ground arith) i
  react-Inv parsers deletes v jobs h i = deletes-Inv v jobs (ground arith) i
  react-Inv parsers opens_create v jobs h i = same-Inv v _ jobs refl i
  react-Inv parsers closes_create v jobs h i = same-Inv v _ jobs (ground arith) i
  react-Inv parsers closes_delete v jobs h i = same-Inv v _ jobs (ground arith) i
  react-Inv parsers validates v jobs h i = same-Inv v _ jobs (ground arith) i
  react-Inv parsers (types text) v jobs h i = same-Inv v _ jobs refl i
  react-Inv parsers (types_key text) v jobs h i = same-Inv v _ jobs refl i
  react-Inv parsers (types_raw text) v jobs h i = same-Inv v _ jobs refl i
  react-Inv parsers (picks_type content_type) v jobs h i = same-Inv v _ jobs refl i
  react-Inv parsers (chooses_delete key) v jobs h i = same-Inv v _ jobs refl i

  pub start-Inv : (parsers : Parsers) → Inv Answers at (start parsers at)
  unfolding load_effect
  start-Inv parsers =
      load-Inv Answers at (record (initial at) { mounted = true; load_key = some at }) "" false
        false [] refl refl refl tt (omega arith) refl (λ h. cc) (λ h. cc)
