-- ===== src/Apps/Reactions.antt =====
-- What the user does keeps the invariant of the page of apps.
use cassem.Base.{
  ℕ, List, ◌≡◌, refl, ap, inl, inr, true, false, ◌||◌, Option, some, none, ◌++◌, arith, Bool-cases,
  trim,
}
use cassem.Effects.{verbatim}
use cassem.Apps.{
  Params, params_of, create_job, delete_job, AppsResponse, AppMetadata, delete_of, handle_search,
  handle_clear_search, handle_next_page, handle_previous_page, handle_page_size_change,
  close_create_dialog, close_delete_dialog, handle_create, handle_delete,
}
use cassem.Apps.World.{
  World, Event, searches, clears, goes_forth, goes_back, opens_create, closes_create, closes_delete,
  creates, deletes, types, types_id, types_description, picks_size, chooses_delete, is_chosen,
  enabled, react, rendered,
}
use cassem.Apps.Held.{Inv, Ready, free-Listing, rendered-Inv}
use text.Mathlib.Text.{◌==◌ as str_eq}
use cassem.Apps.Ready.{turned-Untouched, kept-Ready, listed-Ready, unlocked, sent-Ready}

module _ (Answers : Params → AppsResponse → Type 0) (failed : List ℕ) where
  -- The dialog of a change is open, and it is not locked.
  creates-Ready :
      (w : World)
      → w.view.create_open ≡ true
      → w.view.submitting ≡ false
      → Inv Answers failed w
      → Ready Answers failed
          (params_of w.view)
          (handle_create w.view).0
          ((handle_create w.view).1 ++ w.jobs)
  unfolding handle_create
  creates-Ready w opened free i =
      elim (Bool-cases (str_eq (trim w.view.app_id) "" || str_eq (trim w.view.description) "")) [
        | inl missing ↦
            rw missing
              (kept-Ready Answers failed w w.view (refl, refl, refl, refl) refl (λ h. h) (λ h. h) i)
        | inr given ↦ rw given (
            sent-Ready Answers failed w (record w.view { submitting = true; error = verbatim "" })
              (create_job (params_of w.view) (trim w.view.app_id) (trim w.view.description))
              (refl, refl, refl, free) refl refl (refl, opened) refl refl
              (unlocked Answers failed w free i) i)
      ]

  deletes-Ready :
      (w : World) (target : Option AppMetadata)
      → w.view.delete_target ≡ target
      → w.view.submitting ≡ false
      → Inv Answers failed w
      → Ready Answers failed
          (params_of w.view)
          (delete_of target w.view).0
          ((delete_of target w.view).1 ++ w.jobs)
  deletes-Ready w none chosen free i =
      kept-Ready Answers failed w w.view (refl, refl, refl, refl) refl (λ h. h) (λ h. h) i
  deletes-Ready w (some target) chosen free i = elim (Bool-cases (str_eq target.id "")) [
    | inl missing ↦
        rw missing
          (kept-Ready Answers failed w w.view (refl, refl, refl, refl) refl (λ h. h) (λ h. h) i)
    | inr given ↦ rw given (
        sent-Ready Answers failed w (record w.view { submitting = true; error = verbatim "" })
          (delete_job (params_of w.view) target.id) (refl, refl, refl, free) refl refl
          (refl, ap is_chosen chosen) refl refl (unlocked Answers failed w free i) i)
  ]

  closes_create-Ready :
      (w : World)
      → Inv Answers failed w
      → Ready Answers failed (params_of w.view) (close_create_dialog w.view) w.jobs
  unfolding close_create_dialog
  closes_create-Ready w i = elim (Bool-cases w.view.submitting) [
    | inl busy ↦ rw busy (
        kept-Ready Answers failed w (record w.view { submitting = true }) (refl, refl, refl, busy)
          refl (λ h. h) (λ h. h) i)
    | inr free ↦ rw free (
        listed-Ready Answers failed w
          (record w.view { submitting = false; create_open = false; app_id = ""; description = "" })
          (refl, refl, refl, free) (unlocked Answers failed w free i) i)
  ]

  closes_delete-Ready :
      (w : World)
      → Inv Answers failed w
      → Ready Answers failed (params_of w.view) (close_delete_dialog w.view) w.jobs
  unfolding close_delete_dialog
  closes_delete-Ready w i = elim (Bool-cases w.view.submitting) [
    | inl busy ↦ rw busy (
        kept-Ready Answers failed w (record w.view { submitting = true }) (refl, refl, refl, busy)
          refl (λ h. h) (λ h. h) i)
    | inr free ↦ rw free (
        listed-Ready Answers failed w (record w.view { submitting = false; delete_target = none })
          (refl, refl, refl, free) (unlocked Answers failed w free i) i)
  ]

  react-Ready :
      (event : Event) (w : World)
      → enabled event w.view ≡ true
      → Inv Answers failed w
      → Ready Answers failed
          (params_of w.view)
          (react event w.view).0
          ((react event w.view).1 ++ w.jobs)
  unfolding enabled handle_search handle_clear_search handle_page_size_change handle_delete
  react-Ready searches w on i =
      listed-Ready Answers failed w (handle_search w.view) (refl, refl, refl, refl)
        (free-Listing w.view w.jobs (ground arith) i.current) i
  react-Ready clears w on i =
      listed-Ready Answers failed w (handle_clear_search w.view) (refl, refl, refl, refl)
        (free-Listing w.view w.jobs (ground arith) i.current) i
  react-Ready goes_forth w on i =
      listed-Ready Answers failed w (handle_next_page w.view)
        (turned-Untouched goes_forth w.view (inl refl))
        (free-Listing w.view w.jobs (ground arith) i.current) i
  react-Ready goes_back w on i =
      listed-Ready Answers failed w (handle_previous_page w.view)
        (turned-Untouched goes_back w.view (inr refl))
        (free-Listing w.view w.jobs (ground arith) i.current) i
  react-Ready (picks_size size) w on i =
      listed-Ready Answers failed w (handle_page_size_change size w.view) (refl, refl, refl, refl)
        (free-Listing w.view w.jobs (ground arith) i.current) i
  react-Ready (types text) w on i =
      kept-Ready Answers failed w (react (types text) w.view).0 (refl, refl, refl, refl) refl
        (λ h. h) (λ h. h) i
  react-Ready (types_id text) w on i =
      kept-Ready Answers failed w (react (types_id text) w.view).0 (refl, refl, refl, refl) refl
        (λ h. h) (λ h. h) i
  react-Ready (types_description text) w on i =
      kept-Ready Answers failed w (react (types_description text) w.view).0 (refl, refl, refl, refl)
        refl (λ h. h) (λ h. h) i
  react-Ready opens_create w on i =
      kept-Ready Answers failed w (react opens_create w.view).0 (refl, refl, refl, refl) refl
        (λ h. refl) (λ h. h) i
  react-Ready (chooses_delete target) w on i =
      kept-Ready Answers failed w (react (chooses_delete target) w.view).0 (refl, refl, refl, refl)
        refl (λ h. h) (λ h. refl) i
  react-Ready closes_create w on i = closes_create-Ready w i
  react-Ready closes_delete w on i = closes_delete-Ready w i
  react-Ready creates w on i = creates-Ready w (ground arith) (ground arith) i
  react-Ready deletes w on i = deletes-Ready w w.view.delete_target refl (ground arith) i

  pub react-Inv :
      (event : Event) (w : World)
      → enabled event w.view ≡ true
      → Inv Answers failed w
      → Inv Answers failed (rendered w.jobs (react event w.view))
  react-Inv event w on i =
      rendered-Inv Answers failed (params_of w.view) (react event w.view).0 (react event w.view).1
        w.jobs (react-Ready event w on i)
