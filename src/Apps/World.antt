-- ===== src/Apps/World.antt =====
-- The page of apps under any user and any server, while it stays mounted. The dialogs are modal: while
-- one is open, nothing behind it can be used.
use cassem.Base.{
  ℕ, ◌≡◌, Bool, true, false, not, ◌&&◌, ◌||◌, Option, none, some, List, [], ◌∷◌, ◌++◌, String, trim,
  is_empty,
}
use cassem.Base.Pick.{Pick}
use cassem.Effects.{Reply, resolved, rejected, Failure}
use cassem.Apps.{
  AppMetadata, AppsResponse, Params, State, initial, Job, apps_job, create_job, delete_job, Turn,
  load_effect, apps_settled, handle_search, handle_clear_search, handle_next_page,
  handle_previous_page, handle_page_size_change, close_create_dialog, close_delete_dialog,
  handle_create, create_settled, handle_delete, delete_settled,
}
use text.Mathlib.Text.{◌==◌ as str_eq}

pub record World : Type 0 where
  pub view : State
  pub jobs : List Job

-- A handler has run beside the calls that are left, and the effect behind the render that it causes.
abbrev pub rendered : List Job → Turn → World
rendered rest (s, sent) =
    let (t, more) = load_effect s in record { view = t; jobs = more ++ (sent ++ rest) }

pub data Event : Type 0 where
  searches clears goes_forth goes_back opens_create closes_create closes_delete creates deletes :
      Event
  types types_id types_description : String → Event
  picks_size : ℕ → Event
  chooses_delete : AppMetadata → Event

abbrev pub is_chosen : Option AppMetadata → Bool
is_chosen none = false
is_chosen (some target) = true

-- No dialog is open.
abbrev pub is_free : State → Bool
is_free s = not s.create_open && not (is_chosen s.delete_target)

-- Whether the control of an event can be used.
unfoldable pub enabled : Event → State → Bool
unfolding trim
enabled searches s = is_free s && not s.loading
enabled (types text) s = is_free s && not s.loading
enabled (picks_size size) s = is_free s && not s.loading
enabled clears s = is_free s && not s.loading && not (str_eq s.query "" && str_eq s.query_input "")
enabled goes_forth s = is_free s && not s.loading && s.has_more && not (str_eq s.next_seek "")
enabled goes_back s = is_free s && not s.loading && not (is_empty s.seek_stack)
enabled opens_create s = is_free s && not s.submitting
enabled (chooses_delete target) s = is_free s && not s.loading && not s.submitting
enabled (types_id text) s = s.create_open && not s.submitting
enabled (types_description text) s = s.create_open && not s.submitting
enabled creates s =
    s.create_open
    && not (s.submitting || str_eq (trim s.app_id) "" || str_eq (trim s.description) "")
enabled deletes s = is_chosen s.delete_target && not s.submitting
enabled closes_create s = s.create_open
enabled closes_delete s = is_chosen s.delete_target && not s.submitting

abbrev pub react : Event → State → Turn
react searches s = (handle_search s, [])
react clears s = (handle_clear_search s, [])
react goes_forth s = (handle_next_page s, [])
react goes_back s = (handle_previous_page s, [])
react (types text) s = (record s { query_input = text }, [])
react (picks_size size) s = (handle_page_size_change size s, [])
react opens_create s = (record s { create_open = true }, [])
react closes_create s = (close_create_dialog s, [])
react closes_delete s = (close_delete_dialog s, [])
react (chooses_delete target) s = (record s { delete_target = some target }, [])
react (types_id text) s = (record s { app_id = text }, [])
react (types_description text) s = (record s { description = text }, [])
react creates s = handle_create s
react deletes s = handle_delete s

-- What the server may answer to a listing, which changes with its apps. A run has the numbers of the
-- listings that have failed in it.
module _ (Answers : Params → AppsResponse → Type 0) where
  pub data Step (w : World) : List ℕ → World → Type 0 where
    happens :
        (event : Event)
        → enabled event w.view ≡ true
        → Step w [] (rendered w.jobs (react event w.view))
    arrives :
        (id : ℕ) (asked : Params) (awaited : Bool) (found : AppsResponse) {rest : List Job}
        → Pick (apps_job id asked awaited) w.jobs rest
        → Answers asked found
        → Step w [] (rendered rest (apps_settled id awaited (resolved found) w.view, []))
    fails :
        (id : ℕ) (asked : Params) (awaited : Bool) (reason : Failure) {rest : List Job}
        → Pick (apps_job id asked awaited) w.jobs rest
        → Step w (id ∷ []) (rendered rest (apps_settled id awaited (rejected reason) w.view, []))
    create_ends :
        (asked : Params) (id description : String) (reply : Reply (Unit {0})) {rest : List Job}
        → Pick (create_job asked id description) w.jobs rest
        → Step w [] (rendered rest (create_settled asked reply w.view))
    delete_ends :
        (asked : Params) (id : String) (reply : Reply (Unit {0})) {rest : List Job}
        → Pick (delete_job asked id) w.jobs rest
        → Step w [] (rendered rest (delete_settled asked reply w.view))

  pub data Reach : List ℕ → World → Type 0 where
    here : Reach [] (rendered [] (initial, []))
    next :
        {failed more : List ℕ} {w w' : World}
        → Reach failed w
        → Step w more w'
        → Reach (more ++ failed) w'
