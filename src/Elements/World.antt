-- ===== src/Elements/World.antt =====
-- The page of elements under any user and any server, while it stays open at one location: events
-- whose control can be used, and answers to the calls under way in any order.
use cassem.Base.{
  ℕ, ◌≡◌, Bool, true, false, not, ◌&&◌, ◌||◌, List, [], ◌++◌, String, is_empty, is_blank, trim,
}
use cassem.Base.Pick.{Pick}
use cassem.Effects.{Reply, resolved, rejected, Failure}
use cassem.Content.Parsers.{Parsers}
use cassem.Elements.State.{
  Location, is_missing, ElementsResponse, State, initial, Request, Closure, Job, elements_job,
  create_job, delete_job, Turn, idle,
}
use cassem.Elements.Handlers.{
  load_effect, elements_settled, handle_search_submit, handle_load_more, handle_clear_search,
  handle_page_size_change, close_create_dialog, close_delete_dialog, validate_later, handle_create,
  create_settled, handle_delete, delete_settled,
}
use text.Mathlib.Text.{◌==◌ as str_eq}

pub record World : Type 0 where
  pub view : State
  pub jobs : List Job

-- A handler has run beside the calls that are left.
abbrev pub after : List Job → Turn → World
after rest (s, sent) = record { view = s; jobs = sent ++ rest }

pub data Event : Type 0 where
  renews searches loads_more clears opens_create closes_create closes_delete validates creates
        deletes :
      Event
  types types_key types_raw chooses_delete : String → Event
  picks_size picks_type : ℕ → Event

-- What disables the fields of the search.
abbrev pub fields_disabled : State → Bool
fields_disabled s = s.loading || s.loading_more || s.submitting || is_missing s.location

-- Whether the control of an event can be used.
unfoldable pub enabled : Event → State → Bool
unfolding trim
enabled searches s = not (fields_disabled s)
enabled (types text) s = not (fields_disabled s)
enabled (picks_size size) s = not (fields_disabled s)
enabled clears s =
    not
      (s.loading || s.loading_more || s.submitting || str_eq s.query "" && str_eq s.query_input "")
enabled loads_more s =
    not s.loading && not (is_empty s.elements) && s.has_more && not (s.loading_more || s.submitting)
enabled opens_create s = not (is_missing s.location || s.submitting)
enabled (chooses_delete key) s = not s.loading && not s.submitting
enabled creates s =
    s.create_open
    && not (
        s.submitting
        || is_blank (trim s.create_key)
        || is_blank (trim s.create_raw)
        || not s.create_validation.valid)
enabled deletes s = not (str_eq s.delete_target "") && not s.submitting
enabled (types_key text) s = s.create_open && not s.submitting
enabled (types_raw text) s = s.create_open && not s.submitting
enabled (picks_type content_type) s = s.create_open && not s.submitting
enabled closes_create s = s.create_open
enabled closes_delete s = true
enabled validates s = s.create_open
enabled renews s = true

-- What the server may answer to a listing, which changes with its elements.
module _ (Answers : Request → ElementsResponse → Type 0) where
  -- A call ends, and its continuation runs.
  pub data Answer (w : World) : World → Type 0 where
    elements_arrive :
        (id : ℕ) (asked : Request) (append awaited : Bool) (found : ElementsResponse)
        {rest : List Job}
        → Pick (elements_job id asked append awaited) w.jobs rest
        → Answers asked found
        → Answer w (after rest (idle (elements_settled id append awaited (resolved found) w.view)))
    elements_fail :
        (id : ℕ) (asked : Request) (append awaited : Bool) (reason : Failure) {rest : List Job}
        → Pick (elements_job id asked append awaited) w.jobs rest
        → Answer w (after rest (idle (elements_settled id append awaited (rejected reason) w.view)))
    create_ends :
        (c : Closure) (key raw : String) (content_type : ℕ) (reply : Reply (Unit {0}))
        {rest : List Job}
        → Pick (create_job c key raw content_type) w.jobs rest
        → Answer w (after rest (create_settled c reply w.view))
    delete_ends :
        (c : Closure) (key : String) (reply : Reply (Unit {0})) {rest : List Job}
        → Pick (delete_job c key) w.jobs rest
        → Answer w (after rest (delete_settled c reply w.view))

module _ (parsers : Parsers) where
  -- The handler of an event. A render that renews `loadElements` runs the effect again.
  abbrev pub react : Event → State → Turn
  react renews s = load_effect (record s { mounted = false })
  react searches s = handle_search_submit s
  react loads_more s = handle_load_more s
  react clears s = handle_clear_search s
  react (picks_size size) s = handle_page_size_change size s
  react creates s = handle_create parsers s
  react deletes s = handle_delete s
  react opens_create s = idle (record s { create_open = true })
  react closes_create s = idle (close_create_dialog s)
  react closes_delete s = idle (close_delete_dialog s)
  react validates s = idle (validate_later parsers s)
  react (types text) s = idle (record s { query_input = text })
  react (types_key text) s = idle (record s { create_key = text })
  react (types_raw text) s = idle (record s { create_raw = text })
  react (picks_type content_type) s = idle (record s { create_content_type = content_type })
  react (chooses_delete key) s = idle (record s { delete_target = key })

  -- The page after its first render.
  abbrev pub start : Location → World
  start at = after [] (load_effect (initial at))

  module _ (Answers : Request → ElementsResponse → Type 0) where
    pub data Step (w : World) : World → Type 0 where
      happens :
          (event : Event) → enabled event w.view ≡ true → Step w (after w.jobs (react event w.view))
      answered : {w' : World} → Answer Answers w w' → Step w w'

    -- What can come of a page that opens at this location.
    pub data Reach (at : Location) : World → Type 0 where
      here : Reach at (start at)
      next : {w w' : World} → Reach at w → Step w w' → Reach at w'
