-- ===== src/Detail/World.antt =====
-- The page of one element under any user and any server, while it stays mounted: events whose control
-- can be used, other locations, and answers to the calls under way in any order.
use cassem.Base.{
  ℕ, ◌==◌, ◌≡◌, Bool, true, false, not, ◌&&◌, ◌||◌, Option, none, some, List, [], ◌++◌, String,
  is_blank, trim,
}
use cassem.Base.Pick.{Pick}
use cassem.Domain.{Number, Element}
use cassem.Effects.{Reply, resolved, rejected, Failure}
use cassem.Content.Parsers.{Parsers}
use cassem.Detail.State.{
  Location, RetentionPolicy, State, initial, Job, page_job, retention_job, submit_job, put_job,
  get_job, publish_job, Turn, idle,
}
use cassem.Detail.Handlers.{
  close_new_version_dialog, validate_later, handle_open_new_version, handle_submit_new_version,
  handle_publish_directly, submit_settled, put_settled, get_settled, publish_settled,
  handle_load_diff,
}
use cassem.Detail.Loading.{Loaded, load_effect, page_settled, retention_settled}

pub record World : Type 0 where
  pub view : State
  pub jobs : List Job

-- A handler has run beside the calls that are left.
abbrev pub after : List Job → Turn → World
after rest t = record { view = t.state; jobs = t.jobs ++ rest }

pub data Event : Type 0 where
  renews opens_new_version closes_new_version submits opens_confirm closes_confirm confirms
        shows_diff closes_preview validates :
      Event
  moves : Location → Event
  types_raw picks_base picks_compare : String → Event
  picks_tab : ℕ → Event
  previews : Element → Event

-- Whether there is a page to show.
abbrev pub is_shown : State → Bool
is_shown s = elim s.element [ none ↦ false | some element ↦ not s.loading ]

-- Whether the control of an event can be used.
unfoldable pub enabled : Event → State → Bool
unfolding trim
enabled submits s = s.new_version_open && not (s.saving || not s.edit_validation.valid)
enabled opens_confirm s = s.new_version_open && not (s.saving || not s.edit_validation.valid)
enabled confirms s = s.publish_direct_confirm_open && not s.saving
enabled closes_confirm s = s.publish_direct_confirm_open && not s.saving
enabled closes_new_version s = s.new_version_open
enabled (types_raw text) s = s.new_version_open && not s.saving
enabled validates s = s.new_version_open
enabled shows_diff s =
    is_shown s && s.tab == 1 && not (is_blank (trim s.diff_base) || is_blank (trim s.diff_compare))
enabled (picks_base version) s = is_shown s && s.tab == 1
enabled (picks_compare version) s = is_shown s && s.tab == 1
enabled (picks_tab tab) s = is_shown s
enabled (previews version) s = is_shown s && s.tab == 0
enabled closes_preview s = true
enabled opens_new_version s = true
enabled (moves at) s = true
enabled renews s = true

-- The render at another location, behind the clean-up of the effect.
unfoldable pub move : Location → State → Turn
unfolding load_effect
move at s = load_effect (record s { mounted = false; location = at })

module _ (parsers : Parsers) (decode : String → Option String) where
  -- The handler of an event. A render that renews `loadPage` runs the effect again.
  abbrev pub react : Event → State → Turn
  react renews s = load_effect (record s { mounted = false })
  react (moves at) s = move at s
  react submits s = handle_submit_new_version parsers s
  react confirms s = handle_publish_directly parsers s
  react opens_new_version s = idle (handle_open_new_version parsers s)
  react closes_new_version s = idle (close_new_version_dialog s)
  react validates s = idle (validate_later parsers s)
  react shows_diff s = idle (handle_load_diff parsers.number_of s)
  react opens_confirm s = idle (record s { publish_direct_confirm_open = true })
  react closes_confirm s = idle (record s { publish_direct_confirm_open = false })
  react closes_preview s = idle (record s { preview_version = none })
  react (types_raw text) s = idle (record s { edit_raw = text })
  react (picks_base version) s = idle (record s { diff_base = version })
  react (picks_compare version) s = idle (record s { diff_compare = version })
  react (picks_tab tab) s = idle (record s { tab = tab })
  react (previews version) s = idle (record s { preview_version = some version })

  -- The page after its first render.
  abbrev pub start : Location → World
  start at = after [] (load_effect (initial at))

  -- What the server may answer for a page, which changes with its elements.
  module _ (Answers : Location → Loaded → Type 0) where
    pub data Step (w : World) : World → Type 0 where
      happens :
          (event : Event) → enabled event w.view ≡ true → Step w (after w.jobs (react event w.view))
      page_arrives :
          (id : ℕ) (at : Location) (awaited : Bool) (loaded : Loaded) {rest : List Job}
          → Pick (page_job id at awaited) w.jobs rest
          → Answers at loaded
          → Step w (after rest (page_settled decode id awaited (resolved loaded) w.view))
      page_fails :
          (id : ℕ) (at : Location) (awaited : Bool) (reason : Failure) {rest : List Job}
          → Pick (page_job id at awaited) w.jobs rest
          → Step w (after rest (page_settled decode id awaited (rejected reason) w.view))
      retention_ends :
          (id : ℕ) (reply : Reply RetentionPolicy) {rest : List Job}
          → Pick (retention_job id) w.jobs rest
          → Step w (after rest (idle (retention_settled id reply w.view)))
      submit_ends :
          (at : Location) (raw : String) (reply : Reply (Unit {0})) {rest : List Job}
          → Pick (submit_job at raw) w.jobs rest
          → Step w (after rest (submit_settled at reply w.view))
      put_ends :
          (at : Location) (raw : String) (previous : Option Number) (reply : Reply (Unit {0}))
          {rest : List Job}
          → Pick (put_job at raw previous) w.jobs rest
          → Step w (after rest (put_settled at previous reply w.view))
      get_ends :
          (at : Location) (previous : Option Number) (reply : Reply Element) {rest : List Job}
          → Pick (get_job at previous) w.jobs rest
          → Step w (after rest (get_settled at previous reply w.view))
      publish_ends :
          (at : Location) (version : Number) (reply : Reply (Unit {0})) {rest : List Job}
          → Pick (publish_job at version) w.jobs rest
          → Step w (after rest (publish_settled at version reply w.view))

    -- What can come of a page that opens at this location.
    pub data Reach (at : Location) : World → Type 0 where
      here : Reach at (start at)
      next : {w w' : World} → Reach at w → Step w w' → Reach at w'
