-- ===== src/Rollback/World.antt =====
-- The rollback wizard under any user and any server: clicks where a control is enabled and shown,
-- answers to the calls under way in any order, and leaving the page.
use cassem.Base.{ℕ, ◌≡◌, Bool, true, false, Option, none, some, List, [], ◌∷◌, String}
use cassem.Base.Pick.{Pick}
use cassem.Domain.{Element}
use cassem.Effects.{Reply}
use cassem.Workflow.{VersionOption}
use cassem.Rollback.State.{State, initial, Job, load_options_job, compare_job, rollback_job, Turn}
use cassem.Rollback.Handlers.{
  options_settled, comparison_settled, rollback_settled, mount, handle_next, next_disabled,
  fields_disabled, handle_back, back_disabled, change_version,
}

-- The component and the calls that it awaits.
pub record World : Type 0 where
  pub view : State
  pub jobs : List Job

abbrev pub queued : Option Job → List Job → List Job
queued none jobs = jobs
queued (some job) jobs = job ∷ jobs

-- A handler has run.
abbrev pub after : World → Turn → World
after w t = record { view = t.state; jobs = queued t.job w.jobs }

-- A call has ended, and its continuation has run.
abbrev pub finish : List Job → Turn → World
finish rest t = record { view = t.state; jobs = queued t.job rest }

abbrev pub show : World → State → World
show w s = record w { view = s }

-- The wizard after its first render.
abbrev pub start : Bool → World
start missing_params = after (record { view = initial; jobs = [] }) (mount missing_params initial)

module _ (missing_params : Bool) where
  pub data Step (w : World) : World → Type 0 where
    -- A render that renews `loadOptions`: the effect's clean-up, then the effect.
    renews :
        w.view.mounted ≡ true
        → Step w (after w (mount missing_params (record w.view { mounted = false })))
    leaves : Step w (show w (record w.view { mounted = false }))
    clicks_next :
        w.view.mounted ≡ true
        → next_disabled missing_params w.view ≡ false
        → Step w (after w (handle_next missing_params w.view))
    clicks_back :
        w.view.mounted ≡ true → back_disabled w.view ≡ false → Step w (after w (handle_back w.view))
    picks_version :
        (version : String)
        → w.view.mounted ≡ true
        → w.view.active_step ≡ 0
        → fields_disabled missing_params w.view ≡ false
        → Step w (show w (change_version version w.view))
    options_arrive :
        {rest : List Job} (reply : Reply (List Element))
        → Pick load_options_job w.jobs rest
        → Step w (finish rest (options_settled reply w.view))
    comparison_arrives :
        {rest : List Job} (target : VersionOption) (using request_id : ℕ) (reply : Reply Element)
        → Pick (compare_job target using request_id) w.jobs rest
        → Step w (finish rest (comparison_settled target using request_id reply w.view))
    rollback_ends :
        {rest : List Job} (version : Option ℕ) (reply : Reply (Unit {0}))
        → Pick (rollback_job version) w.jobs rest
        → Step w (finish rest (rollback_settled version reply w.view))

  -- What can come of a fresh wizard.
  pub data Reach : World → Type 0 where
    here : Reach (start missing_params)
    next : {w w' : World} → Reach w → Step w w' → Reach w'
