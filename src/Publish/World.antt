-- ===== src/Publish/World.antt =====
-- The publish wizard under any user and any server: clicks where a control is enabled and shown,
-- answers to the calls under way in any order, and leaving the page.
use cassem.Base.{ℕ, ◌≡◌, ◌⊎◌, Bool, true, false, Option, none, some, List, [], ◌∷◌, String}
use cassem.Base.Pick.{Pick}
use cassem.Domain.{Element}
use cassem.Effects.{Reply}
use cassem.Workflow.{VersionOption}
use cassem.Publish.State.{
  State, initial, Payload, Job, load_options_job, compare_job, publish_job, Turn,
}
use cassem.Publish.Handlers.{
  mount, handle_next, next_disabled, fields_disabled, handle_back, back_disabled, change_version,
  change_publish_mode, change_agent_ids, change_instance_ids,
}
use cassem.Publish.Settled.{LoadedOptions, options_settled, comparison_settled, publish_settled}

-- The component and the calls that it awaits.
pub record World : Type 0 where
  pub view : State
  pub jobs : List Job

abbrev pub queued : Option Job → List Job → List Job
queued none jobs = jobs
queued (some job) jobs = job ∷ jobs

-- A handler has run.
abbrev pub after : World → Turn → World
after w t = record { view = t.state; jobs = queued t.job w.jobs }

-- A call has ended, and its continuation has run.
abbrev pub finish : List Job → Turn → World
finish rest t = record { view = t.state; jobs = queued t.job rest }

abbrev pub show : World → State → World
show w s = record w { view = s }

-- The wizard after its first render.
abbrev pub start : Bool → World
start missing_params = after (record { view = initial; jobs = [] }) (mount missing_params initial)

module _ (missing_params : Bool) where
  pub data Step (w : World) : World → Type 0 where
    -- A render that renews `loadOptions`: the effect's clean-up, then the effect.
    renews :
        w.view.mounted ≡ true
        → Step w (after w (mount missing_params (record w.view { mounted = false })))
    leaves : Step w (show w (record w.view { mounted = false }))
    clicks_next :
        w.view.mounted ≡ true
        → next_disabled missing_params w.view ≡ false
        → Step w (after w (handle_next missing_params w.view))
    clicks_back :
        w.view.mounted ≡ true → back_disabled w.view ≡ false → Step w (after w (handle_back w.view))
    picks_version :
        (version : String)
        → w.view.mounted ≡ true
        → w.view.active_step ≡ 0
        → fields_disabled missing_params w.view ≡ false
        → w.view.options_loading ≡ false
        → Step w (show w (change_version version w.view))
    picks_mode :
        (mode : ℕ)
        → w.view.mounted ≡ true
        → w.view.active_step ≡ 1
        → (mode ≡ 1) ⊎ (mode ≡ 2)
        → Step w (show w (change_publish_mode mode w.view))
    picks_agents :
        (agent_ids : List String)
        → w.view.mounted ≡ true
        → w.view.active_step ≡ 2
        → w.view.publish_mode ≡ 1
        → fields_disabled missing_params w.view ≡ false
        → Step w (show w (change_agent_ids agent_ids w.view))
    picks_instances :
        (instance_ids : List String)
        → w.view.mounted ≡ true
        → w.view.active_step ≡ 2
        → w.view.publish_mode ≡ 1
        → fields_disabled missing_params w.view ≡ false
        → Step w (show w (change_instance_ids instance_ids w.view))
    options_arrive :
        {rest : List Job} (reply : Reply LoadedOptions)
        → Pick load_options_job w.jobs rest
        → Step w (finish rest (options_settled reply w.view))
    comparison_arrives :
        {rest : List Job} (target : VersionOption) (using : ℕ) (reply : Reply Element)
        → Pick (compare_job target using) w.jobs rest
        → Step w (finish rest (comparison_settled target using reply w.view))
    publish_ends :
        {rest : List Job} (payload : Payload) (reply : Reply (Unit {0}))
        → Pick (publish_job payload) w.jobs rest
        → Step w (finish rest (publish_settled payload reply w.view))

  -- What can come of a fresh wizard.
  pub data Reach : World → Type 0 where
    here : Reach (start missing_params)
    next : {w w' : World} → Reach w → Step w w' → Reach w'
