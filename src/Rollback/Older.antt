-- ===== src/Rollback/Older.antt =====
-- The invariant of the rollback wizard: which calls are under way at which step, and what the user has
-- seen before the last step.
use cassem.Base.{ℕ, zero, suc, ◌≡◌, ◌<◌, true, false, some, List, [], ◌∷◌, All}
use cassem.Domain.{Element, is_number}
use cassem.Workflow.{VersionOption}
use cassem.Rollback.State.{
  State, Job, load_options_job, compare_job, rollback_job, selected_version, version_is_valid,
  parsed_version,
}

-- The diff on the screen compares the version in use with an older published one, which is selected.
pub record Reviewed (v : State) : Type 0 where
  pub target : VersionOption
  pub base : Element
  pub using : ℕ
  pub selected : selected_version v ≡ some target
  pub in_use : v.using_version ≡ some using
  pub shown : v.diff_pair ≡ some (record { base = base; compare = target.element })
  pub loaded : v.diff_loaded ≡ true
  pub published : target.published ≡ true
  pub older : target.version < using
  pub compared : is_number base.version using ≡ true
  pub labelled : v.current_version ≡ some using

-- What has been settled before each step of the wizard.
abbrev pub Stage : ℕ → State → Type 0
Stage zero v = Unit
Stage (suc zero) v = Reviewed v
Stage (suc (suc zero)) v = Reviewed v
Stage (suc (suc (suc zero))) v = Unit
Stage _ v = ⊥

-- The calls under way, against the flags and the step: never more than one.
abbrev pub InFlight : List Job → State → Type 0
InFlight [] v = (v.options_loading ≡ false) × (v.diff_loading ≡ false) × (v.submitting ≡ false)
InFlight (load_options_job ∷ []) v =
    (v.options_loading ≡ true)
    × (v.diff_loading ≡ false)
    × (v.submitting ≡ false)
    × (v.version_options ≡ [])
    × (v.active_step ≡ 0)
InFlight (compare_job target using request_id ∷ []) v =
    (v.options_loading ≡ false)
    × (v.diff_loading ≡ true)
    × (v.submitting ≡ false)
    × (v.active_step ≡ 0)
    × (selected_version v ≡ some target)
    × (v.using_version ≡ some using)
    × (version_is_valid v ≡ true)
    × (v.diff_request_seq ≡ request_id)
InFlight (rollback_job version ∷ []) v =
    (v.options_loading ≡ false)
    × (v.diff_loading ≡ false)
    × (v.submitting ≡ true)
    × (v.active_step ≡ 2)
    × (version ≡ parsed_version v)
InFlight _ v = ⊥

-- The element behind an option has the option's version.
abbrev pub IsNumbered : VersionOption → Type 0
IsNumbered option = is_number option.element.version option.version ≡ true

pub record Coherent (v : State) (jobs : List Job) : Type 0 where
  pub started : v.load_started ≡ true
  pub numbered : All IsNumbered v.version_options
  pub stage : Stage v.active_step v
  pub flight : InFlight jobs v
