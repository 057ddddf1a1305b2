-- ===== src/Publish/Reviewed.antt =====
-- The invariant of the publish wizard: which calls are under way at which step, and what the user has
-- seen before the last step.
use cassem.Base.{
  ℕ, zero, suc, ◌≡◌, ◌⊎◌, true, false, Option, none, some, List, [], ◌∷◌, ◌==◌, if◌then◌else◌, All,
}
use cassem.Domain.{Element, is_number}
use cassem.Workflow.{VersionOption}
use cassem.Publish.State.{
  State, Job, load_options_job, compare_job, publish_job, selected_version, version_is_valid,
  parsed_version, gray_targets_are_valid, baseline, is_publish_version_disabled,
}

-- The left side of the diff is the version in use, or the empty baseline before the first one.
abbrev pub IsBase : Element → VersionOption → Option ℕ → Type 0
IsBase base target none = base ≡ baseline target.element
IsBase base target (some using) = is_number base.version using ≡ true

-- The diff on the screen compares the version in use with the selected one, which may be published.
pub record Reviewed (v : State) : Type 0 where
  pub target : VersionOption
  pub base : Element
  pub selected : selected_version v ≡ some target
  pub shown : v.diff_pair ≡ some (record { base = base; compare = target.element })
  pub loaded : v.diff_loaded ≡ true
  pub enabled : is_publish_version_disabled target v.using_version ≡ false
  pub compared : IsBase base target v.using_version
  pub labelled : v.current_version ≡ v.using_version

-- What has been settled before each step of the wizard.
abbrev pub Stage : ℕ → State → Type 0
Stage zero v = Unit
Stage (suc zero) v = version_is_valid v ≡ true
Stage (suc (suc zero)) v = version_is_valid v ≡ true
Stage (suc (suc (suc zero))) v = Reviewed v × (gray_targets_are_valid v ≡ true)
Stage (suc (suc (suc (suc zero)))) v = Reviewed v × (gray_targets_are_valid v ≡ true)
Stage (suc (suc (suc (suc (suc zero))))) v = Unit
Stage _ v = ⊥

-- The calls under way, against the flags and the step: never more than one.
abbrev pub InFlight : List Job → State → Type 0
InFlight [] v = (v.options_loading ≡ false) × (v.diff_loading ≡ false) × (v.submitting ≡ false)
InFlight (load_options_job ∷ []) v =
    (v.options_loading ≡ true)
    × (v.diff_loading ≡ false)
    × (v.submitting ≡ false)
    × (v.version_options ≡ [])
    × (v.active_step ≡ 0)
InFlight (compare_job target using ∷ []) v =
    (v.options_loading ≡ false)
    × (v.diff_loading ≡ true)
    × (v.submitting ≡ false)
    × (v.active_step ≡ 2)
    × (selected_version v ≡ some target)
    × (v.using_version ≡ some using)
    × (gray_targets_are_valid v ≡ true)
InFlight (publish_job payload ∷ []) v =
    (v.options_loading ≡ false)
    × (v.diff_loading ≡ false)
    × (v.submitting ≡ true)
    × (v.active_step ≡ 4)
    × (payload.version ≡ parsed_version v)
    × (payload.publish_mode ≡ v.publish_mode)
    × (payload.targets ≡ (if v.publish_mode == 1 then some (v.agent_ids, v.instance_ids) else none))
InFlight _ v = ⊥

-- A full publication has no explicit targets; there are two strategies.
abbrev pub HasMode : State → Type 0
HasMode v =
    (v.publish_mode ≡ 1) ⊎ ((v.publish_mode ≡ 2) × (v.agent_ids ≡ []) × (v.instance_ids ≡ []))

-- The element behind an option has the option's version.
abbrev pub IsNumbered : VersionOption → Type 0
IsNumbered option = is_number option.element.version option.version ≡ true

pub record Coherent (v : State) (jobs : List Job) : Type 0 where
  pub started : v.load_started ≡ true
  pub mode : HasMode v
  pub numbered : All IsNumbered v.version_options
  pub stage : Stage v.active_step v
  pub flight : InFlight jobs v
