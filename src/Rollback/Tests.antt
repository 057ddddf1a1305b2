-- ===== src/Rollback/Tests.antt =====
-- Runs of the rollback wizard, and its theorems at concrete inputs.
use cassem.Base.{ℕ, ◌≡◌, refl, Bool, true, false, none, some, List, [], ◌∷◌}
use cassem.Base.Pick.{first}
use cassem.Domain.{nat, Element}
use cassem.Effects.{Reply, resolved}
use cassem.Workflow.{VersionOption, to_version_options, get_using_version}
use cassem.Rollback.State.{compare_job, selected_version, is_rollback_version_disabled}
use cassem.Rollback.Handlers.{
  options_settled, comparison_settled, rollback_settled, mount, handle_next, next_disabled,
  fields_disabled, handle_back, back_disabled, change_version,
}
use cassem.Rollback.World.{
  World, after, finish, show, start, Reach, here, next, clicks_next, picks_version, options_arrive,
  comparison_arrives,
}
use cassem.Rollback.Events.{IsSound, rollback_job-IsSound, compare_job-current}
use cassem.Domain.{absent}

wizard : Unit {0}
unfolding mount handle_next next_disabled options_settled change_version fields_disabled
    is_rollback_version_disabled to_version_options get_using_version comparison_settled
    rollback_settled handle_back back_disabled
wizard = tt

abbrev element_of : ℕ → Bool → Element
element_of version published = record {
  metadata = record {
    key = "db.json";
    latest_version = some (nat 3);
    using_version = some (nat 3);
    unpublished_version = none;
    content_type = absent;
  };
  raw = some "e30=";
  version = some (nat version);
  published = published;
}

-- The version in use is not among the first hundred.
abbrev loaded : Reply (List Element)
loaded = resolved (element_of 1 true ∷ element_of 2 true ∷ [])

abbrev with_options : World
with_options = finish [] (options_settled loaded (start false).view)

abbrev with_version : World
with_version = show with_options (change_version "1" with_options.view)

abbrev click : World → World
click w = after w (handle_next false w.view)

abbrev comparing : World
comparing = click with_version

abbrev target : VersionOption
target = record { value = "1"; version = 1; published = true; element = element_of 1 true }

abbrev compared : World
compared = finish [] (comparison_settled target 3 1 (resolved (element_of 3 true)) comparing.view)

abbrev submitted : World
submitted = click (click compared)

compares : comparing.jobs ≡ compare_job target 3 1 ∷ []
unfolding wizard
compares = refl

Reach-comparing : Reach false comparing
unfolding wizard
Reach-comparing =
    next (next (next here (options_arrive loaded first)) (picks_version "1" refl refl refl))
      (clicks_next refl refl)

Reach-submitted : Reach false submitted
unfolding wizard
Reach-submitted =
    next
      (next
        (next Reach-comparing (comparison_arrives target 3 1 (resolved (element_of 3 true)) first))
        (clicks_next refl refl))
      (clicks_next refl refl)

rolls_back : (rollback_settled (some 1) (resolved tt) submitted.view).state.active_step ≡ 3
unfolding wizard
rolls_back = refl

-- A version that is not older than the one in use is refused.
refuses_newer :
    next_disabled false (change_version "2" (record with_options.view { using_version = some 2 }))
    ≡ true
unfolding wizard
refuses_newer = refl

rollback_job-IsSound_example : IsSound submitted.view (some 1) []
unfolding wizard
rollback_job-IsSound_example =
    rollback_job-IsSound false submitted (some 1) [] Reach-submitted refl first

compare_job-current_example :
    (comparing.view.diff_request_seq ≡ 1)
    × (comparing.view.using_version ≡ some 3)
    × (selected_version comparing.view ≡ some target)
unfolding wizard
compare_job-current_example =
    compare_job-current false comparing target 3 1 [] Reach-comparing refl first
