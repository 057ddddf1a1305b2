-- ===== src/Publish/Tests.antt =====
-- Runs of the publish wizard, and its theorems at concrete inputs.
use cassem.Base.{ℕ, ◌≡◌, refl, Bool, true, false, none, some, [], ◌∷◌}
use cassem.Base.Pick.{first}
use cassem.Domain.{nat, Element}
use cassem.Effects.{Reply, resolved}
use cassem.Workflow.{to_version_options, get_using_version, id_options}
use cassem.Publish.State.{Payload, publish_job, is_publish_version_disabled}
use cassem.Publish.Handlers.{
  mount, handle_next, next_disabled, fields_disabled, handle_back, back_disabled, change_version,
  change_publish_mode, change_agent_ids, change_instance_ids,
}
use cassem.Publish.Settled.{LoadedOptions, options_settled, comparison_settled, publish_settled}
use cassem.Publish.World.{
  World, after, finish, show, start, Reach, here, next, clicks_next, picks_version, options_arrive,
}
use cassem.Publish.Reviewed.{Coherent}
use cassem.Publish.Events.{IsSound, publish_job-IsSound, Reach-Coherent}
use cassem.Domain.{absent}

wizard : Unit {0}
unfolding mount handle_next next_disabled options_settled change_version fields_disabled
    is_publish_version_disabled to_version_options get_using_version id_options comparison_settled
    publish_settled handle_back back_disabled change_publish_mode change_agent_ids
    change_instance_ids
wizard = tt

abbrev element_of : ℕ → Bool → Element
element_of version published = record {
  metadata = record {
    key = "db.json";
    latest_version = some (nat 2);
    using_version = some (nat 1);
    unpublished_version = some (nat 2);
    content_type = absent;
  };
  raw = some "e30=";
  version = some (nat version);
  published = published;
}

abbrev loaded : Reply LoadedOptions
loaded = resolved (record {
  versions = element_of 1 true ∷ element_of 2 false ∷ [];
  agent_ids = some "agent-1" ∷ none ∷ [];
  client_ids = [];
})

abbrev with_options : World
with_options = finish [] (options_settled loaded (start false).view)

abbrev with_version : World
with_version = show with_options (change_version "2" with_options.view)

abbrev click : World → World
click w = after w (handle_next false w.view)

abbrev at_targets : World
at_targets = click (click with_version)

abbrev submitted : World
submitted = click (click (click at_targets))

abbrev payload : Payload
payload = record { version = some 2; publish_mode = 2; targets = none }

submits : submitted.jobs ≡ publish_job payload ∷ []
unfolding wizard
submits = refl

queues : (publish_settled payload (resolved tt) submitted.view).state.active_step ≡ 5
unfolding wizard
queues = refl

Reach-submitted : Reach false submitted
unfolding wizard
Reach-submitted =
    next
      (next
        (next
          (next
            (next
              (next (next here (options_arrive loaded first))
                (picks_version "2" refl refl refl refl))
              (clicks_next refl refl))
            (clicks_next refl refl))
          (clicks_next refl refl))
        (clicks_next refl refl))
      (clicks_next refl refl)

publish_job-IsSound_example : IsSound submitted.view payload []
unfolding wizard
publish_job-IsSound_example =
    publish_job-IsSound false submitted payload [] Reach-submitted refl first

Reach-Coherent_example : Coherent submitted.view submitted.jobs
unfolding wizard
Reach-Coherent_example = Reach-Coherent false submitted Reach-submitted refl
