-- ===== src/Publish/Settled.antt =====
-- What runs in web/src/features/publish/PublishWizardPage.tsx when a call ends: a `..._settled`
-- function is the part of a handler behind its `await`.
use cassem.Base.{ℕ, true, false, not, Option, none, some, List, [], ◌∷◌, String, if◌then◌else◌}
use cassem.Domain.{Element, is_number}
use cassem.Effects.{
  success, error, translated, label, count_or_dash, lower_case, show_toast, Reply, resolved,
  rejected, get_error_message,
}
use cassem.Workflow.{VersionOption, to_version_options, get_using_version, id_options}
use cassem.Publish.State.{State, Payload, Turn, turn, strategy_key}

-- The answers of the three option requests together: the elements of the versions, the `agentId` of
-- each agent and the `clientId` of each instance.
pub record LoadedOptions : Type 0 where
  pub versions : List Element
  pub agent_ids : List (Option String)
  pub client_ids : List (Option String)

-- The rest of `loadOptions`, while the component is mounted.
unfoldable pub apply_options : Reply LoadedOptions → State → Turn
unfolding get_error_message
apply_options (resolved loaded) s =
    turn
      (record s {
        version_options = to_version_options loaded.versions;
        using_version = get_using_version loaded.versions;
        agent_options = id_options loaded.agent_ids;
        instance_options = id_options loaded.client_ids;
        version = "";
        agent_ids = [];
        instance_ids = [];
        options_loading = false;
      })
      []
apply_options (rejected failure) s =
    turn
      (record s {
        version_options = [];
        using_version = none;
        agent_options = [];
        instance_options = [];
        options_loading = false;
      })
      (show_toast (get_error_message failure (label "operations.publish.loadFailed")) error ∷ [])

unfoldable pub options_settled : Reply LoadedOptions → State → Turn
unfolding apply_options
options_settled reply s = if s.mounted then apply_options reply s else turn s []

-- The rest of `handleLoadDiffAndAdvance` behind its request: `target` and `using` are the selected
-- option and the version in use as they were when the request was sent.
unfoldable pub apply_comparison : VersionOption → ℕ → Reply Element → State → Turn
unfolding get_error_message
apply_comparison target using (resolved current) s =
    if not (is_number current.version using)
    then turn (record s { diff_loading = false })
        (show_toast (label "operations.publish.noComparison") error ∷ [])
    else turn
        (record s {
          current_version = some using;
          diff_pair = some (record { base = current; compare = target.element });
          diff_loaded = true;
          active_step = 3;
          diff_loading = false;
        })
        []
apply_comparison target using (rejected failure) s =
    turn (record s { diff_loading = false })
      (show_toast (get_error_message failure (label "operations.publish.noComparison")) error ∷ [])

unfoldable pub comparison_settled : VersionOption → ℕ → Reply Element → State → Turn
unfolding apply_comparison
comparison_settled target using reply s =
    if s.mounted then apply_comparison target using reply s else turn s []

-- The rest of `handlePublish` behind its request.
unfoldable pub apply_publish : Payload → Reply (Unit {0}) → State → Turn
unfolding get_error_message
apply_publish payload (resolved _) s =
    turn (record s { active_step = 5; submitting = false })
      (show_toast
          (translated "operations.publish.queued" (
            ("version", count_or_dash payload.version)
            ∷ ("strategy", lower_case (strategy_key payload.publish_mode))
            ∷ []))
          success
        ∷ [])
apply_publish payload (rejected failure) s =
    turn (record s { submitting = false })
      (show_toast (get_error_message failure (label "operations.publish.failed")) error ∷ [])

unfoldable pub publish_settled : Payload → Reply (Unit {0}) → State → Turn
unfolding apply_publish
publish_settled payload reply s = if s.mounted then apply_publish payload reply s else turn s []
