-- ===== src/Users/Access.antt =====
-- The access dialog of web/src/features/users/UsersPage.tsx, which assigns and revokes roles.
use cassem.Base.{Bool, true, false, ◌&&◌, some, List, [], ◌∷◌, String, if◌then◌else◌}
use cassem.Effects.{
  Reply, resolved, rejected, Effect, label, show_toast, success, error, get_error_message,
}
use cassem.Users.Scopes.{cluster, app_all, app_env, build_domain}
use cassem.Users.State.{
  User, UserAccessBinding, State, Turn, access_job, assign_job, revoke_job, refresh_job, no_error,
}
use cassem.Users.Handlers.{turn, idle, is_given, load_users, submit, account_of}

unfoldable pub handle_open_access : User → State → Turn
handle_open_access user s =
    turn (record s { access_target = some user; access_loading = true; error = no_error }) []
      (access_job user.account ∷ [])

abbrev pub apply_access : Reply (List UserAccessBinding) → State → State
apply_access (resolved bindings) s = record s { access_bindings = bindings; access_loading = false }
apply_access (rejected reason) s = record s {
  error = get_error_message reason (label "management.users.loadAccessFailed");
  access_loading = false;
}

unfoldable pub access_settled : Reply (List UserAccessBinding) → State → State
unfolding get_error_message
access_settled reply s = if s.mounted then apply_access reply s else s

-- The guards of `handleAddBinding` on the scope.
abbrev pub scope_is_complete : State → Bool
scope_is_complete s = elim s.scope_mode [
  | cluster ↦ true
  | app_all ↦ is_given s.selected_app
  | app_env ↦ is_given s.selected_app && is_given s.selected_env
]

unfoldable pub handle_add_binding : State → Turn
unfolding build_domain
handle_add_binding s =
    let account = account_of s.access_target in
    if is_given account && scope_is_complete s
    then submit s
        (assign_job account s.role_value (build_domain s.scope_mode s.selected_app s.selected_env))
    else idle s

unfoldable pub handle_revoke_binding : UserAccessBinding → State → Turn
handle_revoke_binding binding s =
    let account = account_of s.access_target in
    if is_given account then submit s (revoke_job account binding) else idle s

-- `finally`, where only a mounted page is unlocked.
abbrev pub unlock : State → State
unlock s = if s.mounted then record s { submitting = false } else s

-- An assignment or a revocation has ended.
unfoldable pub change_settled : String → String → String → Reply (Unit {0}) → State → Turn
unfolding get_error_message
change_settled account done_key failed_key (resolved _) s =
    turn s (show_toast (label done_key) success ∷ []) (refresh_job account ∷ [])
change_settled account done_key failed_key (rejected reason) s =
    turn (unlock s) (show_toast (get_error_message reason (label failed_key)) error ∷ []) []

unfoldable pub assign_settled : String → Reply (Unit {0}) → State → Turn
unfolding change_settled
assign_settled account =
    change_settled account "management.acl.assigned" "management.acl.assignFailed"

unfoldable pub revoke_settled : String → Reply (Unit {0}) → State → Turn
unfolding change_settled
revoke_settled account =
    change_settled account "management.acl.revoked" "management.acl.revokeFailed"

abbrev pub apply_refresh : Reply (List UserAccessBinding) → State → State × List Effect
apply_refresh (resolved bindings) s = (record s { access_bindings = bindings }, [])
apply_refresh (rejected reason) s = (
  s,
  show_toast (get_error_message reason (label "management.users.refreshAccessFailed")) error ∷ [],
)

-- `refreshAccessBindings` has ended: the users are listed again, and the handler ends.
unfoldable pub refresh_settled : Reply (List UserAccessBinding) → State → Turn
unfolding get_error_message
refresh_settled reply s =
    let (t, effects) = if s.mounted then apply_refresh reply s else (s, []) in
    load_users false (unlock t) effects
