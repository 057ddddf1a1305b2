-- ===== src/Users/Handlers.antt =====
-- The handlers of web/src/features/users/UsersPage.tsx, cut at their awaits: a `..._settled` function
-- is what runs when a call ends, up to the next await.
use cassem.Base.{
  ℕ, ◌+◌, ◌==◌, Bool, true, false, not, ◌&&◌, ◌||◌, Option, none, some, List, [], ◌∷◌, String,
  if◌then◌else◌, trim,
}
use cassem.Effects.{
  Reply, resolved, rejected, Effect, Message, label, show_toast, success, error, get_error_message,
}
use cassem.Users.Scopes.{cluster}
use cassem.Users.State.{
  User, State, Turn, Job, users_job, domains_job, add_job, disable_job, reset_job, no_error,
  empty_form,
}
use text.Mathlib.Text.{◌==◌ as str_eq}

abbrev pub turn : State → List Effect → List Job → Turn
turn s effects jobs = record { state = s; effects = effects; jobs = jobs }

abbrev pub idle : State → Turn
idle s = turn s [] []

abbrev pub is_given : String → Bool
is_given text = not (str_eq text "")

-- `loadUsers` up to its request.
abbrev pub load_users : Bool → State → List Effect → Turn
load_users awaited s effects =
    turn (record s { request_seq = s.request_seq + 1; loading = true }) effects
      (users_job (s.request_seq + 1) awaited ∷ [])

abbrev pub apply_users : Reply (List User) → State → State
apply_users (resolved users) s = record s { users = users; error = no_error; loading = false }
apply_users (rejected reason) s = record s {
  users = [];
  error = get_error_message reason (label "management.users.loadFailed");
  loading = false;
}

-- A listing ends: only the latest one counts.
unfoldable pub list_users : ℕ → Reply (List User) → State → State
unfolding get_error_message
list_users request_id reply s =
    if s.mounted && request_id == s.request_seq then apply_users reply s else s

-- A handler that awaits a listing ends with it.
unfoldable pub users_settled : ℕ → Bool → Reply (List User) → State → State
unfolding list_users
users_settled request_id true reply s = record (list_users request_id reply s) {
  submitting = false;
}
users_settled request_id false reply s = list_users request_id reply s

unfoldable pub domains_settled : Reply (List String) → State → State
unfolding get_error_message
domains_settled (resolved domains) s =
    if s.mounted then record s { domain_options = domains } else s
domains_settled (rejected reason) s =
    if s.mounted
    then record s { error = get_error_message reason (label "management.users.loadDomainsFailed") }
    else s

-- The effect of a render: it loads once.
unfoldable pub mount : State → Turn
mount s =
    if s.load_started
    then idle (record s { mounted = true })
    else turn
        (record s {
          mounted = true;
          load_started = true;
          request_seq = s.request_seq + 1;
          loading = true;
        })
        [] (domains_job ∷ users_job (s.request_seq + 1) false ∷ [])

unfoldable pub close_create_dialog : State → State
close_create_dialog s =
    if s.submitting then s else record s { create_open = false; create_form = empty_form }

unfoldable pub close_disable_dialog : State → State
close_disable_dialog s = if s.submitting then s else record s { disable_target = none }

unfoldable pub close_reset_dialog : State → State
close_reset_dialog s =
    if s.submitting then s else record s { reset_target = none; reset_password = "" }

abbrev pub closed_access : State → State
closed_access s = record s {
  access_target = none;
  access_bindings = [];
  role_value = "admin";
  scope_mode = cluster;
  selected_app = "";
  selected_env = "";
}

unfoldable pub close_access_dialog : State → State
close_access_dialog s = if s.submitting || s.access_loading then s else closed_access s

-- A call that changes accounts is sent, and the page is locked.
abbrev pub submit : State → Job → Turn
submit s job = turn (record s { submitting = true; error = no_error }) [] (job ∷ [])

-- `catch` and `finally` of a handler that does not look whether the page is mounted.
abbrev pub submission_failed : Message → State → Turn
submission_failed message s =
    turn (record s { submitting = false }) (show_toast message error ∷ []) []

unfoldable pub handle_add_user : State → Turn
handle_add_user s =
    let account = trim s.create_form.account in
    let nickname = trim s.create_form.nickname in
    let password = s.create_form.password in
    if is_given account && is_given nickname && is_given (trim password)
    then submit s (add_job account password nickname)
    else idle s

unfoldable pub add_settled : Reply (Unit {0}) → State → Turn
unfolding get_error_message
add_settled (resolved _) s =
    load_users true (record s { create_open = false; create_form = empty_form })
      (show_toast (label "management.users.added") success ∷ [])
add_settled (rejected reason) s =
    submission_failed (get_error_message reason (label "management.users.addFailed")) s

-- `target?.account`, empty if there is none.
abbrev pub account_of : Option User → String
account_of none = ""
account_of (some user) = user.account

unfoldable pub handle_disable_user : State → Turn
handle_disable_user s =
    let account = account_of s.disable_target in
    if is_given account then submit s (disable_job account) else idle s

unfoldable pub disable_settled : Reply (Unit {0}) → State → Turn
unfolding get_error_message
disable_settled (resolved _) s =
    load_users true (record s { disable_target = none })
      (show_toast (label "management.users.disabledSuccess") success ∷ [])
disable_settled (rejected reason) s =
    submission_failed (get_error_message reason (label "management.users.disableFailed")) s

unfoldable pub handle_reset_password : State → Turn
handle_reset_password s =
    let account = trim (account_of s.reset_target) in
    if is_given account && is_given (trim s.reset_password)
    then submit s (reset_job account s.reset_password)
    else idle s

unfoldable pub reset_settled : Reply (Unit {0}) → State → Turn
unfolding get_error_message
reset_settled (resolved _) s =
    load_users true (record s { reset_target = none; reset_password = "" })
      (show_toast (label "management.users.passwordReset") success ∷ [])
reset_settled (rejected reason) s =
    submission_failed (get_error_message reason (label "management.users.resetFailed")) s

pub data Field : Type 0 where
  account nickname password : Field

unfoldable pub update_create_field : Field → String → State → State
update_create_field account value s = record s {
  create_form = record s.create_form { account = value };
}
update_create_field nickname value s = record s {
  create_form = record s.create_form { nickname = value };
}
update_create_field password value s = record s {
  create_form = record s.create_form { password = value };
}
