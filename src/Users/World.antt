-- ===== src/Users/World.antt =====
-- The page of web/src/features/users/UsersPage.tsx under any user and any server, as long as it is
-- mounted. A dialog is modal: behind an open one the page cannot be used.
use cassem.Base.{
  ℕ, ◌≡◌, Bool, true, false, not, ◌&&◌, Option, none, some, List, [], ◌++◌, String, trim,
}
use cassem.Base.Pick.{Pick}
use cassem.Effects.{Reply}
use cassem.Users.Scopes.{ScopeMode}
use cassem.Users.State.{
  User, UserAccessBinding, State, initial, Turn, Job, users_job, domains_job, add_job, disable_job,
  reset_job, access_job, assign_job, revoke_job, refresh_job, is_user_disabled, is_superadmin_user,
}
use cassem.Users.Handlers.{
  idle, is_given, mount, users_settled, domains_settled, close_create_dialog, close_disable_dialog,
  close_reset_dialog, close_access_dialog, handle_add_user, add_settled, handle_disable_user,
  disable_settled, handle_reset_password, reset_settled, Field, update_create_field,
}
use cassem.Users.Access.{
  handle_open_access, access_settled, scope_is_complete, handle_add_binding, handle_revoke_binding,
  assign_settled, revoke_settled, refresh_settled,
}
use text.Mathlib.Text.{◌==◌ as str_eq}

pub record World : Type 0 where
  pub view : State
  pub jobs : List Job

abbrev pub finish : List Job → Turn → World
finish rest t = record { view = t.state; jobs = t.jobs ++ rest }

abbrev pub settled : List Job → State → World
settled rest s = record { view = s; jobs = rest }

pub data Event : Type 0 where
  renews opens_create closes_create adds closes_disable disables closes_reset resets closes_access
        assigns :
      Event
  types_field : Field → String → Event
  opens_disable opens_reset opens_access : User → Event
  types_password picks_role picks_app picks_env : String → Event
  picks_scope : ScopeMode → Event
  revokes : UserAccessBinding → Event

-- The handler of an event.
abbrev pub react : Event → State → Turn
react renews s = mount (record s { mounted = false })
react opens_create s = idle (record s { create_open = true })
react (types_field field value) s = idle (update_create_field field value s)
react closes_create s = idle (close_create_dialog s)
react adds s = handle_add_user s
react (opens_disable user) s = idle (record s { disable_target = some user })
react closes_disable s = idle (close_disable_dialog s)
react disables s = handle_disable_user s
react (opens_reset user) s = idle (record s { reset_target = some user })
react (types_password value) s = idle (record s { reset_password = value })
react closes_reset s = idle (close_reset_dialog s)
react resets s = handle_reset_password s
react (opens_access user) s = handle_open_access user s
react closes_access s = idle (close_access_dialog s)
react (picks_role role) s = idle (record s { role_value = role })
react (picks_scope mode) s = idle (record s { scope_mode = mode })
react (picks_app app) s = idle (record s { selected_app = app; selected_env = "" })
react (picks_env env) s = idle (record s { selected_env = env })
react assigns s = handle_add_binding s
react (revokes binding) s = handle_revoke_binding binding s

abbrev pub is_none {ℓ} : {A : Type ℓ} → Option A → Bool
is_none none = true
is_none (some _) = false

abbrev no_dialog : State → Bool
no_dialog s =
    not s.create_open
    && is_none s.disable_target
    && is_none s.reset_target
    && is_none s.access_target

-- Whether its control is shown, in reach and not disabled.
abbrev pub enabled : Event → State → Bool
enabled opens_create s = not s.submitting && no_dialog s
enabled (types_field field value) s = not s.submitting
enabled adds s =
    not s.submitting
    && s.create_open
    && is_given (trim s.create_form.account)
    && is_given (trim s.create_form.nickname)
    && is_given (trim s.create_form.password)
enabled (opens_disable user) s =
    not s.submitting && not (is_user_disabled user) && not (is_superadmin_user user) && no_dialog s
enabled disables s = not s.submitting && not (is_none s.disable_target)
enabled (opens_reset user) s = not s.submitting && not (is_superadmin_user user) && no_dialog s
enabled (types_password value) s = not s.submitting
enabled resets s =
    not s.submitting && not (is_none s.reset_target) && is_given (trim s.reset_password)
enabled (opens_access user) s = not s.submitting && not (is_superadmin_user user) && no_dialog s
enabled assigns s = not s.submitting && not (is_none s.access_target) && scope_is_complete s
enabled (revokes binding) s =
    not s.submitting && not (is_none s.access_target) && not (str_eq binding.role "superadmin")
enabled _ s = true

pub data Step (w : World) : World → Type 0 where
  happens :
      (event : Event) → enabled event w.view ≡ true → Step w (finish w.jobs (react event w.view))
  users_arrive :
      (id : ℕ) (awaited : Bool) (reply : Reply (List User)) {rest : List Job}
      → Pick (users_job id awaited) w.jobs rest
      → Step w (settled rest (users_settled id awaited reply w.view))
  domains_arrive :
      (reply : Reply (List String)) {rest : List Job}
      → Pick domains_job w.jobs rest
      → Step w (settled rest (domains_settled reply w.view))
  add_ends :
      (account password nickname : String) (reply : Reply (Unit {0})) {rest : List Job}
      → Pick (add_job account password nickname) w.jobs rest
      → Step w (finish rest (add_settled reply w.view))
  disable_ends :
      (account : String) (reply : Reply (Unit {0})) {rest : List Job}
      → Pick (disable_job account) w.jobs rest
      → Step w (finish rest (disable_settled reply w.view))
  reset_ends :
      (account password : String) (reply : Reply (Unit {0})) {rest : List Job}
      → Pick (reset_job account password) w.jobs rest
      → Step w (finish rest (reset_settled reply w.view))
  access_arrives :
      (account : String) (reply : Reply (List UserAccessBinding)) {rest : List Job}
      → Pick (access_job account) w.jobs rest
      → Step w (settled rest (access_settled reply w.view))
  assign_ends :
      (account role domain : String) (reply : Reply (Unit {0})) {rest : List Job}
      → Pick (assign_job account role domain) w.jobs rest
      → Step w (finish rest (assign_settled account reply w.view))
  revoke_ends :
      (account : String) (binding : UserAccessBinding) (reply : Reply (Unit {0})) {rest : List Job}
      → Pick (revoke_job account binding) w.jobs rest
      → Step w (finish rest (revoke_settled account reply w.view))
  refresh_arrives :
      (account : String) (reply : Reply (List UserAccessBinding)) {rest : List Job}
      → Pick (refresh_job account) w.jobs rest
      → Step w (finish rest (refresh_settled reply w.view))

abbrev pub start : World
start = finish [] (mount initial)

pub data Reach : World → Type 0 where
  here : Reach start
  next : {w w' : World} → Reach w → Step w w' → Reach w'
