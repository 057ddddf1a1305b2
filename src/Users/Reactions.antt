-- ===== src/Users/Reactions.antt =====
-- Every event of the page of users keeps it locked while a change is under way.
use cassem.Base.{
  ◌≡◌, refl, sym, inl, inr, true, false, ◌&&◌, ◌||◌, none, some, List, ◌++◌, arith, Bool-cases,
  trim,
}
use cassem.Users.Scopes.{build_domain}
use cassem.Users.State.{
  State, Job, add_job, disable_job, reset_job, assign_job, revoke_job, empty_form,
}
use cassem.Users.Handlers.{
  is_given, mount, close_create_dialog, close_disable_dialog, close_reset_dialog,
  close_access_dialog, handle_add_user, handle_disable_user, handle_reset_password, Field,
  update_create_field, account_of, closed_access,
}
use cassem.Users.Access.{
  handle_open_access, scope_is_complete, handle_add_binding, handle_revoke_binding,
}
use cassem.Users.World.{
  Event, react, enabled, renews, opens_create, closes_create, adds, closes_disable, disables,
  closes_reset, resets, closes_access, assigns, types_field, opens_disable, opens_reset,
  opens_access, types_password, picks_role, picks_app, picks_env, picks_scope, revokes,
}
use cassem.Users.Exclusive.{
  keeps-Exclusive, submit-Exclusive, unless-Exclusive, Concerns-none, Exclusive,
}

pub react-Exclusive :
    (event : Event) (v : State) (jobs : List Job)
    → enabled event v ≡ true
    → Exclusive v jobs
    → Exclusive (react event v).state ((react event v).jobs ++ jobs)
unfolding mount close_create_dialog close_disable_dialog close_reset_dialog close_access_dialog
    handle_add_user handle_disable_user handle_reset_password handle_open_access handle_add_binding
    handle_revoke_binding update_create_field
react-Exclusive renews v jobs f e = rw e.started (
    keeps-Exclusive v (record v { mounted = true; load_started = true }) jobs refl refl refl
      (sym e.present) (sym e.started) e)
react-Exclusive opens_create v jobs f e =
    keeps-Exclusive v (record v { create_open = true }) jobs refl refl refl refl refl e
react-Exclusive (opens_disable user) v jobs f e =
    keeps-Exclusive v (record v { disable_target = some user }) jobs refl refl refl refl refl e
react-Exclusive (opens_reset user) v jobs f e =
    keeps-Exclusive v (record v { reset_target = some user }) jobs refl refl refl refl refl e
react-Exclusive (types_password value) v jobs f e =
    keeps-Exclusive v (record v { reset_password = value }) jobs refl refl refl refl refl e
react-Exclusive (picks_role role) v jobs f e =
    keeps-Exclusive v (record v { role_value = role }) jobs refl refl refl refl refl e
react-Exclusive (picks_scope mode) v jobs f e =
    keeps-Exclusive v (record v { scope_mode = mode }) jobs refl refl refl refl refl e
react-Exclusive (picks_app app) v jobs f e =
    keeps-Exclusive v (record v { selected_app = app; selected_env = "" }) jobs refl refl refl refl
      refl e
react-Exclusive (picks_env env) v jobs f e =
    keeps-Exclusive v (record v { selected_env = env }) jobs refl refl refl refl refl e
react-Exclusive (types_field Field.account value) v jobs f e =
    keeps-Exclusive v (update_create_field Field.account value v) jobs refl refl refl refl refl e
react-Exclusive (types_field Field.nickname value) v jobs f e =
    keeps-Exclusive v (update_create_field Field.nickname value v) jobs refl refl refl refl refl e
react-Exclusive (types_field Field.password value) v jobs f e =
    keeps-Exclusive v (update_create_field Field.password value v) jobs refl refl refl refl refl e
react-Exclusive closes_create v jobs f e =
    unless-Exclusive v.submitting v (record v { create_open = false; create_form = empty_form })
      jobs e
      (λ _.
        keeps-Exclusive v (record v { create_open = false; create_form = empty_form }) jobs refl
          refl refl refl refl e)
react-Exclusive closes_disable v jobs f e =
    unless-Exclusive v.submitting v (record v { disable_target = none }) jobs e
      (λ _. keeps-Exclusive v (record v { disable_target = none }) jobs refl refl refl refl refl e)
react-Exclusive closes_reset v jobs f e =
    unless-Exclusive v.submitting v (record v { reset_target = none; reset_password = "" }) jobs e
      (λ _.
        keeps-Exclusive v (record v { reset_target = none; reset_password = "" }) jobs refl refl
          refl refl refl e)
react-Exclusive adds v jobs f e =
    elim (Bool-cases (
      is_given (trim v.create_form.account)
      && is_given (trim v.create_form.nickname)
      && is_given (trim v.create_form.password))) [
        | inl given ↦ rw given (
            submit-Exclusive v
              (add_job (trim v.create_form.account) v.create_form.password
                (trim v.create_form.nickname))
              jobs (ground arith) refl refl tt e)
        | inr missing ↦ rw missing e
      ]
react-Exclusive disables v jobs f e = elim (Bool-cases (is_given (account_of v.disable_target))) [
  | inl given ↦ rw given (
      submit-Exclusive v (disable_job (account_of v.disable_target)) jobs (ground arith) refl refl
        tt e)
  | inr missing ↦ rw missing e
]
react-Exclusive resets v jobs f e =
    elim (Bool-cases
      (is_given (trim (account_of v.reset_target)) && is_given (trim v.reset_password))) [
        | inl given ↦ rw given (
            submit-Exclusive v (reset_job (trim (account_of v.reset_target)) v.reset_password) jobs
              (ground arith) refl refl tt e)
        | inr missing ↦ rw missing e
      ]
react-Exclusive assigns v jobs f e =
    elim (Bool-cases (is_given (account_of v.access_target) && scope_is_complete v)) [
      | inl given ↦ rw given (
          submit-Exclusive v
            (assign_job (account_of v.access_target) v.role_value
              (build_domain v.scope_mode v.selected_app v.selected_env))
            jobs (ground arith) refl refl refl e)
      | inr missing ↦ rw missing e
    ]
react-Exclusive (revokes binding) v jobs f e =
    elim (Bool-cases (is_given (account_of v.access_target))) [
      | inl given ↦ rw given (
          submit-Exclusive v (revoke_job (account_of v.access_target) binding) jobs (ground arith)
            refl refl refl e)
      | inr missing ↦ rw missing e
    ]
react-Exclusive closes_access v jobs f e =
    unless-Exclusive (v.submitting || v.access_loading) v (closed_access v) jobs e (λ free. record {
      locked = e.locked;
      listing = e.listing;
      own =
          Concerns-none (account_of v.access_target) "" jobs (ground (arith, e.locked))
            (ground (arith, e.listing)) e.own;
      shown = ground arith;
      present = e.present;
      started = e.started;
    })
react-Exclusive (opens_access user) v jobs f e =
    let quiet : v.access_loading ≡ false = ground (arith, e.shown) in
    record {
      locked = e.locked;
      listing = ground (arith, e.listing);
      own = (
        refl,
        Concerns-none (account_of v.access_target) user.account jobs (ground (arith, e.locked))
            (ground (arith, e.listing)) e.own,
      );
      shown = λ _. refl;
      present = e.present;
      started = e.started;
    }
