-- ===== src/Users/State.antt =====
-- The React state of web/src/features/users/UsersPage.tsx and the calls that it awaits.
use cassem.Base.{ℕ, Bool, true, false, ◌||◌, Option, none, some, List, [], String, any, ◌==◌}
use cassem.Effects.{Effect, Message, verbatim}
use cassem.Users.Scopes.{ScopeMode, cluster}
use text.Mathlib.Text.{◌==◌ as str_eq}

pub record UserAccessBinding : Type 0 where
  pub role : String
  pub domain : String

pub record User : Type 0 where
  pub account : String
  pub nickname : Option String
  pub status : Option ℕ
  pub roles : List String
  pub binding_count : Option ℕ
  pub access_summary : List UserAccessBinding

abbrev pub is_user_disabled : User → Bool
is_user_disabled user = elim user.status [ none ↦ false | some n ↦ n == 1 ]

-- A superadmin, by its roles or by its bindings.
unfoldable pub is_superadmin_user : User → Bool
is_superadmin_user user =
    any (λ role. str_eq role "superadmin") user.roles
    || any (λ binding. str_eq binding.role "superadmin") user.access_summary

pub record CreateFormState : Type 0 where
  pub account : String
  pub nickname : String
  pub password : String

abbrev pub empty_form : CreateFormState
empty_form = record { account = ""; nickname = ""; password = "" }

-- `error` is the message of the page, the empty text where there is none.
pub record State : Type 0 where
  pub users : List User
  pub loading : Bool
  pub submitting : Bool
  pub error : Message
  pub create_open : Bool
  pub create_form : CreateFormState
  pub disable_target : Option User
  pub reset_target : Option User
  pub reset_password : String
  pub access_target : Option User
  pub access_bindings : List UserAccessBinding
  pub access_loading : Bool
  pub domain_options : List String
  pub role_value : String
  pub scope_mode : ScopeMode
  pub selected_app : String
  pub selected_env : String
  pub request_seq : ℕ
  pub mounted : Bool
  pub load_started : Bool

abbrev pub no_error : Message
no_error = verbatim ""

abbrev pub initial : State
initial = record {
  users = [];
  loading = true;
  submitting = false;
  error = no_error;
  create_open = false;
  create_form = empty_form;
  disable_target = none;
  reset_target = none;
  reset_password = "";
  access_target = none;
  access_bindings = [];
  access_loading = false;
  domain_options = [];
  role_value = "admin";
  scope_mode = cluster;
  selected_app = "";
  selected_env = "";
  request_seq = 0;
  mounted = false;
  load_started = false;
}

-- A call that is awaited. A listing of the users has its number, and whether a handler awaits it
-- before it ends. A change of the bindings is followed by a listing of them (`refresh_job`).
pub data Job : Type 0 where
  users_job : ℕ → Bool → Job
  domains_job : Job
  add_job : String → String → String → Job
  disable_job : String → Job
  reset_job : String → String → Job
  access_job : String → Job
  assign_job : String → String → String → Job
  revoke_job : String → UserAccessBinding → Job
  refresh_job : String → Job

-- What a handler leaves behind when it returns or awaits: the state, its toasts, and the calls sent,
-- the latest first.
pub record Turn : Type 0 where
  pub state : State
  pub effects : List Effect
  pub jobs : List Job
