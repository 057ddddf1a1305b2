-- ===== src/Session/Auth.antt =====
-- web/src/auth/AuthProvider.tsx and web/src/auth/RequireAuth.tsx over the stored session, with the
-- requests of the pages, which clear it behind the provider's back.
use cassem.Base.{Bool, not, Option, none, some, String, if◌then◌else◌}
use cassem.Session.Storage.{Store, get_session, get_stored_user, store_session, clear_session}
use text.Mathlib.Text.{◌==◌}

-- The provider's React state, and where it navigates.
pub record State (User : Type 0) : Type 0 where
  pub session : String
  pub user : Option User
  pub location : String

pub record LoginResponse (User : Type 0) : Type 0 where
  pub user : User
  pub session : String

-- `redirectTo || '/docs'`.
abbrev pub target_of : String → String
target_of redirect_to = if redirect_to == "" then "/docs" else redirect_to

module _ {User : Type 0} (to_json : User → String) (of_json : String → Option User) where
  -- The state of the first render.
  unfoldable pub provide : String → Store → State User × Store
  unfolding get_session get_stored_user
  provide location store =
      let (user, kept) = get_stored_user to_json of_json store in
      (record { session = get_session store; user = user; location = location }, kept)

  -- The rest of `login` behind its request.
  unfoldable pub login_settled :
      LoginResponse User → String → State User → Store → State User × Store
  unfolding store_session
  login_settled answer redirect_to s store = (
    record { session = answer.session; user = some answer.user; location = target_of redirect_to },
    store_session to_json of_json answer.session answer.user store,
  )

  unfoldable pub logout : State User → Store → State User × Store
  unfolding clear_session
  logout s store = (record { session = ""; user = none; location = "/login" }, clear_session store)

-- `RequireAuth` shows the page.
unfoldable pub admits : {User : Type 0} → State User → Bool
admits s = not (s.session == "")
