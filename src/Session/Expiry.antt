-- ===== src/Session/Expiry.antt =====
-- The session that the provider holds and the one that is stored, whatever is done in which order.
use cassem.Base.{ℕ, ◌≡◌, refl, ◌≢◌, ◌⊎◌, inl, inr, Option, none, some, String, Bool-cases, ◌∙◌}
use cassem.Session.Storage.{
  Store, get_session, get_stored_user, get_stored_user-again, store_session-IsHeld, clear_session,
}
use cassem.Session.Api.{
  Response, Body, malformed, null, object, request_settled, response_settled, read_payload,
  CommonResponse, fallback_payload, is_auth_error,
}
use cassem.Session.Outcomes.{read_payload-IsRead}
use cassem.Session.Auth.{State, LoginResponse, provide, login_settled, logout}

-- The provider, and the local storage of this browser.
pub record World (User : Type 0) : Type 0 where
  pub state : State User
  pub store : Store

abbrev pub both : {User : Type 0} → State User × Store → World User
both (s, store) = record { state = s; store = store }

read_payload-store :
    (status : ℕ) (found : CommonResponse String) (store : Store)
    → ((read_payload status found store).1 ≡ store)
      ⊎ ((read_payload status found store).1 ≡ clear_session store)
read_payload-store status found store = elim (Bool-cases (is_auth_error status found)) [
  | inl expired ↦ inr ((read_payload-IsRead status found store).1 ∙ rw expired refl)
  | inr active ↦ inl ((read_payload-IsRead status found store).1 ∙ rw active refl)
]

response_settled-store :
    (status : ℕ) (body : Body String) (store : Store)
    → ((response_settled status body store).1 ≡ store)
      ⊎ ((response_settled status body store).1 ≡ clear_session store)
unfolding response_settled
response_settled-store status malformed store =
    read_payload-store status (fallback_payload status) store
response_settled-store status null store = inl refl
response_settled-store status (object found) store = read_payload-store status found store

module _ {User : Type 0} (to_json : User → String) (of_json : String → Option User) where
  -- One tab: the user logs in or out, and requests of pages end. (The data of an answer is its text.)
  pub data Step (w : World User) : World User → Type 0 where
    logs_in :
        (answer : LoginResponse User) (redirect_to : String)
        → Step w (both (login_settled to_json of_json answer redirect_to w.state w.store))
    logs_out : Step w (both (logout to_json of_json w.state w.store))
    request_ends :
        (response : Option (Response String))
        → Step w (record w { store = (request_settled response w.store).1 })

  pub data Reach : World User → Type 0 where
    here :
        (location : String) (store : Store) → Reach (both (provide to_json of_json location store))
    next : {w w' : World User} → Reach w → Step w w' → Reach w'

  -- The stored session is the provider's, with its user, or has expired with it.
  abbrev pub InStep : State User → Store → Type 0
  InStep s store =
      ((get_session store ≡ s.session) × ((get_stored_user to_json of_json store).0 ≡ s.user))
      ⊎ ((get_session store ≡ "") × ((get_stored_user to_json of_json store).0 ≡ none))

  Step-InStep :
      {w w' : World User}
      → ((user : User) → of_json (to_json user) ≡ some user)
      → ((user : User) → to_json user ≢ "")
      → Step w w'
      → InStep w.state w.store
      → InStep w'.state w'.store
  unfolding login_settled logout request_settled get_session get_stored_user clear_session
  Step-InStep {w} parses given (logs_in answer redirect_to) i =
      let (session, user, _) =
        (store_session-IsHeld to_json of_json answer.session answer.user w.store
          (parses answer.user) (given answer.user)).0 in
      inl (session, user)
  Step-InStep parses given logs_out i = inl (refl, refl)
  Step-InStep parses given (request_ends none) i = i
  Step-InStep {w} parses given (request_ends (some response)) i =
      elim (response_settled-store response.status response.body w.store) [
        | inl same ↦ rw same i
        | inr expired ↦ rw expired (inr (refl, refl))
      ]

  -- Whatever the user does and the server answers, the session and the user in the local storage are
  -- those that the provider holds, or both have been cleared; a user that is written to the local
  -- storage reads back as the same, and is not written as the empty text.
  pub Reach-InStep :
      {w : World User}
      → ((user : User) → of_json (to_json user) ≡ some user)
      → ((user : User) → to_json user ≢ "")
      → Reach w
      → InStep w.state w.store
  unfolding provide get_session
  Reach-InStep parses given (here location store) =
      let (user, session) = get_stored_user-again to_json of_json store in inl (session, user)
  Reach-InStep parses given (next r s) = Step-InStep parses given s (Reach-InStep parses given r)
