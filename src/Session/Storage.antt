-- ===== src/Session/Storage.antt =====
-- web/src/lib/session.ts over the browser's local storage. `JSON.stringify` and `JSON.parse` of a
-- user, of any type, are parameters.
use cassem.Base.{
  ◌≡◌, refl, ◌≢◌, Option, none, some, String, if◌then◌else◌, arith, eq_iff, Bool-cases,
  Option-cases, inl, inr,
}
use text.Mathlib.Text.{◌==◌}

abbrev pub Store : Type 0
Store = String → Option String

abbrev pub get_item : String → Store → Option String
get_item key store = store key

abbrev pub set_item : String → String → Store → Store
set_item key value store other = if other == key then some value else store other

abbrev pub remove_item : String → Store → Store
remove_item key store other = if other == key then none else store other

abbrev pub session_key : String
session_key = "cassem.session"

abbrev pub user_key : String
user_key = "cassem.user"

-- `value || ''`.
abbrev pub or_empty : Option String → String
or_empty none = ""
or_empty (some value) = value

unfoldable pub get_session : Store → String
get_session store = or_empty (get_item session_key store)

unfoldable pub clear_session : Store → Store
clear_session store = remove_item user_key (remove_item session_key store)

module _ {User : Type 0} (to_json : User → String) (of_json : String → Option User) where
  -- A text that does not parse is removed.
  abbrev pub parsed : Option User → Store → Option User × Store
  parsed none store = (none, remove_item user_key store)
  parsed (some user) store = (some user, store)

  unfoldable pub get_stored_user : Store → Option User × Store
  get_stored_user store =
      let raw = or_empty (get_item user_key store) in
      if raw == "" then (none, store) else parsed (of_json raw) store

  unfoldable pub store_session : String → User → Store → Store
  store_session session user store =
      set_item user_key (to_json user) (set_item session_key session store)

  -- What a store holds: its session, its user, and the other items.
  abbrev pub IsHeld : String → Option User → Store → Store → Type 0
  IsHeld session user before store =
      (get_session store ≡ session)
      × ((get_stored_user store).0 ≡ user)
      × ((key : String) → key ≢ session_key → key ≢ user_key → store key ≡ before key)

  -- A stored session is read back with its user, other items are left alone, and clearing leaves
  -- neither; a text that the printer of users gives parses to that user, and is not empty.
  pub store_session-IsHeld :
      (session : String) (user : User) (store : Store)
      → of_json (to_json user) ≡ some user
      → to_json user ≢ ""
      → IsHeld session (some user) store (store_session session user store)
        × IsHeld "" none store (clear_session (store_session session user store))
  unfolding get_session get_stored_user store_session clear_session
  store_session-IsHeld session user store parses given = (
    (
      refl,
      ground (arith, eq_iff (to_json user) ""),
      λ key other_session other_user. ground (arith, eq_iff key session_key, eq_iff key user_key),
    ),
    (
      refl,
      refl,
      λ key other_session other_user. ground (arith, eq_iff key session_key, eq_iff key user_key),
    ),
  )

  -- Reading the user again gives the same, and so does reading the session.
  pub get_stored_user-again :
      (store : Store)
      → let (user, kept) = get_stored_user store in
        ((get_stored_user kept).0 ≡ user) × (get_session kept ≡ get_session store)
  unfolding get_stored_user get_session
  get_stored_user-again store = elim (Bool-cases (or_empty (store user_key) == "")) [
    | inl empty ↦ rw (empty, empty) (refl, refl)
    | inr given ↦ elim (Option-cases (of_json (or_empty (store user_key)))) [
      | inl broken ↦ rw (given, broken) (refl, refl)
      | inr (user, good) ↦ ground arith
    ]
  ]
