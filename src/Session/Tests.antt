-- ===== src/Session/Tests.antt =====
-- Runs of the session, and its theorems at concrete inputs.
use cassem.Base.{◌≡◌, refl, ◌≢◌, true, Option, none, some, [], ◌∷◌, String, if◌then◌else◌}
use cassem.Domain.{nat}
use cassem.Session.Storage.{
  Store, get_session, get_stored_user, store_session, clear_session, store_session-IsHeld, IsHeld,
}
use cassem.Session.Api.{
  CommonResponse, Headers, malformed, read_payload, request_settled, request_headers, is_auth_error,
}
use cassem.Session.Outcomes.{IsRead, read_payload-IsRead}
use cassem.Session.Carried.{find_header, given, request_headers-find_header}
use cassem.Session.Auth.{provide, login_settled, logout, admits}
use cassem.Session.Expiry.{
  World, both, Reach, here, next, logs_in, request_ends, InStep, Reach-InStep,
}
use text.Mathlib.Text.{◌==◌}

console : Unit {0}
unfolding get_session get_stored_user store_session clear_session read_payload request_settled
    request_headers is_auth_error provide login_settled logout admits
console = tt

-- A user is its name here, printed behind a mark.
abbrev print : String → String
print user = String.◌∷◌ "u" user

abbrev parse : String → Option String
parse String.[] = none
parse (String.◌∷◌ c user) = some user

abbrev empty : Store
empty key = none

print-given : (user : String) → print user ≢ ""
print-given user = λ e. cc

store_session-IsHeld_example :
    IsHeld print parse "s1" (some "ann") empty (store_session print parse "s1" "ann" empty)
    × IsHeld print parse "" none empty (clear_session (store_session print parse "s1" "ann" empty))
store_session-IsHeld_example =
    store_session-IsHeld print parse "s1" "ann" empty refl (print-given "ann")

abbrev expired : CommonResponse String
expired = record { errcode = some (nat 5); errmsg = some "Session EXPIRED, log in"; data_ = none }

ignores_case : is_auth_error 200 expired ≡ true
unfolding console
ignores_case = refl

read_payload-IsRead_example :
    let (outcome, kept) = read_payload 200 expired empty in
    IsRead 200 expired outcome
    × (kept ≡ (if is_auth_error 200 expired then clear_session empty else empty))
read_payload-IsRead_example = read_payload-IsRead 200 expired empty

abbrev stored : Store
stored = store_session print parse "s1" "ann" empty

abbrev json : Headers
json = ("Content-Type", "text/plain") ∷ ("Content-Type", "application/json") ∷ []

request_headers-find_header_example :
    find_header "Content-Type" (request_headers stored (some json)) ≡ (
      if get_session stored == ""
      then (if "Accept" == "Content-Type"
          then some "application/json"
          else given "Content-Type" (some json))
      else if "X-CASSEM-SESSION" == "Content-Type"
      then some (get_session stored)
      else if "Accept" == "Content-Type"
      then some "application/json"
      else given "Content-Type" (some json))
request_headers-find_header_example = request_headers-find_header stored (some json) "Content-Type"

json_given : given "Content-Type" (some json) ≡ some "application/json"
json_given = refl

abbrev fresh : World String
fresh = both (provide print parse "/login" empty)

abbrev logged_in : World String
logged_in =
    both (
      login_settled print parse (record { user = "ann"; session = "s1" }) "" fresh.state
        fresh.store)

abbrev after_expiry : World String
after_expiry = record logged_in {
  store =
      (request_settled {A = String} (some (record { status = 401; body = malformed }))
        logged_in.store).1;
}

-- The page is still shown to a user whose stored session has been cleared.
admits_expired : (get_session after_expiry.store ≡ "") × (admits after_expiry.state ≡ true)
unfolding console
admits_expired = (refl, refl)

Reach-after_expiry : Reach print parse after_expiry
Reach-after_expiry =
    next (next (here "/login" empty) (logs_in (record { user = "ann"; session = "s1" }) ""))
      (request_ends (some (record { status = 401; body = malformed })))

Reach-InStep_example : InStep print parse after_expiry.state after_expiry.store
Reach-InStep_example = Reach-InStep print parse (λ user. refl) print-given Reach-after_expiry
