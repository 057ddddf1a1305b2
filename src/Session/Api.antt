-- ===== src/Session/Api.antt =====
-- `apiRequest` of web/src/lib/api.ts. The answer to `fetch` is an event: a status with the payload that
-- its body parses to, if it does, or a network error.
use cassem.Base.{
  ℕ, ◌+◌, Bool, true, false, not, ◌&&◌, ◌||◌, Option, none, some, List, [], ◌∷◌, String,
  if◌then◌else◌, leb, ◌==◌,
}
use Prim.Native.Char.{code}
use Prim.Native.String.{◌++◌ as join}
use cassem.Base.Decimal.{decimal}
use cassem.Domain.{Number, nat, neg}
use cassem.Session.Storage.{Store, get_session, clear_session}
use text.Mathlib.Text.{◌==◌ as str_eq}

pub record CommonResponse {ℓ} (A : Type ℓ) : Type ℓ where
  pub errcode : Option Number
  pub errmsg : Option String
  pub data_ : Option A

-- What `response.json()` gives: an error, `null`, or an object. (A payload of another kind reads
-- like an object without fields.)
pub data Body {ℓ} (A : Type ℓ) : Type ℓ where
  malformed null : Body A
  object : CommonResponse A → Body A

pub record Response {ℓ} (A : Type ℓ) : Type ℓ where
  pub status : ℕ
  pub body : Body A

-- What a caller gets: the payload's data, an `ApiError`, or another error (of `fetch`, or of reading a
-- field of `null`).
pub data Outcome {ℓ} (A : Type ℓ) : Type ℓ where
  answered : Option A → Outcome A
  api_failed : String → Number → ℕ → Bool → Outcome A
  other_failed : Outcome A

abbrev pub Headers : Type 0
Headers = List (String × String)

-- `headers[name] = value`.
unfoldable pub set_header : String → String → Headers → Headers
set_header name value [] = (name, value) ∷ []
set_header name value ((other, old) ∷ headers) =
    let rest = set_header name value headers in
    if str_eq other name then (name, value) ∷ headers else (other, old) ∷ rest

abbrev pub from_entries : Headers → Headers → Headers
from_entries headers [] = headers
from_entries headers ((name, value) ∷ entries) =
    from_entries (set_header name value headers) entries

-- The headers that a caller gives, by their entries.
unfoldable pub normalize_headers : Option Headers → Headers
unfolding set_header
normalize_headers none = []
normalize_headers (some entries) = from_entries [] entries

-- The headers of a request.
unfoldable pub request_headers : Store → Option Headers → Headers
unfolding normalize_headers set_header get_session
request_headers store headers =
    let session = get_session store in
    let accepting = set_header "Accept" "application/json" (normalize_headers headers) in
    if str_eq session "" then accepting else set_header "X-CASSEM-SESSION" session accepting

-- `/i` of a pattern in lower case: it takes the ASCII letters alike.
abbrev lower : ℕ → ℕ
lower c = if leb 65 c && leb c 90 then c + 32 else c

abbrev begins : String → String → Bool
begins String.[] text = true
begins (String.◌∷◌ d pattern) String.[] = false
begins (String.◌∷◌ d pattern) (String.◌∷◌ c text) =
    let rest = begins pattern text in lower (code c) == code d && rest

unfoldable pub mentions : String → String → Bool
mentions pattern String.[] = begins pattern String.[]
mentions pattern (String.◌∷◌ c text) =
    let rest = mentions pattern text in begins pattern (String.◌∷◌ c text) || rest

abbrev pub is_code : Option Number → ℕ → Bool
is_code (some (nat m)) n = m == n
is_code _ n = false

abbrev pub text_of : Option String → String
text_of none = ""
text_of (some text) = text

unfoldable pub is_auth_error {ℓ} : {A : Type ℓ} → ℕ → CommonResponse A → Bool
unfolding mentions
is_auth_error status payload =
    let errmsg = text_of payload.errmsg in
    status == 401
    || is_code payload.errcode 16
    || mentions "unauthenticated" errmsg
    || mentions "session expired" errmsg
    || mentions "invalid session" errmsg

-- `response.ok`.
abbrev pub is_ok : ℕ → Bool
is_ok status = leb 200 status && leb status 299

abbrev pub http_message : ℕ → String
http_message status = join "HTTP " (decimal status)

abbrev pub code_or : Number → Option Number → Number
code_or fallback none = fallback
code_or fallback (some errcode) = errcode

-- `-1`.
abbrev pub no_code : Number
no_code = neg 0

abbrev pub fallback_payload {ℓ} : {A : Type ℓ} → ℕ → CommonResponse A
fallback_payload status = record {
  errcode = some no_code;
  errmsg = some (http_message status);
  data_ = none;
}

abbrev pub given_or : String → String → String
given_or text fallback = if str_eq text "" then fallback else text

-- The rest of `apiRequest` behind `response.json()`.
unfoldable pub read_payload {ℓ} : {A : Type ℓ} → ℕ → CommonResponse A → Store → Outcome A × Store
unfolding is_auth_error clear_session decimal
read_payload status payload store =
    let auth = is_auth_error status payload in
    let kept = if auth then clear_session store else store in
    if not (is_ok status) || not (is_code payload.errcode 0)
    then (
      api_failed (given_or (text_of payload.errmsg) (http_message status))
          (code_or no_code payload.errcode) status auth,
      kept,
    )
    else (answered payload.data_, kept)

-- The rest of `apiRequest` behind `fetch`.
unfoldable pub response_settled {ℓ} : {A : Type ℓ} → ℕ → Body A → Store → Outcome A × Store
unfolding read_payload
response_settled status malformed store = read_payload status (fallback_payload status) store
response_settled status null store = (other_failed, store)
response_settled status (object found) store = read_payload status found store

-- `fetch` gives no response if it fails.
unfoldable pub request_settled {ℓ} : {A : Type ℓ} → Option (Response A) → Store → Outcome A × Store
unfolding response_settled
request_settled none store = (other_failed, store)
request_settled (some response) store = response_settled response.status response.body store
