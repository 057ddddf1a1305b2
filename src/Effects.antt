-- ===== src/Effects.antt =====
-- What a page does besides changing its own state: toasts (web/src/components/ToastProvider.tsx),
-- navigation, and the outcome of an awaited API call (web/src/lib/api.ts).
use cassem.Base.{ℕ, String, Option, none, some, List, []}

pub data Severity : Type 0 where
  success error warning info : Severity

-- A parameter of a catalogue text: a text, a count, or another catalogue text in lower case.
pub data Argument : Type 0 where
  text : String → Argument
  count : ℕ → Argument
  lower_case : String → Argument

-- A text of the catalogue by its key with its parameters, or a text of the server.
pub data Message : Type 0 where
  translated : String → List (String × Argument) → Message
  verbatim : String → Message

-- `n ?? '-'` as a parameter.
abbrev pub count_or_dash : Option ℕ → Argument
count_or_dash none = text "-"
count_or_dash (some n) = count n

-- A text without parameters.
abbrev pub label : String → Message
label key = translated key []

pub data Effect : Type 0 where
  show_toast : Message → Severity → Effect
  navigate_to_detail : Effect

-- What `catch (err)` sees: an `ApiError` with its message, or any other error.
pub data Failure : Type 0 where
  api_error : String → Failure
  other_error : Failure

-- How an awaited call ends.
pub data Reply {ℓ} (A : Type ℓ) : Type ℓ where
  resolved : A → Reply A
  rejected : Failure → Reply A

-- `error instanceof ApiError ? error.message : fallback`.
unfoldable pub get_error_message : Failure → Message → Message
get_error_message (api_error message) fallback = verbatim message
get_error_message other_error fallback = fallback
