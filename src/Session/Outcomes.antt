-- ===== src/Session/Outcomes.antt =====
-- What a caller of `apiRequest` (web/src/lib/api.ts) gets, and when the session is cleared.
use cassem.Base.{
  ℕ, true, false, not, ◌||◌, Option, none, some, if◌then◌else◌, ◌≡◌, ◌≢◌, refl, sym, ap, ◌∙◌, ◌⊎◌,
  arith, Bool-cases, inl, inr, eq_iff,
}
use cassem.Base.Decimal.{decimal}
use cassem.Domain.{Number, nat, neg, infinity, nan}
use cassem.Session.Storage.{Store, clear_session}
use cassem.Session.Api.{
  CommonResponse, Outcome, answered, api_failed, other_failed, read_payload, is_ok, is_code,
  is_auth_error, code_or, no_code, http_message, text_of,
}
use text.Mathlib.Text.{◌==◌ as str_eq}
use text.Mathlib.TextLemmas.{append-eq-nil_iff}

-- What a payload means to the caller.
abbrev pub IsRead : {A : Type 0} → ℕ → CommonResponse A → Outcome A → Type 0
IsRead status payload (answered found) =
    (is_ok status ≡ true) × (payload.errcode ≡ some (nat 0)) × (found ≡ payload.data_)
IsRead status payload (api_failed message errcode failed_status auth) =
    ((is_ok status ≡ false) ⊎ (payload.errcode ≢ some (nat 0)))
    × (message ≢ "")
    × ((message ≡ text_of payload.errmsg) ⊎ (text_of payload.errmsg ≡ ""))
    × (errcode ≡ code_or no_code payload.errcode)
    × (failed_status ≡ status)
    × (auth ≡ is_auth_error status payload)
IsRead status payload other_failed = ⊥

differ : false ≢ true
differ h = cc

http_message-given : (status : ℕ) → http_message status ≢ ""
http_message-given status = λ e.
    let nothing : "HTTP " ≡ "" = ((append-eq-nil_iff {p = "HTTP "} {q = decimal status}).0 e).0 in
    differ ((eq_iff "HTTP " "").1 nothing)

is_code_lem : (errcode : Option Number) (n : ℕ) → is_code errcode n ≡ true → errcode ≡ some (nat n)
is_code_lem (some (nat m)) n h = ground arith
is_code_lem none n h = cc
is_code_lem (some (neg m)) n h = cc
is_code_lem (some (infinity b)) n h = cc
is_code_lem (some nan) n h = cc

fails_lem :
    (status : ℕ) (errcode : Option Number)
    → (not (is_ok status) || not (is_code errcode 0)) ≡ true
    → (is_ok status ≡ false) ⊎ (errcode ≢ some (nat 0))
fails_lem status errcode bad = elim (Bool-cases (is_ok status)) [
  | inl ok ↦ inr (λ e. differ (sym (ground arith) ∙ ap (λ c. is_code c 0) e))
  | inr failed ↦ inl failed
]

-- A payload that is read gives its data exactly with a status of success and the code 0, and otherwise
-- an error with a message that is not empty, the payload's own unless that is empty, with the payload's
-- code, the status, and whether it is an error of the session;
-- the stored session is cleared exactly on an error of the session.
pub read_payload-IsRead :
    {A : Type 0} (status : ℕ) (payload : CommonResponse A) (store : Store)
    → let (outcome, kept) = read_payload status payload store in
      IsRead status payload outcome
      × (kept ≡ (if is_auth_error status payload then clear_session store else store))
unfolding read_payload
read_payload-IsRead status payload store =
    elim (Bool-cases (not (is_ok status) || not (is_code payload.errcode 0))) [
      | inl bad ↦
          let why = fails_lem status payload.errcode bad in
          elim (Bool-cases (str_eq (text_of payload.errmsg) "")) [
            | inl silent ↦
                rw (bad, silent)
                  (
                    (
                      why,
                      http_message-given status,
                      inr ((eq_iff (text_of payload.errmsg) "").0 silent),
                      refl,
                      refl,
                      refl,
                    ),
                    refl,
                  )
            | inr told ↦
                rw (bad, told)
                  (
                    (
                      why,
                      ground (arith, eq_iff (text_of payload.errmsg) ""),
                      inl refl,
                      refl,
                      refl,
                      refl,
                    ),
                    refl,
                  )
          ]
      | inr good ↦
          rw good ((ground arith, is_code_lem payload.errcode 0 (ground arith), refl), refl)
    ]
