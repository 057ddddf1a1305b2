-- ===== src/Base/Decimal.antt =====
-- `String(n)` of a natural number: its decimal digits. (From 1e21 on the language prints an
-- exponent; version numbers stay far below.)
use Prim.Native.Char.{Char, code}
use Prim.Native.Nat.{ℕ, zero, suc, ◌+◌, ◌-◌, ◌*◌, ◌/◌, ◌%◌, ◌<◌}
use Prim.Native.String.{String}
use mathlib.Core.Path.{◌≡◌, refl, ap, sym, ◌∙◌}
use mathlib.Core.Logic.{inl, inr}
use native.Mathlib.Omega.{arith}
use cassem.Base.Tests.{ltb, if◌then◌else◌, Bool-cases}
use cassem.Base.Texts.{is_space, trim_start, trim_end, trim, is_blank}
use mathlib.Core.Bool.{false}

digit : ℕ → Char
digit zero = "0"
digit (suc zero) = "1"
digit (suc (suc zero)) = "2"
digit (suc (suc (suc zero))) = "3"
digit (suc (suc (suc (suc zero)))) = "4"
digit (suc (suc (suc (suc (suc zero))))) = "5"
digit (suc (suc (suc (suc (suc (suc zero)))))) = "6"
digit (suc (suc (suc (suc (suc (suc (suc zero))))))) = "7"
digit (suc (suc (suc (suc (suc (suc (suc (suc zero)))))))) = "8"
digit _ = "9"

decimal_from : ℕ → ℕ → String → String
decimal_from zero n acc = acc
decimal_from (suc f) n acc =
    let more = decimal_from f (n / 10) (String.◌∷◌ (digit (n % 10)) acc) in
    if ltb n 10 then String.◌∷◌ (digit n) acc else more

unfoldable pub decimal : ℕ → String
unfolding decimal_from digit
decimal n = decimal_from (suc n) n ""

-- The number that a run of digits stands for, behind the digits read so far.
value_from : ℕ → String → ℕ
value_from v String.[] = v
value_from v (String.◌∷◌ c s) = value_from (v * 10 + (code c - 48)) s

code-digit : (d : ℕ) → d < 10 → code (digit d) - 48 ≡ d
unfolding digit
code-digit zero h = refl
code-digit (suc zero) h = refl
code-digit (suc (suc zero)) h = refl
code-digit (suc (suc (suc zero))) h = refl
code-digit (suc (suc (suc (suc zero)))) h = refl
code-digit (suc (suc (suc (suc (suc zero))))) h = refl
code-digit (suc (suc (suc (suc (suc (suc zero)))))) h = refl
code-digit (suc (suc (suc (suc (suc (suc (suc zero))))))) h = refl
code-digit (suc (suc (suc (suc (suc (suc (suc (suc zero)))))))) h = refl
code-digit (suc (suc (suc (suc (suc (suc (suc (suc (suc zero))))))))) h = refl
code-digit (suc (suc (suc (suc (suc (suc (suc (suc (suc (suc d)))))))))) h = absurd (omega arith)

value_from-decimal_from :
    (f n : ℕ) (acc : String) → n < f → value_from 0 (decimal_from f n acc) ≡ value_from n acc
unfolding decimal_from value_from
value_from-decimal_from zero n acc h = elim h [ ]
value_from-decimal_from (suc f) n acc h = elim (Bool-cases (ltb n 10)) [
  | inl small ↦
      rw small (ap (λ (v : ℕ). value_from v acc) (omega (arith, code-digit n (ground arith))))
  | inr large ↦ rw large (
      value_from-decimal_from f (n / 10) (String.◌∷◌ (digit (n % 10)) acc) (ground arith)
      ∙ ap (λ (v : ℕ). value_from v acc) (omega (arith, code-digit (n % 10) (omega arith))))
]

-- Two numbers with the same digits are equal.
pub decimal_injective : (m n : ℕ) → decimal m ≡ decimal n → m ≡ n
unfolding decimal value_from
decimal_injective m n e =
    sym (value_from-decimal_from (suc m) m "" (omega arith))
    ∙ ap (value_from 0) e
    ∙ value_from-decimal_from (suc n) n "" (omega arith)

-- The number that a run of digits stands for.
unfoldable pub value_of : String → ℕ
unfolding value_from
value_of s = value_from 0 s

pub value_of-decimal : (n : ℕ) → value_of (decimal n) ≡ n
unfolding value_of decimal value_from
value_of-decimal n = value_from-decimal_from (suc n) n "" (omega arith)

-- A text without white space.
abbrev HasNoSpace : String → Type 0
HasNoSpace String.[] = Unit
HasNoSpace (String.◌∷◌ c s) = (is_space (code c) ≡ false) × HasNoSpace s

is_space-digit : (d : ℕ) → is_space (code (digit d)) ≡ false
unfolding digit is_space
is_space-digit zero = refl
is_space-digit (suc zero) = refl
is_space-digit (suc (suc zero)) = refl
is_space-digit (suc (suc (suc zero))) = refl
is_space-digit (suc (suc (suc (suc zero)))) = refl
is_space-digit (suc (suc (suc (suc (suc zero))))) = refl
is_space-digit (suc (suc (suc (suc (suc (suc zero)))))) = refl
is_space-digit (suc (suc (suc (suc (suc (suc (suc zero))))))) = refl
is_space-digit (suc (suc (suc (suc (suc (suc (suc (suc zero)))))))) = refl
is_space-digit (suc (suc (suc (suc (suc (suc (suc (suc (suc d))))))))) = refl

decimal_from-HasNoSpace :
    (f n : ℕ) (acc : String) → HasNoSpace acc → HasNoSpace (decimal_from f n acc)
unfolding decimal_from
decimal_from-HasNoSpace zero n acc h = h
decimal_from-HasNoSpace (suc f) n acc h = elim (Bool-cases (ltb n 10)) [
  | inl small ↦ rw small (is_space-digit n, h)
  | inr large ↦ rw large (
      decimal_from-HasNoSpace f (n / 10) (String.◌∷◌ (digit (n % 10)) acc)
        (is_space-digit (n % 10), h))
]

trim_start-HasNoSpace : (s : String) → HasNoSpace s → trim_start s ≡ s
unfolding trim_start
trim_start-HasNoSpace String.[] h = refl
trim_start-HasNoSpace (String.◌∷◌ c s) h = rw h.0

trim_end-HasNoSpace : (s : String) → HasNoSpace s → trim_end s ≡ s
unfolding trim_end
trim_end-HasNoSpace String.[] h = refl
trim_end-HasNoSpace (String.◌∷◌ c s) h =
    rw (trim_end-HasNoSpace s h.1)
      (elim (Bool-cases (is_blank s)) [ inl blank ↦ rw (blank, h.0) | inr text ↦ rw text ])

-- `trim` leaves a number as it is.
pub trim-decimal : (n : ℕ) → trim (decimal n) ≡ decimal n
unfolding trim decimal
trim-decimal n =
    let plain = decimal_from-HasNoSpace (suc n) n "" tt in
    rw (trim_start-HasNoSpace (decimal n) plain) (trim_end-HasNoSpace (decimal n) plain)
