-- ===== src/Content/Tests.antt =====
-- Validation of content at concrete inputs.
use cassem.Base.{
  ℕ, Bool, List, some, ◌≤◌, arith, ◌≡◌, refl, ◌↔◌, ◌⊎◌, true, false, Option, none, [], ◌∷◌, String,
  All,
}
use Prim.Native.Char.{code}
use cassem.Domain.{name}
use cassem.Content.Ini.{split_lines, is_section, is_key_value, begins_key}
use cassem.Effects.{label}
use cassem.Content.Validation.{
  ContentDiagnostic, ParseError, valid_result, unavailable_result, ini_error, is_ini_line,
  validate_ini, validate_content,
}
use cassem.Content.Diagnostics.{diagnostic_range, IsIn, marked_line, end_of, diagnostic_range-IsIn}
use cassem.Content.Patterns.{IsKeyRest, is_key_value_iff}
use cassem.Content.Lines.{IsSplit}
use cassem.Content.Reported.{Passes, IsValid, FirstBad, validate_ini-FirstBad}

editor : Unit {0}
unfolding validate_ini validate_content is_ini_line is_key_value is_section split_lines
editor = tt

abbrev text_of : String
text_of = "; comment\r\n[db]\nhost = a=b\n\nbroken"

lines : split_lines text_of ≡ "; comment" ∷ "[db]" ∷ "host = a=b" ∷ "" ∷ "broken" ∷ []
unfolding editor
lines = refl

fifth_line : validate_ini text_of ≡ ini_error 4 "broken"
unfolding editor
fifth_line = refl

-- `[a]b]` is no section, and `=b` has no key.
refused :
    (is_section "[a]b]" ≡ false) × (is_key_value "=b" ≡ false) × (is_key_value "a\rb=c" ≡ false)
unfolding editor
refused = (refl, refl, refl)

abbrev accepts : String → Option ParseError
accepts raw = none

abbrev never : ℕ → String → Bool
never key raw = false

named_ini :
    validate_content accepts accepts never (λ text. none) (name "Ini") "broken"
    ≡ ini_error 0 "broken"
unfolding editor
named_ini = refl

-- A validator that throws, and a type that has none.
thrown :
    (validate_content accepts accepts (λ key raw. true) (λ text. none) (name "Toml") "a = 1"
      ≡ unavailable_result)
    × (validate_content accepts accepts (λ key raw. true) (λ text. none) (name "PlainText") "a = 1"
        ≡ valid_result)
unfolding editor
thrown = (refl, refl)

validate_ini-FirstBad_example :
    (split : List String) × IsSplit text_of split
    × ((All Passes split × IsValid (validate_ini text_of))
        ⊎ FirstBad 0 split (validate_ini text_of))
validate_ini-FirstBad_example = validate_ini-FirstBad text_of

is_key_value_iff_example :
    (is_key_value "host=a" ≡ true) ↔ ((begins_key (code "h") ≡ true) × IsKeyRest "ost=a")
is_key_value_iff_example = is_key_value_iff "h" "ost=a"

-- An error at the end of `a =`, the second of two lines.
abbrev at_end : ContentDiagnostic
at_end = record {
  message = label "elements.validation.invalidToml";
  line = some 2;
  column = some 4;
  length = none;
}

-- The document ends at 7.
behind_the_end : diagnostic_range (3 ∷ 3 ∷ []) at_end ≡ record { from = 7; to = 8 }
unfolding diagnostic_range
behind_the_end = refl

diagnostic_range-IsIn_example :
    IsIn (marked_line (3 ∷ 3 ∷ []) at_end) (diagnostic_range (3 ∷ 3 ∷ []) at_end)
    × ((marked_line (3 ∷ 3 ∷ []) at_end).to ≤ end_of 0 (3 ∷ 3 ∷ []))
diagnostic_range-IsIn_example = diagnostic_range-IsIn (3 ∷ 3 ∷ []) at_end (omega arith)
