-- ===== src/Content/Reported.antt =====
-- Which line of an INI text is reported.
use cassem.Base.{
  ℕ, ◌+◌, ◌≡◌, ◌≢◌, refl, sym, ap, ◌∙◌, ◌⊎◌, ◌↔◌, inl, inr, true, false, Bool, ◌||◌, some, List, [],
  ◌∷◌, ◌++◌, String, length, All, arith, Bool-cases, trim, is_blank,
}
use Prim.Native.Char.{Char, code}
use cassem.Effects.{label}
use cassem.Content.Ini.{split_lines, is_section, is_key_value, begins_key}
use cassem.Content.Patterns.{IsKeyRest, is_key_value_iff}
use cassem.Content.Lines.{IsSplit, IsSectionRest, is_section_iff, split_lines-IsSplit}
use cassem.Content.Validation.{
  ContentValidationResult, ContentDiagnostic, is_ini_line, begins_comment, utf16_length,
  at_least_one, validate_lines, validate_ini,
}

-- What is left of a line without the white space at its ends: nothing, a comment, a name in brackets, or
-- a key with its value.
pub data IsIniText : String → Type 0 where
  blank : IsIniText ""
  comment :
      (c : Char) (text : String) → (code c ≡ b';') ⊎ (code c ≡ b'#') → IsIniText (String.◌∷◌ c text)
  section :
      (c : Char) (text : String)
      → code c ≡ b'['
      → IsSectionRest false text
      → IsIniText (String.◌∷◌ c text)
  key_value :
      (c : Char) (text : String)
      → begins_key (code c) ≡ true
      → IsKeyRest text
      → IsIniText (String.◌∷◌ c text)

abbrev pub Passes : String → Type 0
Passes line = IsIniText (trim line)

passes_test : String → Bool
passes_test text = is_blank text || begins_comment text || is_section text || is_key_value text

passes_test-IsIniText : (text : String) → passes_test text ≡ true → IsIniText text
unfolding passes_test
passes_test-IsIniText String.[] h = blank
passes_test-IsIniText (String.◌∷◌ c text) h =
    elim (Bool-cases (begins_comment (String.◌∷◌ c text))) [
      | inl comments ↦ comment c text (ground arith)
      | inr no_comment ↦ elim (Bool-cases (is_section (String.◌∷◌ c text))) [
        | inl sections ↦
            let (opens, s) = (is_section_iff c text).0 sections in section c text opens s
        | inr no_section ↦
            let (begins, k) = (is_key_value_iff c text).0 (ground arith) in
            key_value c text begins k
      ]
    ]

IsIniText-passes_test : (text : String) → IsIniText text → passes_test text ≡ true
unfolding passes_test
IsIniText-passes_test text blank = refl
IsIniText-passes_test text (comment c more h) = ground arith
IsIniText-passes_test text (section c more opens s) =
    ground (arith, (is_section_iff c more).1 (opens, s))
IsIniText-passes_test text (key_value c more begins k) =
    ground (arith, (is_key_value_iff c more).1 (begins, k))

is_ini_line_iff : (line : String) → (is_ini_line line ≡ true) ↔ Passes line
unfolding is_ini_line passes_test
is_ini_line_iff line =
    (λ h. passes_test-IsIniText (trim line) h, λ p. IsIniText-passes_test (trim line) p)

-- A line without a character passes.
length_of_bad :
    (line : String)
    → is_ini_line line ≡ false
    → at_least_one (utf16_length line) ≡ utf16_length line
unfolding is_ini_line trim
length_of_bad String.[] h = cc
length_of_bad (String.◌∷◌ c text) h = ground arith

-- One diagnostic on a line, from its first column on.
abbrev pub marks : ℕ → ℕ → List ContentDiagnostic
marks line length_ =
    record {
      message = label "elements.validation.invalidIni";
      line = some line;
      column = some 1;
      length = some length_;
    }
    ∷ []

abbrev pub IsValid : ContentValidationResult → Type 0
IsValid result = (result.valid ≡ true) × (result.diagnostics ≡ [])

-- The first line that does not pass, behind lines that do; what marks it covers all of it.
pub record FirstBad (index : ℕ) (lines : List String) (result : ContentValidationResult)
    : Type 0 where
  pub before : List String
  pub bad : String
  pub after : List String
  pub split : lines ≡ before ++ bad ∷ after
  pub pass : All Passes before
  pub fails : Passes bad → ⊥
  pub invalid : result.valid ≡ false
  pub line : result.line ≡ some (index + length before + 1)
  pub column : result.column ≡ some 1
  pub marked : result.diagnostics ≡ marks (index + length before + 1) (utf16_length bad)

differ : false ≢ true
differ h = cc

validate_lines-FirstBad :
    (index : ℕ) (lines : List String)
    → (All Passes lines × IsValid (validate_lines index lines))
      ⊎ FirstBad index lines (validate_lines index lines)
unfolding validate_lines
validate_lines-FirstBad index [] = inl (tt, (refl, refl))
validate_lines-FirstBad index (line ∷ lines) = elim (Bool-cases (is_ini_line line)) [
  | inl passes ↦ elim (validate_lines-FirstBad (index + 1) lines) [
    | inl (all_pass, valid) ↦ rw passes (inl (((is_ini_line_iff line).0 passes, all_pass), valid))
    | inr f ↦
        let moved : index + 1 + length f.before + 1 ≡ index + length (line ∷ f.before) + 1 =
          omega arith in
        rw passes (
          inr (record {
            before = line ∷ f.before;
            bad = f.bad;
            after = f.after;
            split = ap (λ more. line ∷ more) f.split;
            pass = ((is_ini_line_iff line).0 passes, f.pass);
            fails = f.fails;
            invalid = f.invalid;
            line = f.line ∙ ap (λ n. some n) moved;
            column = f.column;
            marked = f.marked ∙ ap (λ n. marks n (utf16_length f.bad)) moved;
          }))
  ]
  | inr fails ↦ rw fails (
      inr (record {
        before = [];
        bad = line;
        after = lines;
        split = refl;
        pass = tt;
        fails = λ p. differ (sym fails ∙ (is_ini_line_iff line).1 p);
        invalid = refl;
        line = ap (λ n. some n) (omega arith);
        column = refl;
        marked =
            ap (λ n. marks n (at_least_one (utf16_length line))) (omega arith)
            ∙ ap (λ n. marks (index + 0 + 1) n) (length_of_bad line fails);
      }))
]

-- An INI text is valid exactly if each of its lines, without the white space at its ends, is blank, a
-- comment, a name in brackets or a key with its value; otherwise the first line that is none of them is
-- reported, by its number from 1, and marked from its first column on over its whole length. The lines
-- end in newlines, with the return before one if there is one.
pub validate_ini-FirstBad :
    (raw : String)
    → (lines : List String) × IsSplit raw lines
      × ((All Passes lines × IsValid (validate_ini raw)) ⊎ FirstBad 0 lines (validate_ini raw))
unfolding validate_ini
validate_ini-FirstBad raw =
    (split_lines raw, split_lines-IsSplit raw, validate_lines-FirstBad 0 (split_lines raw))
