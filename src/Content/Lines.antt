-- ===== src/Content/Lines.antt =====
-- What `raw.split(/\r?\n/)` gives, and what a section is, in web/src/features/elements/contentValidation.ts.
use cassem.Base.{
  ℕ, ◌≡◌, ◌≢◌, refl, sym, ap, ◌∙◌, subst, ◌↔◌, ◌⊎◌, inl, inr, Bool, true, false, not, ◌&&◌, ◌||◌,
  ◌==◌, List, [], ◌∷◌, String, arith, Bool-cases, is_blank,
}
use Prim.Native.String.{◌++◌ as join}
use Prim.Native.Char.{Char, code}
use text.Mathlib.TextLemmas.{nil-append, cons-append}
use cassem.Content.Ini.{is_line_end, begins_newline, prepend, split_lines, section_rest, is_section}
use cassem.Content.Patterns.{each}

abbrev pub no_newline : ℕ → Bool
no_newline c = not (c == 10)

abbrev pub ends_return : String → Bool
ends_return String.[] = false
ends_return (String.◌∷◌ c String.[]) = code c == 13
ends_return (String.◌∷◌ c (String.◌∷◌ d text)) = ends_return (String.◌∷◌ d text)

-- The lines of a text: each ends in a newline, with the return before it if there is one, but the last
-- one ends with the text.
pub data IsSplit : String → List String → Type 0 where
  last : (line : String) → each no_newline line ≡ true → IsSplit line (line ∷ [])
  newline :
      (line rest : String) (lines : List String) (end : Char)
      → each no_newline line ≡ true
      → ends_return line ≡ false
      → code end ≡ 10
      → IsSplit rest lines
      → IsSplit (join line (String.◌∷◌ end rest)) (line ∷ lines)
  return_newline :
      (line rest : String) (lines : List String) (return_ end : Char)
      → each no_newline line ≡ true
      → code return_ ≡ 13
      → code end ≡ 10
      → IsSplit rest lines
      → IsSplit (join line (String.◌∷◌ return_ (String.◌∷◌ end rest))) (line ∷ lines)

ends_return-cons :
    (c : Char) (line rest : String) (end : Char)
    → (code c == 13 && begins_newline (join line (String.◌∷◌ end rest))) ≡ false
    → code end ≡ 10
    → ends_return line ≡ false
    → ends_return (String.◌∷◌ c line) ≡ false
ends_return-cons c String.[] rest end h e r =
    let begins : begins_newline (join String.[] (String.◌∷◌ end rest)) ≡ true =
      ap begins_newline (nil-append (String.◌∷◌ end rest)) ∙ ground arith in
    ground arith
ends_return-cons c (String.◌∷◌ d line) rest end h e r = r

-- Another character in front of the first line.
prepend-IsSplit :
    (c : Char) {text : String} {lines : List String}
    → (code c == 10) ≡ false
    → (code c == 13 && begins_newline text) ≡ false
    → IsSplit text lines
    → IsSplit (String.◌∷◌ c text) (prepend c lines)
prepend-IsSplit c n r (last line h) = last (String.◌∷◌ c line) (ground arith)
prepend-IsSplit c n r (newline line rest lines end h e k s) =
    subst (λ text. IsSplit text (String.◌∷◌ c line ∷ lines))
      (cons-append c line (String.◌∷◌ end rest))
      (newline (String.◌∷◌ c line) rest lines end (ground arith)
        (ends_return-cons c line rest end r k e) k s)
prepend-IsSplit c n r (return_newline line rest lines return_ end h e k s) =
    subst (λ text. IsSplit text (String.◌∷◌ c line ∷ lines))
      (cons-append c line (String.◌∷◌ return_ (String.◌∷◌ end rest)))
      (return_newline (String.◌∷◌ c line) rest lines return_ end (ground arith) e k s)

-- A first character that begins no return with its newline.
front-IsSplit :
    (c : Char) (text : String)
    → (code c == 13 && begins_newline text) ≡ false
    → IsSplit text (split_lines text)
    → IsSplit (String.◌∷◌ c text) (split_lines (String.◌∷◌ c text))
unfolding split_lines
front-IsSplit c text plain s = elim (Bool-cases (code c == 10)) [
  | inl ends ↦ rw ends (
      subst (λ text_. IsSplit text_ ("" ∷ split_lines text)) (nil-append (String.◌∷◌ c text))
        (newline "" text (split_lines text) c refl refl (ground arith) s))
  | inr other ↦ rw (other, plain) (prepend-IsSplit c other plain s)
]

pub split_lines-IsSplit : (raw : String) → IsSplit raw (split_lines raw)
unfolding split_lines
split_lines-IsSplit String.[] = last "" refl
split_lines-IsSplit (String.◌∷◌ c String.[]) = front-IsSplit c "" (ground arith) (last "" refl)
split_lines-IsSplit (String.◌∷◌ c (String.◌∷◌ d text)) =
    elim (Bool-cases (code c == 13 && code d == 10)) [
      | inl both ↦
          let returns : (code c == 10) ≡ false = ground arith in
          let ends : (code d == 10) ≡ true = ground arith in
          rw (returns, both, ends)
            (subst (λ text_. IsSplit text_ ("" ∷ split_lines text))
              (nil-append (String.◌∷◌ c (String.◌∷◌ d text)))
              (return_newline "" text (split_lines text) c d refl (ground arith) (ground arith)
                (split_lines-IsSplit text)))
      | inr plain ↦
          front-IsSplit c (String.◌∷◌ d text) plain (split_lines-IsSplit (String.◌∷◌ d text))
    ]

-- `[^\]\r\n]`
abbrev pub in_section : ℕ → Bool
in_section c = not (c == b']' || is_line_end c)

-- `[^\]\r\n]+\]` to the end of the text.
pub record IsSectionRest (started : Bool) (text : String) : Type 0 where
  pub title : String
  pub bracket : Char
  pub split : text ≡ join title (String.◌∷◌ bracket "")
  pub inside : each in_section title ≡ true
  pub closes : code bracket ≡ b']'
  pub given : (started ≡ true) ⊎ (title ≢ "")

cons-given : (c : Char) (text : String) → String.◌∷◌ c text ≢ ""
cons-given c text e = cc

is_blank_lem : (text : String) → is_blank text ≡ true → text ≡ ""
is_blank_lem String.[] h = refl
is_blank_lem (String.◌∷◌ c text) h = cc

section_rest-IsSectionRest :
    (started : Bool) (text : String) → section_rest started text ≡ true → IsSectionRest started text
unfolding section_rest
section_rest-IsSectionRest started String.[] h = cc
section_rest-IsSectionRest started (String.◌∷◌ c text) h = elim (Bool-cases (code c == b']')) [
  | inl closes ↦
      let nothing : text ≡ "" = is_blank_lem text (ground arith) in
      record {
        title = "";
        bracket = c;
        split = ap (λ s. String.◌∷◌ c s) nothing ∙ sym (nil-append (String.◌∷◌ c ""));
        inside = refl;
        closes = ground arith;
        given = inl (ground arith);
      }
  | inr other ↦
      let s = section_rest-IsSectionRest true text (ground arith) in
      record {
        title = String.◌∷◌ c s.title;
        bracket = s.bracket;
        split =
            ap (λ more. String.◌∷◌ c more) s.split
            ∙ sym (cons-append c s.title (String.◌∷◌ s.bracket ""));
        inside = ground (arith, s.inside);
        closes = s.closes;
        given = inr (cons-given c s.title);
      }
]

section_rest-join :
    (started : Bool) (title : String) (bracket : Char)
    → each in_section title ≡ true
    → code bracket ≡ b']'
    → (started ≡ true) ⊎ (title ≢ "")
    → section_rest started (join title (String.◌∷◌ bracket "")) ≡ true
unfolding section_rest
section_rest-join started String.[] bracket i c (inl s) =
    rw (nil-append (String.◌∷◌ bracket "")) (ground arith)
section_rest-join started String.[] bracket i c (inr given) = absurd (given refl)
section_rest-join started (String.◌∷◌ d title) bracket i c g =
    rw (cons-append d title (String.◌∷◌ bracket ""))
      (ground (arith, section_rest-join true title bracket (ground arith) c (inl refl)))

-- A line is taken for a section exactly if it is a name in brackets.
pub is_section_iff :
    (c : Char) (text : String)
    → (is_section (String.◌∷◌ c text) ≡ true) ↔ ((code c ≡ b'[') × IsSectionRest false text)
unfolding is_section
is_section_iff c text = (
  λ h. (ground arith, section_rest-IsSectionRest false text (ground arith)),
  λ (opens, s).
      let rest : section_rest false text ≡ true =
        ap (section_rest false) s.split
        ∙ section_rest-join false s.title s.bracket s.inside s.closes s.given in
      ground (arith, opens, rest),
)
