-- ===== src/Content/Validation.antt =====
-- `validateContent` of web/src/features/elements/contentValidation.ts. The parsers of JSON and TOML, and
-- `Number` of a text, are parameters.
use cassem.Base.{
  ℕ, ◌+◌, Bool, true, false, ◌&&◌, ◌||◌, Option, none, some, List, [], ◌∷◌, String, if◌then◌else◌,
  leb, ◌==◌, is_blank, trim, Text, codes, map,
}
use Prim.Native.Char.{code}
use cassem.Domain.{nat, ContentType, absent, number, name}
use cassem.Effects.{Message, label, verbatim}
use cassem.CopyEnv.Elements.{upper, texts_equal}
use cassem.Content.Ini.{split_lines, is_section, is_key_value}
use text.Mathlib.Text.{◌==◌ as str_eq}

pub record ContentDiagnostic : Type 0 where
  pub message : Message
  pub line : Option ℕ
  pub column : Option ℕ
  pub length : Option ℕ

pub record ContentValidationResult : Type 0 where
  pub valid : Bool
  pub message : Option Message
  pub line : Option ℕ
  pub column : Option ℕ
  pub diagnostics : List ContentDiagnostic

abbrev pub valid_result : ContentValidationResult
valid_result = record { valid = true; message = none; line = none; column = none; diagnostics = [] }

abbrev pub invalid_result : Message → Option ℕ → Option ℕ → Option ℕ → ContentValidationResult
invalid_result message line column length = record {
  valid = false;
  message = some message;
  line = line;
  column = column;
  diagnostics = record { message = message; line = line; column = column; length = length } ∷ [];
}

-- The validator has thrown.
abbrev pub unavailable_result : ContentValidationResult
unavailable_result = record {
  valid = false;
  message = some (label "elements.validation.unavailable");
  line = none;
  column = none;
  diagnostics = [];
}

-- What a parser's error says: its message, empty or not, and a place.
pub record ParseError : Type 0 where
  pub message : String
  pub line : Option ℕ
  pub column : Option ℕ

abbrev pub error_message : ParseError → String → Message
error_message error fallback =
    if str_eq error.message "" then label fallback else verbatim error.message

-- `String.prototype.length`: a character beyond U+FFFF counts twice.
abbrev pub utf16_length : String → ℕ
utf16_length String.[] = 0
utf16_length (String.◌∷◌ c text) =
    let rest = utf16_length text in if leb 65536 (code c) then rest + 2 else rest + 1

abbrev pub at_least_one : ℕ → ℕ
at_least_one n = if n == 0 then 1 else n

abbrev pub begins_comment : String → Bool
begins_comment String.[] = false
begins_comment (String.◌∷◌ c text) = code c == b';' || code c == b'#'

-- A line that the loop of `validateIni` passes.
unfoldable pub is_ini_line : String → Bool
unfolding trim is_section is_key_value
is_ini_line line =
    let trimmed = trim line in
    is_blank trimmed || begins_comment trimmed || is_section trimmed || is_key_value trimmed

abbrev pub ini_error : ℕ → String → ContentValidationResult
ini_error index line =
    invalid_result (label "elements.validation.invalidIni") (some (index + 1)) (some 1)
      (some (at_least_one (utf16_length line)))

-- The loop, from the line with this index.
unfoldable pub validate_lines : ℕ → List String → ContentValidationResult
unfolding is_ini_line
validate_lines index [] = valid_result
validate_lines index (line ∷ lines) =
    let rest = validate_lines (index + 1) lines in
    if is_ini_line line then rest else ini_error index line

unfoldable pub validate_ini : String → ContentValidationResult
unfolding validate_lines split_lines
validate_ini raw = validate_lines 0 (split_lines raw)

-- `throws` says of the key of a validator and a text whether the validator throws in spite of the `try`
-- around its parser, as where the error that it reads throws again.
module _ (json_error toml_error : String → Option ParseError) (throws : ℕ → String → Bool)
    (number_of : String → Option ℕ) where
  unfoldable pub validate_json : String → ContentValidationResult
  unfolding trim
  validate_json raw = if is_blank (trim raw) then valid_result else elim (json_error raw) [
    | none ↦ valid_result
    | some error ↦
        invalid_result (error_message error "elements.validation.invalidJson") (some 1) (some 1)
          none
  ]

  -- The column of the parser counts from 0.
  unfoldable pub validate_toml : String → ContentValidationResult
  unfolding trim
  validate_toml raw = if is_blank (trim raw) then valid_result else elim (toml_error raw) [
    | none ↦ valid_result
    | some error ↦
        invalid_result (error_message error "elements.validation.invalidToml") error.line
          (elim error.column [ none ↦ none | some column ↦ some (column + 1) ]) none
  ]

  -- `contentTypeNameKeys`, by a name in any case.
  abbrev pub names : List (String × ℕ)
  names = ("JSON", 1) ∷ ("TOML", 2) ∷ ("INI", 3) ∷ ("PLAINTEXT", 4) ∷ []

  abbrev key_of_name : Text → List (String × ℕ) → Option ℕ
  key_of_name text [] = none
  key_of_name text ((label_, key) ∷ more) =
      if texts_equal (codes label_) text then some key else key_of_name text more

  abbrev or_name : String → Option ℕ → Option ℕ
  or_name text (some key) = some key
  or_name text none = key_of_name (map upper (codes text)) names

  -- A negative number, like one that is not finite, is the key of no validator.
  unfoldable pub content_type_key : ContentType → Option ℕ
  unfolding upper
  content_type_key absent = none
  content_type_key (number (nat key)) = some key
  content_type_key (number _) = none
  content_type_key (name text) = or_name text (number_of text)

  unfoldable pub validate_content : ContentType → String → ContentValidationResult
  unfolding content_type_key validate_json validate_toml validate_ini
  validate_content content_type raw = elim (content_type_key content_type) [
    | none ↦ valid_result
    | some key ↦
        if (key == 1 || key == 2 || key == 3) && throws key raw
        then unavailable_result
        else if key == 1
        then validate_json raw
        else if key == 2
        then validate_toml raw
        else if key == 3
        then validate_ini raw
        else valid_result
  ]
