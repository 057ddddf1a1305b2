-- ===== src/Content/Parsers.antt =====
-- What web/src/features/elements/contentValidation.ts uses of the parsers of JSON and TOML and of the
-- language, in one parameter, and `validateContent` over it.
use cassem.Base.{ℕ, Bool, Option, String}
use cassem.Domain.{ContentType}
use cassem.Content.Validation.{ContentValidationResult, ParseError, validate_content}

pub record Parsers : Type 0 where
  pub json_error : String → Option ParseError
  pub toml_error : String → Option ParseError
  pub throws : ℕ → String → Bool
  pub number_of : String → Option ℕ

abbrev pub validate : Parsers → ContentType → String → ContentValidationResult
validate p content_type raw =
    validate_content p.json_error p.toml_error p.throws p.number_of content_type raw
