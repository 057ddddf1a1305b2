-- ===== src/Content.antt =====
-- web/src/features/elements/contentValidation.ts: whether a text is valid content of its type.
pub mod Ini
pub mod Validation
pub mod Parsers
pub mod Patterns
pub mod Lines
pub mod Reported
pub mod Diagnostics
mod Tests
