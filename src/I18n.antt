-- ===== src/I18n.antt =====
-- The texts of the console in two languages: web/src/i18n/locale.ts, web/src/i18n/store.ts and
-- web/src/i18n/I18nProvider.tsx. The catalogues are parameters.
pub mod Locale
pub mod Placeholders
mod Tests
