-- ===== src/Session.antt =====
-- The session of the console: web/src/lib/session.ts, web/src/lib/api.ts,
-- web/src/auth/AuthProvider.tsx and web/src/auth/RequireAuth.tsx.
pub mod Storage
pub mod Api
pub mod Outcomes
pub mod Carried
pub mod Auth
pub mod Expiry
mod Tests
