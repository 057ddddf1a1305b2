-- ===== src/Users.antt =====
-- web/src/features/users/UsersPage.tsx: the accounts, their access bindings, and the dialogs that
-- change them.
pub mod Scopes
pub mod State
pub mod Handlers
pub mod Access
pub mod World
pub mod Exclusive
pub mod Reactions
pub mod Settled
pub mod Locked
mod Tests
