-- ===== src/Detail.antt =====
-- web/src/features/elements/ElementDetailPage.tsx, the page of one element: its content, its
-- versions with their differences, its operations, and the dialog that makes a new version.
pub mod State
pub mod Loading
pub mod Handlers
pub mod World
pub mod Shown
pub mod Kept
pub mod Reactions
pub mod Settled
pub mod Latest
pub mod Published
pub mod Moved
pub mod Diff
mod Tests
