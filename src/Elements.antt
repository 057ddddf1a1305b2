-- ===== src/Elements.antt =====
-- web/src/features/elements/ElementsPage.tsx, the paged list of the elements of an environment with
-- the dialogs that create and delete one.
pub mod State
pub mod Handlers
pub mod World
pub mod Listed
pub mod Loading
pub mod Reactions
pub mod Ended
pub mod Answers
pub mod Rest
pub mod Moved
pub mod Created
mod Tests
