-- ===== src/Rollback.antt =====
-- web/src/features/publish/RollbackWizardPage.tsx, the wizard that rolls an element back to an older
-- published version. `State` has the component's state, `Handlers` a function for each handler,
-- `World` the events in any order, and the other modules what follows.
pub mod State
pub mod Handlers
pub mod World
pub mod Older
pub mod Coherence
pub mod Editing
pub mod Answers
pub mod Events
mod Tests
