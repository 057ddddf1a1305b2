-- ===== src/Publish.antt =====
-- web/src/features/publish/PublishWizardPage.tsx, the wizard that publishes a version. `State` has the
-- component's state, `Handlers` a function for each handler, `Settled` what runs when a call of theirs
-- ends, `World` the events in any order, and the other modules what follows.
pub mod State
pub mod Settled
pub mod Handlers
pub mod World
pub mod Reviewed
pub mod Coherence
pub mod Editing
pub mod Answers
pub mod Events
mod Tests
