-- ===== src/Instances.antt =====
-- web/src/features/cluster/InstancesPage.tsx: the instances that watch an element, the menus of the
-- filter, and the detail of an instance.
pub mod State
pub mod Handlers
pub mod World
pub mod Shown
pub mod Reactions
pub mod Answers
pub mod Opening
pub mod Latest
pub mod Menus
mod Tests
