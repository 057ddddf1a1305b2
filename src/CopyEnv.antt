-- ===== src/CopyEnv.antt =====
-- web/src/features/envs/CopyEnvDialog.tsx, the dialog that copies the elements of one environment to a
-- new one. `Elements` lists the source, `Pool` is the workers, `Selection` and `Progress` the dialog's
-- state, and the other modules what follows.
pub mod Elements
pub mod Pages
pub mod Selection
pub mod Pool
pub mod Workers
pub mod Coverage
pub mod Progress
pub mod Outcome
pub mod Loads
mod Tests
