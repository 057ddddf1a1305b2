-- ===== src/Lib.antt =====
-- cassem is a configuration centre: Go services (internal/) keep the configuration elements of
-- apps and their environments in versions and deliver them to clients, and a web console
-- (web/src/) edits, publishes and rolls them back. This library models the console: the pages
-- where a click may lead to a change that clients see, and the session and the texts below
-- them. Paths are from the root of the repository.
--
-- How a page is modelled. A page of the console is a React component: its state is a record
-- (State), with the refs that it keeps beside its state (whether it is mounted, counters of
-- requests). A handler is a function of the state; at an `await` it is cut: the part before
-- gives a new state and the call that is awaited (a Job, with what the closure holds), and a
-- `..._settled` function is the part behind, by the outcome of the call. Where order matters, a
-- World is a page with its calls under way, a Step is an event of the user whose control is
-- enabled, or the end of any of these calls with any answer, and Reach is what can come of a
-- fresh page; the theorems hold of every world that is reached. Toasts and navigation are
-- values (Effects).
--
-- The files:
-- - Base: lists, texts, Boolean tests on numbers; Base/Decimal prints a number, Base/Pick says
--   that one of several calls ends.
-- - Domain: web/src/domain/types.ts (elements, their metadata, numbers of a JSON payload).
--   Effects: toasts (web/src/components/ToastProvider.tsx), replies and getErrorMessage.
-- - Workflow: web/src/features/publish/workflowOptions.ts: toVersionOptions, getUsingVersion,
--   uniqueStrings (to_version_options, get_using_version, unique_strings); Workflow/Order and
--   Workflow/Unique hold the proofs.
-- - Publish: web/src/features/publish/PublishWizardPage.tsx. Publish/State, Publish/Settled
--   (what runs when a call ends) and Publish/Handlers are the page (loadOptions,
--   handleLoadDiffAndAdvance, handlePublish, handleNext, handleBack and the fields),
--   Publish/World its steps, Publish/Reviewed the invariant, Publish/Coherence, Editing and
--   Answers its preservation by each handler, Publish/Events by each step.
-- - Rollback: web/src/features/publish/RollbackWizardPage.tsx, in the same files;
--   Rollback/Older is the invariant, and Rollback/Handlers holds all its handlers.
-- - CopyEnv: web/src/features/envs/CopyEnvDialog.tsx. CopyEnv/Elements is requestAllElements
--   with CopyEnv/Pages, CopyEnv/Selection the creation step, CopyEnv/Pool runWorkers and
--   copyElement with CopyEnv/Workers and CopyEnv/Coverage, CopyEnv/Progress startCopy with
--   CopyEnv/Outcome, CopyEnv/Loads the loading of a source.
-- - Instances: web/src/features/cluster/InstancesPage.tsx. Instances/Handlers is the page,
--   Instances/World its steps; Instances/Shown, Opening, Reactions, Answers and Latest prove
--   what it shows, Instances/Menus what its menu of apps offers.
-- - Users: web/src/features/users/UsersPage.tsx. Users/Scopes is buildDomain with the menus of
--   scopes, Users/Handlers, Users/Access (the dialog of roles) and Users/World the page;
--   Users/Exclusive, Reactions, Settled and Locked prove that it is locked while a change is
--   under way.
-- - Elements: web/src/features/elements/ElementsPage.tsx. Elements/State and Elements/Handlers
--   are the page (loadElements, handleCreate, handleDelete and the fields), Elements/World its
--   steps; Elements/Listed is the specification of a listing and the invariant, Loading,
--   Reactions, Ended and Answers prove it, Rest that the page comes to rest, Created what it
--   asks the server to change, Moved what another location under it does.
-- - Detail: web/src/features/elements/ElementDetailPage.tsx, with decodeRaw of
--   web/src/lib/raw.ts. Detail/State, Detail/Loading and Detail/Handlers are the page
--   (loadPage, handleOpenNewVersion, handleSubmitNewVersion, handlePublishDirectly,
--   handleLoadDiff), Detail/World its steps; Detail/Shown is the invariant, Kept, Reactions,
--   Settled and Latest prove it, Published which version is published, Diff the first diff,
--   Moved what another location does.
-- - Apps: web/src/features/apps/AppsPage.tsx, the list with its dialogs; Apps/World is its
--   steps, Apps/Held its invariant, which Ready, Reactions, Settled and Latest prove, and
--   Apps/Paging is how its pages are turned.
-- - Topology: web/src/features/cluster/AgentsPage.tsx. Topology/Nodes is extractHost with the
--   nodes of databases and agents, Topology/Groups groupInstancesByAgent and
--   getInstanceGraphNodes with Topology/Weights, Topology/Graph buildTopologyGraph with
--   Topology/Drawn, Topology/Page requestTopology and loadTopology with Topology/Agrees.
-- - Session: web/src/lib/session.ts (Session/Storage), apiRequest of web/src/lib/api.ts
--   (Session/Api, with Outcomes and Carried), web/src/auth/ (Session/Auth, with Expiry).
-- - Settings: web/src/lib/settings.ts. Content: web/src/features/elements/contentValidation.ts;
--   Content/Ini scans its lines and patterns, with Lines and Patterns, Content/Validation is
--   the rest, with Reported; Content/Diagnostics is diagnosticRange of
--   web/src/features/elements/contentDiagnostics.ts. I18n: web/src/i18n/locale.ts (I18n/Locale,
--   with Placeholders).
--
-- Bounds and fuel. Versions, counts and sequence numbers are natural numbers: the code has
-- doubles, which are exact up to 2^53. A number of a payload is a natural, a negative, an
-- infinity or NaN (no field carries a fraction). Only requestAllElements runs on fuel, one unit
-- for each page; as many units as the server has pages are enough. The copies of an environment
-- run four at a time as the code has it.
--
-- Parameters. The server is a parameter: its answers are arguments of the `..._settled`
-- functions, and a function only where a theorem needs it to be consistent. The printer and the
-- parsers of JSON and TOML and the catalogues of texts are parameters too; a theorem that needs
-- a law of theirs has it among its hypotheses.
--
-- Not modelled: rendering, styles and routing; the page of environments and the editor; the Go
-- services, which the console reaches by HTTP only; generated code.
pub mod Apps
pub mod Base
pub mod Content
pub mod CopyEnv
pub mod Detail
pub mod Domain
pub mod Effects
pub mod Elements
pub mod I18n
pub mod Instances
pub mod Publish
pub mod Rollback
pub mod Session
pub mod Settings
pub mod Topology
pub mod Users
pub mod Workflow
