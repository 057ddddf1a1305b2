-- ===== src/Topology.antt =====
-- web/src/features/cluster/AgentsPage.tsx: the page of the cluster's topology and the graph that it
-- draws. Colours, icons and the identifiers of the drawn parts are left out.
pub mod Nodes
pub mod Groups
pub mod Graph
pub mod Weights
pub mod Drawn
pub mod Page
pub mod Agrees
mod Tests
