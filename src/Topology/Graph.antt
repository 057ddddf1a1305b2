-- ===== src/Topology/Graph.antt =====
-- The graph of web/src/features/cluster/AgentsPage.tsx: where its nodes lie, and which are joined.
use cassem.Base.{
  ℕ, suc, ◌+◌, ◌-◌, ◌*◌, Bool, ◌&&◌, Option, none, some, List, [], ◌∷◌, ◌++◌, String, if◌then◌else◌,
  leb, length, max, map, is_empty,
}
use cassem.Topology.Nodes.{
  DbNode, AgentNode, Instance, TopologyNode, or_else, db_nodes, agent_nodes,
}
use cassem.Topology.Groups.{get_instance_graph_nodes}
use text.Mathlib.Text.{◌==◌ as str_eq}

-- A height in hundredths of the picture, as a fraction.
pub record Ratio : Type 0 where
  pub numerator : ℕ
  pub denominator : ℕ

abbrev pub layer_y : ℕ → ℕ → Ratio
layer_y index total =
    if leb total 1
    then record { numerator = 50; denominator = 1 }
    else record { numerator = 16 * (total - 1) + 68 * index; denominator = total - 1 }

pub record TopologyGraphNode : Type 0 where
  pub node : TopologyNode
  pub x : ℕ
  pub y : Ratio

abbrev pub position_from : ℕ → ℕ → ℕ → List TopologyNode → List TopologyGraphNode
position_from index total x [] = []
position_from index total x (node ∷ nodes) =
    record { node = node; x = x; y = layer_y index total } ∷ position_from (index + 1) total x nodes

unfoldable pub position_layer : ℕ → List TopologyNode → List TopologyGraphNode
position_layer x nodes = position_from 0 (length nodes) x nodes

-- The text of an edge: two ids, or an id and a count.
pub data EdgeLabel : Type 0 where
  connection : String → String → EdgeLabel
  instance_connection : String → ℕ → EdgeLabel

pub record TopologyEdge : Type 0 where
  pub from : TopologyGraphNode
  pub to : TopologyGraphNode
  pub label : EdgeLabel

pub record TopologyGraphModel : Type 0 where
  pub nodes : List TopologyGraphNode
  pub edges : List TopologyEdge
  pub height : ℕ

abbrev pub joined : TopologyGraphNode → TopologyGraphNode → TopologyEdge
joined from to = record { from = from; to = to; label = connection from.node.id to.node.id }

-- Every database with every agent.
unfoldable pub db_edges : List TopologyGraphNode → List TopologyGraphNode → List TopologyEdge
db_edges [] agents = []
db_edges (db_node ∷ db_nodes) agents = map (joined db_node) agents ++ db_edges db_nodes agents

-- `new Map(...)` keeps the last agent of an id.
abbrev pub last_with_id : String → List TopologyGraphNode → Option TopologyGraphNode
last_with_id id [] = none
last_with_id id (node ∷ nodes) = elim (last_with_id id nodes) [
  | some other ↦ some other
  | none ↦ if str_eq node.node.id id then some node else none
]

abbrev pub first_node : List TopologyGraphNode → Option TopologyGraphNode
first_node [] = none
first_node (node ∷ nodes) = some node

abbrev pub or_first : Option TopologyGraphNode → List TopologyGraphNode → Option TopologyGraphNode
or_first none agents = first_node agents
or_first (some agent) agents = some agent

-- `agentNodeById.get(instanceNode.attachedAgentId || '') || agentGraphNodes[0]`.
unfoldable pub agent_node_of : List TopologyGraphNode → TopologyGraphNode → Option TopologyGraphNode
agent_node_of agents node =
    or_first (last_with_id (or_else node.node.attached_agent_id "") agents) agents

-- A count of 0 is none.
abbrev pub instance_label : String → String → Option ℕ → EdgeLabel
instance_label from to none = connection from to
instance_label from to (some ℕ.zero) = connection from to
instance_label from to (some (suc n)) = instance_connection from (suc n)

abbrev pub instance_edge : Option TopologyGraphNode → TopologyGraphNode → List TopologyEdge
instance_edge none node = []
instance_edge (some agent) node =
    record {
      from = agent;
      to = node;
      label = instance_label agent.node.id node.node.id node.node.aggregate_count;
    }
    ∷ []

unfoldable pub instance_edges : List TopologyGraphNode → List TopologyGraphNode → List TopologyEdge
unfolding agent_node_of
instance_edges agents [] = []
instance_edges agents (node ∷ nodes) =
    instance_edge (agent_node_of agents node) node ++ instance_edges agents nodes

abbrev pub graph_of :
    List TopologyGraphNode → List TopologyGraphNode → List TopologyGraphNode → TopologyGraphModel
graph_of dbs agents instances = record {
  nodes = dbs ++ (agents ++ instances);
  edges = db_edges dbs agents ++ instance_edges agents instances;
  height = max 300 (max (length dbs) (max (length agents) (length instances)) * 116);
}

abbrev pub graph_of_nodes :
    (String → Option String)
    → List DbNode
    → List AgentNode
    → Option (List TopologyNode)
    → Option TopologyGraphModel
graph_of_nodes hostname_of dbs agents none = none
graph_of_nodes hostname_of dbs agents (some nodes) = some (
    graph_of (position_layer 15 (db_nodes hostname_of 0 dbs))
      (position_layer 50 (agent_nodes hostname_of 0 agents)) (position_layer 85 nodes))

-- `buildTopologyGraph`; `none` where the grouping of instances throws.
unfoldable pub build_topology_graph :
    (String → Option String)
    → List DbNode
    → List AgentNode
    → List Instance
    → Option TopologyGraphModel
unfolding db_edges instance_edges position_layer get_instance_graph_nodes db_nodes agent_nodes
build_topology_graph hostname_of dbs agents instances =
    graph_of_nodes hostname_of dbs agents (get_instance_graph_nodes instances)

unfoldable pub is_topology_empty : List DbNode → List AgentNode → List Instance → Bool
is_topology_empty dbs agents instances = is_empty dbs && is_empty agents && is_empty instances
