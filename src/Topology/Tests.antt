-- ===== src/Topology/Tests.antt =====
-- Runs of the page of the topology, and its theorems at concrete inputs.
use cassem.Base.{
  ◌≡◌, refl, ◌⊎◌, true, false, ◌&&◌, Option, none, some, List, [], ◌∷◌, ◌++◌, String, All,
}
use cassem.Domain.{nat}
use cassem.Session.Storage.{Store, clear_session}
use cassem.Session.Api.{CommonResponse, is_auth_error, read_payload}
use cassem.Topology.Nodes.{DbNode, AgentNode, Instance, TopologyNode, db_nodes, agent_nodes}
use cassem.Topology.Groups.{get_instance_graph_nodes, entry_nodes}
use cassem.Topology.Graph.{build_topology_graph, position_layer, TopologyGraphModel, graph_of}
use cassem.Topology.Page.{TopologyData, enveloped, read_topology}
use cassem.Topology.Weights.{
  throws, weight_of, instances_of, IsAggregated, get_instance_graph_nodes-weight_of,
}
use cassem.Topology.Drawn.{IsDrawn, build_topology_graph-IsDrawn}
use cassem.Topology.Agrees.{topology_of, is_failure, read_topology-read_payload}

abbrev hostname_of : String → Option String
hostname_of text = none

abbrev instance_of : String → Instance
instance_of agent_id = record {
  client_id = none;
  agent_id = some agent_id;
  client_ip = none;
  health = none;
  last_renew_timestamp = none;
}

abbrev agent_node : AgentNode
agent_node = record { agent_id = some "a"; addr = some "http:10.0.0.1"; ip = none; health = none }

abbrev instances : List Instance
instances = instance_of "a" ∷ instance_of "b" ∷ instance_of "a" ∷ []

get_instance_graph_nodes-weight_of_example :
    ((get_instance_graph_nodes instances ≡ none) × (throws instances ≡ true))
    ⊎ ((nodes : List TopologyNode) × (get_instance_graph_nodes instances ≡ some nodes)
        × (throws instances ≡ false)
        × ((key : String) → weight_of key nodes ≡ instances_of key instances)
        × All IsAggregated nodes)
get_instance_graph_nodes-weight_of_example = get_instance_graph_nodes-weight_of instances

-- An agent with the name of an inherited key.
constructor_throws : get_instance_graph_nodes (instance_of "constructor" ∷ []) ≡ none
unfolding get_instance_graph_nodes
constructor_throws = refl

abbrev nodes : List TopologyNode
nodes =
    entry_nodes ("a", instance_of "a" ∷ instance_of "a" ∷ [])
    ++ entry_nodes ("b", instance_of "b" ∷ [])

abbrev db_node : DbNode
db_node = record { id = some "d"; addr = some "10.0.0.2:2021"; ip = none; health = none }

abbrev graph : TopologyGraphModel
graph =
    graph_of (position_layer 15 (db_nodes hostname_of 0 (db_node ∷ [])))
      (position_layer 50 (agent_nodes hostname_of 0 (agent_node ∷ []))) (position_layer 85 nodes)

build_topology_graph-IsDrawn_example :
    (drawn : List TopologyNode) × (get_instance_graph_nodes instances ≡ some drawn)
    × IsDrawn
        (position_layer 15 (db_nodes hostname_of 0 (db_node ∷ [])))
        (position_layer 50 (agent_nodes hostname_of 0 (agent_node ∷ [])))
        (position_layer 85 drawn)
        graph
unfolding get_instance_graph_nodes build_topology_graph
build_topology_graph-IsDrawn_example =
    build_topology_graph-IsDrawn hostname_of (db_node ∷ []) (agent_node ∷ []) instances graph refl

abbrev expired : CommonResponse TopologyData
expired = record { errcode = some (nat 16); errmsg = some "session expired"; data_ = none }

abbrev store : Store
store = λ key. none

read_topology-read_payload_example :
    let e = read_topology 401 (enveloped expired) store in
    let (outcome, kept) = read_payload 401 expired store in
    (e.outcome ≡ topology_of outcome)
    × (e.opens_login ≡ (is_failure 401 expired && is_auth_error 401 expired))
    × ((e.store ≡ kept)
        ⊎ ((is_failure 401 expired ≡ false)
            × (is_auth_error 401 expired ≡ true)
            × (e.store ≡ store)
            × (kept ≡ clear_session store)))
read_topology-read_payload_example = read_topology-read_payload 401 expired store
