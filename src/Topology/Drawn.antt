-- ===== src/Topology/Drawn.antt =====
-- Which nodes of the graph are joined, and that a layer lies within the picture.
use cassem.Base.{
  ℕ, ◌+◌, ◌*◌, ◌≤◌, ◌<◌, ◌≡◌, refl, sym, ap, ◌∙◌, subst, ◌⊎◌, inl, inr, ◌≢◌, true, false, Option,
  none, some, List, [], ◌∷◌, ◌++◌, String, arith, leb, length, map, All, Bool-cases, Option-cases,
  eq_iff,
}
use cassem.Topology.Nodes.{
  DbNode, AgentNode, Instance, TopologyNode, or_else, db_nodes, agent_nodes,
}
use cassem.Topology.Groups.{get_instance_graph_nodes}
use cassem.Topology.Graph.{
  TopologyGraphNode, position_from, position_layer, TopologyEdge, TopologyGraphModel, joined,
  db_edges, last_with_id, first_node, or_first, agent_node_of, instance_edges, graph_of,
  graph_of_nodes, build_topology_graph,
}
use text.Mathlib.Text.{◌==◌ as str_eq}

-- The id of the agent that a node is attached to.
abbrev pub attached_id : TopologyGraphNode → String
attached_id node = or_else node.node.attached_agent_id ""

abbrev pub HasId : String → List TopologyGraphNode → TopologyGraphNode → Type 0
HasId id [] agent = ⊥
HasId id (other ∷ others) agent = ((agent ≡ other) × (other.node.id ≡ id)) ⊎ HasId id others agent

-- An edge comes from an agent with the id that its node is attached to, or from the first agent if no
-- agent has this id.
abbrev pub IsJoined : List TopologyGraphNode → TopologyEdge → Type 0
IsJoined agents edge =
    HasId (attached_id edge.to) agents edge.from
    ⊎ ((first_node agents ≡ some edge.from)
        × All (λ (agent : TopologyGraphNode). agent.node.id ≢ attached_id edge.to) agents)

last_with_id-HasId :
    (id : String) (agents : List TopologyGraphNode)
    → ((agent : TopologyGraphNode) × (last_with_id id agents ≡ some agent) × HasId id agents agent)
      ⊎ ((last_with_id id agents ≡ none)
          × All (λ (agent : TopologyGraphNode). agent.node.id ≢ id) agents)
last_with_id-HasId id [] = inr (refl, tt)
last_with_id-HasId id (node ∷ nodes) = elim (last_with_id-HasId id nodes) [
  | inl (agent, e, h) ↦ inl (agent, rw e refl, inr h)
  | inr (e, others) ↦ elim (Bool-cases (str_eq node.node.id id)) [
    | inl same ↦ inl (node, rw (e, same) refl, inl (refl, (eq_iff node.node.id id).0 same))
    | inr other ↦ inr (
      rw (e, other) refl,
      (λ q. false-ne-true (sym other ∙ (eq_iff node.node.id id).1 q), others),
    )
  ]
]
  where
    false-ne-true : false ≢ true
    false-ne-true e = cc

agent_node_of-IsJoined :
    (first : TopologyGraphNode) (agents : List TopologyGraphNode) (node : TopologyGraphNode)
    → (agent : TopologyGraphNode) × (agent_node_of (first ∷ agents) node ≡ some agent)
      × (HasId (attached_id node) (first ∷ agents) agent
          ⊎ ((first_node (first ∷ agents) ≡ some agent)
              × All
                  (λ (other : TopologyGraphNode). other.node.id ≢ attached_id node)
                  (first ∷ agents)))
unfolding agent_node_of
agent_node_of-IsJoined first agents node =
    elim (last_with_id-HasId (attached_id node) (first ∷ agents)) [
      | inl (agent, e, h) ↦ (agent, ap (λ found. or_first found (first ∷ agents)) e, inl h)
      | inr (e, others) ↦
          (first, ap (λ found. or_first found (first ∷ agents)) e, inr (refl, others))
    ]

abbrev pub ends : List TopologyEdge → List TopologyGraphNode
ends = map (λ (edge : TopologyEdge). edge.to)

instance_edges-IsJoined :
    (first : TopologyGraphNode) (agents nodes : List TopologyGraphNode)
    → (ends (instance_edges (first ∷ agents) nodes) ≡ nodes)
      × All (IsJoined (first ∷ agents)) (instance_edges (first ∷ agents) nodes)
unfolding instance_edges
instance_edges-IsJoined first agents [] = (refl, tt)
instance_edges-IsJoined first agents (node ∷ nodes) =
    let (agent, e, h) = agent_node_of-IsJoined first agents node in
    let (rest, joined_) = instance_edges-IsJoined first agents nodes in
    rw e (ap (λ more. node ∷ more) rest, (h, joined_))

instance_edges-none : (nodes : List TopologyGraphNode) → instance_edges [] nodes ≡ []
unfolding instance_edges agent_node_of
instance_edges-none [] = refl
instance_edges-none (node ∷ nodes) = instance_edges-none nodes

-- The edges of one database: one to each agent.
pub record IsRow (db_node : TopologyGraphNode) (agents : List TopologyGraphNode)
    (row : List TopologyEdge) : Type 0 where
  pub from_db : All (λ (edge : TopologyEdge). edge.from ≡ db_node) row
  pub to_each : ends row ≡ agents

-- One row behind the other, for each database.
abbrev pub JoinsEach : List TopologyGraphNode → List TopologyGraphNode → List TopologyEdge → Type 0
JoinsEach [] agents edges = edges ≡ []
JoinsEach (db_node ∷ dbs) agents edges =
    (row : List TopologyEdge) × ((rest : List TopologyEdge) × ((edges ≡ row ++ rest)
        × IsRow db_node agents row
        × JoinsEach dbs agents rest))

map-joined-IsRow :
    (db_node : TopologyGraphNode) (agents : List TopologyGraphNode)
    → IsRow db_node agents (map (joined db_node) agents)
map-joined-IsRow db_node [] = record { from_db = tt; to_each = refl }
map-joined-IsRow db_node (agent ∷ agents) =
    let row = map-joined-IsRow db_node agents in
    record { from_db = (refl, row.from_db); to_each = ap (λ more. agent ∷ more) row.to_each }

db_edges-JoinsEach :
    (dbs agents : List TopologyGraphNode) → JoinsEach dbs agents (db_edges dbs agents)
unfolding db_edges
db_edges-JoinsEach [] agents = refl
db_edges-JoinsEach (db_node ∷ dbs) agents = (
  map (joined db_node) agents,
  (db_edges dbs agents, (refl, map-joined-IsRow db_node agents, db_edges-JoinsEach dbs agents)),
)

-- Between 16 and 84 hundredths of the height.
abbrev pub IsInPicture : TopologyGraphNode → Type 0
IsInPicture node =
    (16 * node.y.denominator ≤ node.y.numerator) × (node.y.numerator ≤ 84 * node.y.denominator)

-- Each node lies below the one before it.
abbrev pub Descends : List TopologyGraphNode → Type 0
Descends [] = Unit {0}
Descends (node ∷ []) = Unit {0}
Descends (node ∷ next ∷ nodes) =
    (node.y.denominator ≡ next.y.denominator)
    × (node.y.numerator < next.y.numerator)
    × Descends (next ∷ nodes)

position_from-IsInPicture :
    (index total x : ℕ) (nodes : List TopologyNode)
    → index + length nodes ≤ total
    → All IsInPicture (position_from index total x nodes)
position_from-IsInPicture index total x [] h = tt
position_from-IsInPicture index total x (node ∷ nodes) h = (
  elim (Bool-cases (leb total 1)) [
    | inl one ↦ rw one (omega arith, omega arith)
    | inr several ↦ rw several (omega arith, ground arith)
  ],
  position_from-IsInPicture (index + 1) total x nodes (omega arith),
)

position_from-Descends :
    (index total x : ℕ) (nodes : List TopologyNode)
    → index + length nodes ≤ total
    → Descends (position_from index total x nodes)
position_from-Descends index total x [] h = tt
position_from-Descends index total x (node ∷ []) h = tt
position_from-Descends index total x (node ∷ next ∷ nodes) h = (
  ground arith,
  ground arith,
  position_from-Descends (index + 1) total x (next ∷ nodes) (omega arith),
)

-- Without agents there are no edges of instances; otherwise one to each of them.
abbrev pub JoinsInstances :
    List TopologyGraphNode → List TopologyGraphNode → List TopologyEdge → Type 0
JoinsInstances [] instances edges = edges ≡ []
JoinsInstances (first ∷ agents) instances edges =
    (ends edges ≡ instances) × All (IsJoined (first ∷ agents)) edges

instance_edges-JoinsInstances :
    (agents instances : List TopologyGraphNode)
    → JoinsInstances agents instances (instance_edges agents instances)
instance_edges-JoinsInstances [] instances = instance_edges-none instances
instance_edges-JoinsInstances (first ∷ agents) instances =
    instance_edges-IsJoined first agents instances

-- A graph of these three layers.
pub record IsDrawn (dbs agents instances : List TopologyGraphNode) (graph : TopologyGraphModel)
    : Type 0 where
  pub all_nodes : graph.nodes ≡ dbs ++ (agents ++ instances)
  pub of_dbs : List TopologyEdge
  pub of_instances : List TopologyEdge
  pub all_edges : graph.edges ≡ of_dbs ++ of_instances
  pub each_db : JoinsEach dbs agents of_dbs
  pub each_instance : JoinsInstances agents instances of_instances
  pub in_picture : All IsInPicture dbs × All IsInPicture agents × All IsInPicture instances
  pub descends : Descends dbs × Descends agents × Descends instances

graph_of-IsDrawn :
    (dbs agents nodes : List TopologyNode)
    → let d = position_layer 15 dbs in
      let a = position_layer 50 agents in
      let n = position_layer 85 nodes in IsDrawn d a n (graph_of d a n)
unfolding position_layer
graph_of-IsDrawn dbs agents nodes = record {
  all_nodes = refl;
  all_edges = refl;
  of_dbs = db_edges (position_layer 15 dbs) (position_layer 50 agents);
  of_instances = instance_edges (position_layer 50 agents) (position_layer 85 nodes);
  each_db = db_edges-JoinsEach (position_layer 15 dbs) (position_layer 50 agents);
  each_instance =
      instance_edges-JoinsInstances (position_layer 50 agents) (position_layer 85 nodes);
  in_picture = (
    position_from-IsInPicture 0 (length dbs) 15 dbs (omega arith),
    position_from-IsInPicture 0 (length agents) 50 agents (omega arith),
    position_from-IsInPicture 0 (length nodes) 85 nodes (omega arith),
  );
  descends = (
    position_from-Descends 0 (length dbs) 15 dbs (omega arith),
    position_from-Descends 0 (length agents) 50 agents (omega arith),
    position_from-Descends 0 (length nodes) 85 nodes (omega arith),
  );
}

some-injective :
    {a b : TopologyGraphModel} → ◌≡◌ {A = Option TopologyGraphModel} (some a) (some b) → a ≡ b
some-injective q = cc

-- The graph that is drawn, if drawing it does not throw, has the databases, agents and instance nodes
-- as its nodes. Its edges are, for each database, one from it to each agent, and, if there is an agent,
-- one to each instance node, which comes from an agent of the id that the node is attached to, or from
-- the first agent where none has this id. In each layer the nodes lie within the picture, one below the
-- other.
pub build_topology_graph-IsDrawn :
    (hostname_of : String → Option String) (dbs : List DbNode) (agents : List AgentNode)
    (instances : List Instance) (graph : TopologyGraphModel)
    → build_topology_graph hostname_of dbs agents instances ≡ some graph
    → (nodes : List TopologyNode) × (get_instance_graph_nodes instances ≡ some nodes)
      × IsDrawn
          (position_layer 15 (db_nodes hostname_of 0 dbs))
          (position_layer 50 (agent_nodes hostname_of 0 agents))
          (position_layer 85 nodes)
          graph
unfolding build_topology_graph position_layer
build_topology_graph-IsDrawn hostname_of dbs agents instances graph e =
    elim (Option-cases (get_instance_graph_nodes instances)) [
      | inl thrown ↦
          absurd (none-ne-some (sym (ap (graph_of_nodes hostname_of dbs agents) thrown) ∙ e))
      | inr (nodes, n) ↦
          (nodes, n, drawn nodes (sym (ap (graph_of_nodes hostname_of dbs agents) n) ∙ e))
    ]
  where
    none-ne-some : ◌≡◌ {A = Option TopologyGraphModel} none (some graph) → ⊥
    none-ne-some q = cc

    drawn :
        (nodes : List TopologyNode)
        → graph_of_nodes hostname_of dbs agents (some nodes) ≡ some graph
        → IsDrawn
            (position_layer 15 (db_nodes hostname_of 0 dbs))
            (position_layer 50 (agent_nodes hostname_of 0 agents))
            (position_layer 85 nodes)
            graph
    drawn nodes q =
        subst
          (IsDrawn (position_layer 15 (db_nodes hostname_of 0 dbs))
            (position_layer 50 (agent_nodes hostname_of 0 agents)) (position_layer 85 nodes))
          (some-injective q)
          (graph_of-IsDrawn (db_nodes hostname_of 0 dbs) (agent_nodes hostname_of 0 agents) nodes)
