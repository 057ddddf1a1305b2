-- ===== src/Topology/Weights.antt =====
-- Every instance is shown, under its agent.
use cassem.Base.{
  ℕ, suc, ◌+◌, ◌<◌, ◌≡◌, refl, ap, ◌∙◌, ◌⊎◌, inl, inr, Bool, true, false, Option, none, some, List,
  [], ◌∷◌, ◌++◌, String, arith, if◌then◌else◌, ltb, length, any, Bool-cases, length-append, eq_iff,
  All, All-append, ltb→lt,
}
use cassem.Topology.Nodes.{Instance, TopologyNode, or_else}
use cassem.Topology.Groups.{
  is_inherited, Entry, push, agent_of, group_instances_by_agent, comes_before, index_of, place,
  entries_of, single_nodes, entry_nodes, nodes_of_entries, nodes_of_grouped,
  get_instance_graph_nodes, instance_aggregation_threshold,
}
use text.Mathlib.Text.{◌==◌ as str_eq}

-- How many instances a node stands for.
abbrev pub weight : TopologyNode → ℕ
weight node = elim node.aggregate_count [ none ↦ 1 | some n ↦ n ]

abbrev pub is_attached : String → TopologyNode → Bool
is_attached key node = str_eq (or_else node.attached_agent_id "") key

-- How many instances the nodes of an agent stand for.
abbrev pub weight_of : String → List TopologyNode → ℕ
weight_of key [] = 0
weight_of key (node ∷ nodes) =
    if is_attached key node then weight node + weight_of key nodes else weight_of key nodes

-- How many instances an agent has.
abbrev pub instances_of : String → List Instance → ℕ
instances_of key [] = 0
instances_of key (found ∷ more) =
    if str_eq (agent_of found) key then suc (instances_of key more) else instances_of key more

abbrev held_by : String → List Entry → ℕ
held_by key [] = 0
held_by key ((other, held) ∷ entries) =
    if str_eq other key then length held + held_by key entries else held_by key entries

held_by-push :
    (key at : String) (found : Instance) (entries : List Entry)
    → held_by key (push at found entries)
      ≡ (if str_eq at key then suc (held_by key entries) else held_by key entries)
held_by-push key at found [] = ground arith
held_by-push key at found ((other, held) ∷ entries) = ground (
  arith,
  eq_iff other at,
  eq_iff other key,
  eq_iff at key,
  length-append held (found ∷ []),
  held_by-push key at found entries,
)

held_by-place :
    (key : String) (entry : Entry) (entries : List Entry)
    → held_by key (place entry entries) ≡ held_by key (entry ∷ entries)
held_by-place key entry [] = refl
held_by-place key entry (other ∷ entries) =
    elim (Bool-cases (comes_before (index_of entry.0) (index_of other.0))) [
      | inl before ↦ rw before
      | inr behind ↦ rw behind (ground (arith, held_by-place key entry entries))
    ]

held_by-entries_of :
    (key : String) (entries placed : List Entry)
    → held_by key (entries_of entries placed) ≡ held_by key entries + held_by key placed
unfolding entries_of
held_by-entries_of key [] placed = omega arith
held_by-entries_of key (entry ∷ entries) placed =
    ground
      (arith, held_by-entries_of key entries (place entry placed), held_by-place key entry placed)

held_by-group_instances_by_agent :
    (key : String) (instances : List Instance) (grouped entries : List Entry)
    → group_instances_by_agent instances grouped ≡ some entries
    → held_by key entries ≡ instances_of key instances + held_by key grouped
unfolding group_instances_by_agent
held_by-group_instances_by_agent key [] grouped entries e = ground arith
held_by-group_instances_by_agent key (found ∷ more) grouped entries e =
    elim (Bool-cases (is_inherited (agent_of found))) [
      | inl bad ↦ absurd (none-ne-some (rw bad at e))
      | inr good ↦
          let rest =
            held_by-group_instances_by_agent key more (push (agent_of found) found grouped) entries
              (rw good at e) in
          let pushed = held_by-push key (agent_of found) found grouped in
          elim (Bool-cases (str_eq (agent_of found) key)) [
            | inl same ↦ rw same (omega (arith, rest, rw same at pushed))
            | inr other ↦ rw other (omega (arith, rest, rw other at pushed))
          ]
    ]
  where
    none-ne-some : ◌≡◌ {A = Option (List Entry)} none (some entries) → ⊥
    none-ne-some q = cc

weight_of-append :
    (key : String) (nodes others : List TopologyNode)
    → weight_of key (nodes ++ others) ≡ weight_of key nodes + weight_of key others
weight_of-append key [] others = omega arith
weight_of-append key (node ∷ nodes) others = ground (arith, weight_of-append key nodes others)

or_else-key : (key : String) → or_else (some key) "" ≡ key
or_else-key key = ground (arith, eq_iff key "")

weight_of-single_nodes :
    (key at : String) (index : ℕ) (held : List Instance)
    → weight_of key (single_nodes at index held) ≡ (if str_eq at key then length held else 0)
unfolding single_nodes
weight_of-single_nodes key at index [] = ground arith
weight_of-single_nodes key at index (found ∷ more) =
    let rest = weight_of-single_nodes key at (index + 1) more in
    elim (Bool-cases (str_eq at key)) [
      | inl same ↦ rw (or_else-key at, same) (omega (arith, rw same at rest))
      | inr other ↦ rw (or_else-key at, other) (rw other at rest)
    ]

weight_of-entry_nodes :
    (key : String) (entry : Entry)
    → weight_of key (entry_nodes entry) ≡ (if str_eq entry.0 key then length entry.1 else 0)
unfolding entry_nodes
weight_of-entry_nodes key (at, held) =
    elim (Bool-cases (ltb instance_aggregation_threshold (length held))) [
      | inl many ↦ rw (many, or_else-key at) (ground arith)
      | inr few ↦ rw few (weight_of-single_nodes key at 0 held)
    ]

weight_of-nodes_of_entries :
    (key : String) (entries : List Entry)
    → weight_of key (nodes_of_entries entries) ≡ held_by key entries
weight_of-nodes_of_entries key [] = refl
weight_of-nodes_of_entries key (entry ∷ entries) =
    let rest = weight_of-nodes_of_entries key entries in
    let own = weight_of-entry_nodes key entry in
    let split = weight_of-append key (entry_nodes entry) (nodes_of_entries entries) in
    elim (Bool-cases (str_eq entry.0 key)) [
      | inl same ↦ rw same (omega (arith, rest, split, rw same at own))
      | inr other ↦ rw other (omega (arith, rest, split, rw other at own))
    ]

-- A node for several instances stands for more than the threshold.
abbrev pub IsAggregated : TopologyNode → Type 0
IsAggregated node = elim node.aggregate_count [
  | none ↦ Unit {0}
  | some n ↦ instance_aggregation_threshold < n
]

single_nodes-IsAggregated :
    (at : String) (index : ℕ) (held : List Instance) → All IsAggregated (single_nodes at index held)
unfolding single_nodes
single_nodes-IsAggregated at index [] = tt
single_nodes-IsAggregated at index (found ∷ more) =
    (tt, single_nodes-IsAggregated at (index + 1) more)

entry_nodes-IsAggregated : (entry : Entry) → All IsAggregated (entry_nodes entry)
unfolding entry_nodes
entry_nodes-IsAggregated (at, held) =
    elim (Bool-cases (ltb instance_aggregation_threshold (length held))) [
      | inl many ↦ rw many (ltb→lt 5 (length held) many, tt)
      | inr few ↦ rw few (single_nodes-IsAggregated at 0 held)
    ]

nodes_of_entries-IsAggregated : (entries : List Entry) → All IsAggregated (nodes_of_entries entries)
nodes_of_entries-IsAggregated [] = tt
nodes_of_entries-IsAggregated (entry ∷ entries) =
    All-append IsAggregated (entry_nodes entry) (nodes_of_entries entries)
      (entry_nodes-IsAggregated entry) (nodes_of_entries-IsAggregated entries)

-- Whether the grouping throws.
abbrev pub throws : List Instance → Bool
throws instances = any (λ found. is_inherited (agent_of found)) instances

group_instances_by_agent-throws :
    (instances : List Instance) (grouped : List Entry)
    → ((group_instances_by_agent instances grouped ≡ none) × (throws instances ≡ true))
      ⊎ ((entries : List Entry) × (group_instances_by_agent instances grouped ≡ some entries)
          × (throws instances ≡ false))
unfolding group_instances_by_agent
group_instances_by_agent-throws [] grouped = inr (grouped, refl, refl)
group_instances_by_agent-throws (found ∷ more) grouped =
    elim (Bool-cases (is_inherited (agent_of found))) [
      | inl bad ↦ rw bad (inl (refl, refl))
      | inr good ↦
          rw good (group_instances_by_agent-throws more (push (agent_of found) found grouped))
    ]

-- Drawing the instances throws exactly if one of them names as its agent a key that every object
-- inherits. Otherwise, for each agent's id, the nodes attached to it stand together for as many
-- instances as have that agent ("unassigned" for none), and a node that stands for several instances
-- stands for more than five.
pub get_instance_graph_nodes-weight_of :
    (instances : List Instance)
    → ((get_instance_graph_nodes instances ≡ none) × (throws instances ≡ true))
      ⊎ ((nodes : List TopologyNode) × (get_instance_graph_nodes instances ≡ some nodes)
          × (throws instances ≡ false)
          × ((key : String) → weight_of key nodes ≡ instances_of key instances)
          × All IsAggregated nodes)
unfolding get_instance_graph_nodes
get_instance_graph_nodes-weight_of instances = elim (group_instances_by_agent-throws instances []) [
  | inl (thrown, t) ↦ inl (ap nodes_of_grouped thrown, t)
  | inr (grouped, g, t) ↦ inr (
    nodes_of_entries (entries_of grouped []),
    ap nodes_of_grouped g,
    t,
    λ key.
        weight_of-nodes_of_entries key (entries_of grouped [])
        ∙ omega (
          arith,
          held_by-entries_of key grouped [],
          held_by-group_instances_by_agent key instances [] grouped g,
        ),
    nodes_of_entries-IsAggregated (entries_of grouped []),
  )
]
