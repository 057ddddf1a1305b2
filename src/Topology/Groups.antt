-- ===== src/Topology/Groups.antt =====
-- The instances of the graph of web/src/features/cluster/AgentsPage.tsx, by the agent that they name.
use cassem.Base.{
  ℕ, ◌+◌, Bool, true, false, ◌&&◌, Option, none, some, List, [], ◌∷◌, ◌++◌, String, if◌then◌else◌,
  ltb, length, any,
}
use cassem.Base.Decimal.{decimal, value_of}
use cassem.Domain.{is_truthy}
use Prim.Native.String.{◌++◌ as join}
use text.Mathlib.Text.{◌==◌ as str_eq}
use cassem.Topology.Nodes.{
  Instance, Subtitle, TopologyNode, or_else, is_given, normalize_health, healthy, offline,
  instance_, group, attached_to, attached_to_none,
}

-- The keys that every object of the language inherits: for an agent with such an id the grouping
-- throws, since what it finds under the key is no list.
abbrev pub inherited_keys : List String
inherited_keys =
    "constructor" ∷ "__proto__" ∷ "__defineGetter__" ∷ "__defineSetter__" ∷ "__lookupGetter__"
    ∷ "__lookupSetter__" ∷ "hasOwnProperty" ∷ "isPrototypeOf" ∷ "propertyIsEnumerable"
    ∷ "toLocaleString" ∷ "toString" ∷ "valueOf" ∷ []

abbrev pub is_inherited : String → Bool
is_inherited key = any (str_eq key) inherited_keys

abbrev pub Entry : Type 0
Entry = String × List Instance

-- `acc[agentId].push(instance)`; a new key comes last.
abbrev pub push : String → Instance → List Entry → List Entry
push key found [] = (key, found ∷ []) ∷ []
push key found ((other, held) ∷ entries) =
    if str_eq other key
    then (other, held ++ (found ∷ [])) ∷ entries
    else (other, held) ∷ push key found entries

abbrev pub agent_of : Instance → String
agent_of found = or_else found.agent_id "unassigned"

-- `groupInstancesByAgent`, in the order in which the keys are written; `none` where it throws.
unfoldable pub group_instances_by_agent : List Instance → List Entry → Option (List Entry)
group_instances_by_agent [] grouped = some grouped
group_instances_by_agent (found ∷ more) grouped =
    let rest = group_instances_by_agent more (push (agent_of found) found grouped) in
    if is_inherited (agent_of found) then none else rest

-- A key that is a canonical number below 2^32 - 1 is an index.
unfoldable pub index_of : String → Option ℕ
unfolding decimal value_of
index_of key =
    let n = value_of key in if str_eq (decimal n) key && ltb n 4294967295 then some n else none

abbrev pub comes_before : Option ℕ → Option ℕ → Bool
comes_before none other = false
comes_before (some n) none = true
comes_before (some n) (some m) = ltb n m

-- `Object.entries` lists indices first, by size, and the other keys as they were written.
abbrev pub place : Entry → List Entry → List Entry
place entry [] = entry ∷ []
place entry (other ∷ entries) =
    if comes_before (index_of entry.0) (index_of other.0)
    then entry ∷ other ∷ entries
    else other ∷ place entry entries

unfoldable pub entries_of : List Entry → List Entry → List Entry
unfolding index_of
entries_of [] placed = placed
entries_of (entry ∷ entries) placed = entries_of entries (place entry placed)

abbrev pub subtitle_of : Option String → Subtitle
subtitle_of agent_id =
    if is_given agent_id then attached_to (or_else agent_id "") else attached_to_none

abbrev pub first_agent : List Instance → Option String
first_agent [] = none
first_agent (found ∷ more) = found.agent_id

-- The instances of one agent, each for itself.
unfoldable pub single_nodes : String → ℕ → List Instance → List TopologyNode
unfolding decimal is_truthy
single_nodes key index [] = []
single_nodes key index (found ∷ more) =
    record {
      kind = instance_;
      id = or_else found.client_id (join key (join "-" (decimal (index + 1))));
      ip = or_else found.client_ip "-";
      addr = none;
      health =
          normalize_health found.health
            (if is_truthy found.last_renew_timestamp then healthy else offline);
      subtitle = subtitle_of found.agent_id;
      aggregate_count = none;
      attached_agent_id = some key;
    }
    ∷ single_nodes key (index + 1) more

abbrev pub instance_aggregation_threshold : ℕ
instance_aggregation_threshold = 5

-- More instances than the threshold are one node.
unfoldable pub entry_nodes : Entry → List TopologyNode
unfolding single_nodes
entry_nodes (key, held) =
    if ltb instance_aggregation_threshold (length held)
    then record {
      kind = group;
      id = key;
      ip = "-";
      addr = none;
      health = healthy;
      subtitle = subtitle_of (first_agent held);
      aggregate_count = some (length held);
      attached_agent_id = some key;
    }
      ∷ []
    else single_nodes key 0 held

abbrev pub nodes_of_entries : List Entry → List TopologyNode
nodes_of_entries [] = []
nodes_of_entries (entry ∷ entries) = entry_nodes entry ++ nodes_of_entries entries

abbrev pub nodes_of_grouped : Option (List Entry) → Option (List TopologyNode)
nodes_of_grouped none = none
nodes_of_grouped (some grouped) = some (nodes_of_entries (entries_of grouped []))

unfoldable pub get_instance_graph_nodes : List Instance → Option (List TopologyNode)
unfolding group_instances_by_agent entries_of entry_nodes
get_instance_graph_nodes instances = nodes_of_grouped (group_instances_by_agent instances [])
