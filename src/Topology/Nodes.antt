-- ===== src/Topology/Nodes.antt =====
-- The nodes of the graph of web/src/features/cluster/AgentsPage.tsx, from the databases and agents that
-- the server lists, and what a node of instances has.
use cassem.Base.{
  ℕ, ◌+◌, ◌==◌, Bool, false, not, ◌&&◌, Option, none, some, List, [], ◌∷◌, String, if◌then◌else◌,
  trim,
}
use cassem.Base.Decimal.{decimal}
use cassem.Domain.{Number}
use cassem.I18n.Locale.{is_word}
use Prim.Native.Char.{code}
use Prim.Native.String.{◌++◌ as join}
use text.Mathlib.Text.{◌==◌ as str_eq}

-- web/src/domain/types.ts.
pub data HealthState : Type 0 where
  healthy unhealthy offline : HealthState

pub record AgentNode : Type 0 where
  pub agent_id : Option String
  pub addr : Option String
  pub ip : Option String
  pub health : Option HealthState

pub record DbNode : Type 0 where
  pub id : Option String
  pub addr : Option String
  pub ip : Option String
  pub health : Option HealthState

-- What the graph reads of an instance.
pub record Instance : Type 0 where
  pub client_id : Option String
  pub agent_id : Option String
  pub client_ip : Option String
  pub health : Option HealthState
  pub last_renew_timestamp : Option Number

pub data NodeKind : Type 0 where
  db agent instance_ group : NodeKind

-- The agent that the subtitle of a node names.
pub data Subtitle : Type 0 where
  no_subtitle : Subtitle
  attached_to : String → Subtitle
  attached_to_none : Subtitle

pub record TopologyNode : Type 0 where
  pub kind : NodeKind
  pub id : String
  pub ip : String
  pub addr : Option String
  pub health : HealthState
  pub subtitle : Subtitle
  pub aggregate_count : Option ℕ
  pub attached_agent_id : Option String

-- `value || fallback` of an optional text.
abbrev pub or_else : Option String → String → String
or_else none fallback = fallback
or_else (some value) fallback = if str_eq value "" then fallback else value

abbrev pub is_given : Option String → Bool
is_given none = false
is_given (some value) = not (str_eq value "")

abbrev pub skip_word : String → String
skip_word String.[] = String.[]
skip_word (String.◌∷◌ c text) =
    let rest = skip_word text in if is_word (code c) then rest else String.◌∷◌ c text

abbrev pub begins_with_word : String → Bool
begins_with_word String.[] = false
begins_with_word (String.◌∷◌ c text) = is_word (code c)

abbrev pub after_colon : String → Option String
after_colon (String.◌∷◌ c (String.◌∷◌ d (String.◌∷◌ e text))) =
    if code c == b':' && code d == b'/' && code e == b'/' then some text else none
after_colon _ = none

-- `value.replace(/^\w+:\/\//, '')`.
abbrev pub without_scheme : String → String
without_scheme value =
    if begins_with_word value
    then elim (after_colon (skip_word value)) [ none ↦ value | some rest ↦ rest ]
    else value

-- `value.split(':')[0]`.
abbrev pub before_colon : String → String
before_colon String.[] = String.[]
before_colon (String.◌∷◌ c text) =
    let rest = before_colon text in if code c == b':' then String.[] else String.◌∷◌ c rest

-- `hostname_of` is the host name that `URL` reads in a text, unless it throws.
unfoldable pub extract_host : (String → Option String) → Option String → String
unfolding trim
extract_host hostname_of none = ""
extract_host hostname_of (some addr) =
    let value = trim addr in
    if str_eq value "" then "" else elim (hostname_of value) [
      | none ↦ before_colon (without_scheme value)
      | some hostname ↦ or_else (some hostname) value
    ]

abbrev pub normalize_health : Option HealthState → HealthState → HealthState
normalize_health none fallback = fallback
normalize_health (some health) fallback = health

module _ (hostname_of : String → Option String) where
  -- The nodes of databases and agents; one without an id is named by its place, which counts from 1.
  unfoldable pub db_nodes : ℕ → List DbNode → List TopologyNode
  unfolding extract_host decimal
  db_nodes index [] = []
  db_nodes index (node ∷ nodes) =
      record {
        kind = db;
        id = or_else node.id (join "db-" (decimal (index + 1)));
        ip = or_else node.ip (extract_host hostname_of node.addr);
        addr = node.addr;
        health = normalize_health node.health offline;
        subtitle = no_subtitle;
        aggregate_count = none;
        attached_agent_id = none;
      }
      ∷ db_nodes (index + 1) nodes

  unfoldable pub agent_nodes : ℕ → List AgentNode → List TopologyNode
  unfolding extract_host decimal
  agent_nodes index [] = []
  agent_nodes index (node ∷ nodes) =
      record {
        kind = agent;
        id = or_else node.agent_id (join "agent-" (decimal (index + 1)));
        ip = or_else node.ip (extract_host hostname_of node.addr);
        addr = node.addr;
        health = normalize_health node.health (if is_given node.addr then healthy else offline);
        subtitle = no_subtitle;
        aggregate_count = none;
        attached_agent_id = none;
      }
      ∷ agent_nodes (index + 1) nodes
