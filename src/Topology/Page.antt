-- ===== src/Topology/Page.antt =====
-- The request and the state of web/src/features/cluster/AgentsPage.tsx. The page has a client of its
-- own, which takes an answer with and without the envelope of the API.
use cassem.Base.{
  ℕ, ◌+◌, ◌==◌, Bool, true, false, not, ◌&&◌, ◌||◌, Option, none, some, List, [], String,
  if◌then◌else◌,
}
use cassem.Session.Storage.{Store, clear_session}
use cassem.Session.Api.{
  CommonResponse, Outcome, answered, api_failed, is_auth_error, is_ok, is_code, text_of, given_or,
  http_message, code_or, no_code,
}
use cassem.Effects.{Reply, resolved, rejected}
use cassem.Instances.State.{get_error_message}
use cassem.Topology.Nodes.{AgentNode, DbNode, Instance}

-- web/src/domain/types.ts.
pub record ClusterTopologyResponse : Type 0 where
  pub dbs : Option (List DbNode)
  pub agents : Option (List AgentNode)
  pub instances : Option (List Instance)

pub record Topology : Type 0 where
  pub dbs : List DbNode
  pub agents : List AgentNode
  pub instances : List Instance

-- What stands for a topology: a list of agents, an object, or nothing.
pub data TopologyData : Type 0 where
  agent_list : List AgentNode → TopologyData
  cluster : ClusterTopologyResponse → TopologyData

abbrev pub or_empty {ℓ} : {A : Type ℓ} → Option (List A) → List A
or_empty none = []
or_empty (some found) = found

abbrev pub empty_topology : Topology
empty_topology = record { dbs = []; agents = []; instances = [] }

unfoldable pub normalize_topology_data : Option TopologyData → Topology
normalize_topology_data none = empty_topology
normalize_topology_data (some (agent_list agents)) = record {
  dbs = [];
  agents = agents;
  instances = [];
}
normalize_topology_data (some (cluster found)) = record {
  dbs = or_empty found.dbs;
  agents = or_empty found.agents;
  instances = or_empty found.instances;
}

-- The JSON of a response: no JSON at all or null, a topology, or the envelope, which has an `errcode`.
pub data TopologyPayload : Type 0 where
  nothing : TopologyPayload
  bare : TopologyData → TopologyPayload
  enveloped : CommonResponse TopologyData → TopologyPayload

-- How the request ends: its outcome, the local storage, and whether the login page is opened.
pub record TopologyEnd : Type 0 where
  pub outcome : Outcome Topology
  pub store : Store
  pub opens_login : Bool

abbrev pub failed_topology : ℕ → CommonResponse TopologyData → Store → TopologyEnd
failed_topology status payload store =
    let auth = is_auth_error status payload in
    record {
      outcome =
          api_failed (given_or (text_of payload.errmsg) (http_message status))
            (code_or no_code payload.errcode) status auth;
      store = if auth then clear_session store else store;
      opens_login = auth;
    }

abbrev pub loaded_topology : Option TopologyData → Store → TopologyEnd
loaded_topology found store = record {
  outcome = answered (some (normalize_topology_data found));
  store = store;
  opens_login = false;
}

-- `requestTopology` behind `response.json()`.
unfoldable pub read_topology : ℕ → TopologyPayload → Store → TopologyEnd
unfolding is_auth_error clear_session normalize_topology_data
read_topology status nothing store =
    failed_topology status (record { errcode = none; errmsg = none; data_ = none }) store
read_topology status (bare found) store = loaded_topology (some found) store
read_topology status (enveloped payload) store =
    if not (is_ok status) || not (is_code payload.errcode 0)
    then failed_topology status payload store
    else loaded_topology payload.data_ store

-- The state of the page, with its counter of requests. `error` is an error's own text, a key of the
-- catalogue for any other, and empty for none.
pub record State : Type 0 where
  pub topology : Topology
  pub loading : Bool
  pub error : String
  pub request_seq : ℕ
  pub mounted : Bool
  pub load_started : Bool

-- `loadTopology` up to its request, which has the new number.
unfoldable pub load_topology : State → State × ℕ
load_topology s = (record s { request_seq = s.request_seq + 1; loading = true }, s.request_seq + 1)

abbrev pub apply_topology : Reply Topology → State → State
apply_topology (resolved found) s = record s { topology = found; error = ""; loading = false }
apply_topology (rejected reason) s = record s {
  topology = empty_topology;
  error = get_error_message reason "operations.topology.loadFailed";
  loading = false;
}

-- Only the latest request of a mounted page counts.
unfoldable pub topology_settled : ℕ → Reply Topology → State → State
unfolding get_error_message
topology_settled request_id reply s =
    if s.mounted && request_id == s.request_seq then apply_topology reply s else s
