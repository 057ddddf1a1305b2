-- ===== src/Topology/Agrees.antt =====
-- The client of the topology page against that of all other pages.
use cassem.Base.{ℕ, ◌≡◌, refl, ◌⊎◌, inl, inr, Bool, true, false, not, ◌&&◌, ◌||◌, some, Bool-cases}
use cassem.Session.Storage.{Store, clear_session}
use cassem.Session.Api.{
  CommonResponse, Outcome, answered, api_failed, other_failed, is_auth_error, is_ok, is_code,
  read_payload,
}
use cassem.Topology.Page.{Topology, TopologyData, normalize_topology_data, enveloped, read_topology}

-- The outcome of `apiRequest`, with its data read as a topology.
abbrev pub topology_of : Outcome TopologyData → Outcome Topology
topology_of (answered found) = answered (some (normalize_topology_data found))
topology_of (api_failed message code status auth) = api_failed message code status auth
topology_of other_failed = other_failed

-- Whether a response with an envelope is an error.
abbrev pub is_failure : ℕ → CommonResponse TopologyData → Bool
is_failure status payload = not (is_ok status) || not (is_code payload.errcode 0)

-- On a response with an envelope the topology page reads the same outcome as `apiRequest` does, and
-- opens the login page exactly on an error of the session. It leaves the same stored session behind,
-- unless a success carries a message of a session's error, on which only `apiRequest` clears it.
pub read_topology-read_payload :
    (status : ℕ) (payload : CommonResponse TopologyData) (store : Store)
    → let e = read_topology status (enveloped payload) store in
      let (outcome, kept) = read_payload status payload store in
      (e.outcome ≡ topology_of outcome)
      × (e.opens_login ≡ (is_failure status payload && is_auth_error status payload))
      × ((e.store ≡ kept)
          ⊎ ((is_failure status payload ≡ false)
              × (is_auth_error status payload ≡ true)
              × (e.store ≡ store)
              × (kept ≡ clear_session store)))
unfolding read_topology read_payload
read_topology-read_payload status payload store =
    elim (Bool-cases (not (is_ok status) || not (is_code payload.errcode 0))) [
      | inl fails ↦ rw fails (refl, refl, inl refl)
      | inr succeeds ↦ elim (Bool-cases (is_auth_error status payload)) [
        | inl auth ↦ rw (succeeds, auth) (refl, refl, inr (refl, refl, refl, refl))
        | inr other ↦ rw (succeeds, other) (refl, refl, inl refl)
      ]
    ]
