-- ===== src/Bus.antt =====
-- agent/bus/event.go: the stations that carry an agent's notifications to its controllers. What runs under
-- the map's lock is one step. pushBufferedNotify lets that lock go before it takes the buffer's, so other
-- goroutines may run in between: `others` is what they make of the station. checkBuffered is run with no one
-- between its broadcasts.
pub mod Delivery
use findy_agent.Common.{
  ℕ, String, Bool, true, false, not, ◌&&◌, ◌||◌, ◌≡◌, refl, ap, ◌∙◌, Option, none, some, List, [],
  ◌∷◌, ◌++◌, arith, if◌then◌else◌, ◌==◌, eq_iff, ◌↔◌, All,
}
use findy_agent.Common.Table.{Eq, Table, get, put, remove, get-put, get-remove}
use findy_agent.Common.Exec.{Outcome, ok, panicked}

abbrev pub all_agents : String
all_agents = "*"

pub record AgentKey : Type 0 where
  pub agent_did : String
  pub client_id : String

abbrev pub agent_key_beq : AgentKey → AgentKey → Bool
agent_key_beq a b = a.agent_did == b.agent_did && a.client_id == b.client_id

pub agent_key_beq_iff : (a b : AgentKey) → (agent_key_beq a b ≡ true) ↔ (a ≡ b)
agent_key_beq_iff a b =
    ground (arith, eq_iff a.agent_did b.agent_did, eq_iff a.client_id b.client_id)

instance abbrev pub agent_key_eq : Eq AgentKey
agent_key_eq = record { beq = agent_key_beq; beq_iff = agent_key_beq_iff }

-- The fields of `AgentNotify` that the station reads or writes; `id` stands for the others.
pub record Notify : Type 0 where
  pub key : AgentKey
  pub id : String

-- Whether the station keeps a buffer: only the one of the agents' actions has a list.
pub data StationKind : Type 0 where
  agent_listen agency_listen psm_cleanup : StationKind

abbrev pub wants_all_agent_actions : StationKind → Bool
wants_all_agent_actions agent_listen = true
wants_all_agent_actions _ = false

-- The listeners, with a name for each one's channel; the buffer; and what has been sent to which
-- channel, in order.
pub record Station : Type 0 where
  pub listeners : Table AgentKey ℕ
  pub buffer : List Notify
  pub sent : List (ℕ × Notify)
  pub closed : List ℕ

-- `hit` of broadcast.
abbrev pub hit : Notify → AgentKey → Bool
hit state listen_key =
    state.key.agent_did == listen_key.agent_did || listen_key.agent_did == all_agents

abbrev pub for_client : Notify → AgentKey → Notify
for_client state listen_key = record state {
  key = record { agent_did = state.key.agent_did; client_id = listen_key.client_id };
}

-- The loop of broadcast over the map; the order of the table stands for the map's.
unfoldable pub deliveries : Table AgentKey ℕ → Notify → List (ℕ × Notify)
deliveries [] state = []
deliveries ((listen_key, ch) ∷ ls) state =
    let rest = deliveries ls state in
    if hit state listen_key then (ch, for_client state listen_key) ∷ rest else rest

-- The variable `found` of that loop.
unfoldable pub found_listener : Table AgentKey ℕ → Notify → Bool
found_listener [] state = false
found_listener ((listen_key, ch) ∷ ls) state =
    let rest = found_listener ls state in if hit state listen_key then true else rest

unfoldable pub broadcast : Station → Notify → Bool × Station
broadcast s state =
    (found_listener s.listeners state, record s { sent = s.sent ++ deliveries s.listeners state })

-- The end of pushBufferedNotify, under the buffer's lock; it is called for the station that has a list.
unfoldable pub push_buffered : Notify → Station → Station
push_buffered state s = record s { buffer = s.buffer ++ state ∷ [] }

-- AgentBroadcast; `others` runs where pushBufferedNotify has let the map's lock go.
unfoldable pub agent_broadcast : StationKind → (Station → Station) → Station → Notify → Station
unfolding broadcast push_buffered
agent_broadcast kind others s state =
    let (found, s') = broadcast s state in
    if found
    then s'
    else if wants_all_agent_actions kind
    then push_buffered state (others s')
    else s'

-- The loop of checkBuffered: what has been sent is removed, and the rest stays in its order.
unfoldable pub check_loop : List Notify → Station → List Notify × Station
unfolding broadcast
check_loop [] s = ([], s)
check_loop (notif ∷ l) s =
    let (sent, s') = broadcast s notif in
    let (kept, s'') = check_loop l s' in if sent then (kept, s'') else (notif ∷ kept, s'')

unfoldable pub check_buffered : Station → Station
unfolding check_loop
check_buffered s = let (kept, s') = check_loop s.buffer s in record s' { buffer = kept }

-- AgentAddListener with the goroutine that it starts run to its end; a key that exists fails an
-- assertion.
unfoldable pub agent_add_listener : StationKind → AgentKey → ℕ → Station → Outcome Station
unfolding check_buffered
agent_add_listener kind key c s = elim (get s.listeners key) [
  | some old ↦ panicked
  | none ↦
      (let s' = record s { listeners = put s.listeners key c } in
        ok (if wants_all_agent_actions kind then check_buffered s' else s'))
]

-- AgentRmListener
unfoldable pub agent_rm_listener : AgentKey → Station → Station
agent_rm_listener key s = elim (get s.listeners key) [
  | none ↦ s
  | some ch ↦ record s { listeners = remove s.listeners key; closed = s.closed ++ ch ∷ [] }
]
