-- ===== src/Prot/Notify.antt =====
-- The notifications of agent/prot/update.go: NotifyEdge, notifyArchiving and triggerEnd. Each gives
-- the broadcasts that it makes, in order.
pub mod Told
use findy_agent.Common.{
  ℕ, String, Bool, true, false, not, ◌&&◌, ◌≡◌, refl, ◌∙◌, List, [], ◌∷◌, ◌++◌, last?,
  last?-append_one, some, arith, eqb, ◌||◌, every_below, every_below-test, if◌then◌else◌, ◌==◌,
}
use findy_agent.Common.Exec.{Outcome, ok, err, panicked}
use findy_agent.Pltype.{Role, nothing, ca_notify_status}
use findy_agent.Psm.{StateKey, Psm, protocol}
use findy_agent.Psm.Sub.{SubState, pure, has, ack, ready, waiting, failure, archiving, archived}
use findy_agent.Psm.Rules.{IsFlags}
use findy_agent.Prot.World.{EndingInfo}

-- The fields of `bus.AgentNotify` that agent/prot fills.
pub record AgentNotify : Type 0 where
  pub agent_did : String
  pub id : String
  pub notification_type : String
  pub protocol_id : String
  pub protocol_family : String
  pub connection_id : String
  pub timestamp : ℕ
  pub role : Role

-- A broadcast, named after the station of agent/bus that it goes to.
pub data Broadcast : Type 0 where
  agent_actions agency_actions psm_cleanup : AgentNotify → Broadcast
  user_actions all_states : StateKey → SubState → Broadcast

pub record NotifyEdge : Type 0 where
  pub did : String
  pub pl_type : String
  pub nonce : String
  pub timestamp : ℕ
  pub pw_name : String
  pub family : String
  pub started_by_us : Bool
  pub role : Role

-- `is_active` is `comm.ActiveRcvrs.Get(did) != nil`, and `uuid` the new id.
unfoldable pub notify_edge : (String → Bool) → String → NotifyEdge → List Broadcast
notify_edge is_active uuid ne =
    if is_active ne.did
    then agent_actions (record {
      agent_did = ne.did;
      id = uuid;
      notification_type = ne.pl_type;
      protocol_id = ne.nonce;
      protocol_family = ne.family;
      connection_id = ne.pw_name;
      timestamp = ne.timestamp;
      role = ne.role;
    })
      ∷ []
    else []

abbrev pub edge_of : EndingInfo → String → NotifyEdge
edge_of info pl_type = record {
  did = info.me_did;
  pl_type = pl_type;
  nonce = info.nonce;
  timestamp = info.timestamp;
  pw_name = info.pw_name;
  family = info.protocol_family;
  started_by_us = info.started_by_us;
  role = info.role;
}

abbrev pub info_key : EndingInfo → StateKey
info_key info = record { did = info.me_did; nonce = info.nonce }

-- The type that a waiting or failed machine is notified with.
unfoldable pub waiting_type : EndingInfo → String
waiting_type info =
    if has info.sub_state failure
    then ca_notify_status
    else if info.pending_user_action
    then info.user_action_type
    else nothing

unfoldable pub trigger_ready : (String → Bool) → String → EndingInfo → List Broadcast
trigger_ready is_active uuid info =
    if has info.sub_state ack
    then notify_edge is_active uuid (edge_of info ca_notify_status)
    else []

unfoldable pub trigger_waiting : (String → Bool) → String → EndingInfo → List Broadcast
trigger_waiting is_active uuid info =
    if waiting_type info == nothing
    then []
    else user_actions (info_key info) info.sub_state
      ∷ notify_edge is_active uuid (edge_of info (waiting_type info))

-- The `switch` of triggerEnd.
unfoldable pub trigger_case : (String → Bool) → String → EndingInfo → List Broadcast
trigger_case is_active uuid info =
    if eqb (pure info.sub_state) ready
    then trigger_ready is_active uuid info
    else if eqb (pure info.sub_state) waiting
    then trigger_waiting is_active uuid info
    else if eqb (pure info.sub_state) failure
    then trigger_waiting is_active uuid info
    else []

unfoldable pub trigger_end : (String → Bool) → String → EndingInfo → List Broadcast
trigger_end is_active uuid info =
    trigger_case is_active uuid info ++ all_states (info_key info) info.sub_state ∷ []

-- `machine.Protocol()` panics where the first type is malformed.
unfoldable pub notify_archiving : String → Psm → EndingInfo → Outcome (List Broadcast)
notify_archiving uuid machine info = elim (protocol machine) [
  | ok family ↦
      (let notify : AgentNotify = record {
        agent_did = info.me_did;
        id = uuid;
        notification_type = info.pl_type;
        protocol_id = info.nonce;
        protocol_family = family;
        connection_id = info.pw_name;
        timestamp = info.timestamp;
        role = machine.role;
      } in
        ok (
          if has info.sub_state archiving
          then agency_actions notify ∷ []
          else if has info.sub_state archived
          then psm_cleanup notify ∷ []
          else []))
  | err e ↦ err e
  | panicked ↦ panicked
]
