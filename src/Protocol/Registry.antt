-- ===== src/Protocol/Registry.antt =====
-- agent/prot/processor.go: the registries of the protocols, and how a task is started, continued and told
-- of; with the calls of the gRPC service (grpc/server/psm.go and server.go) by an agent that `ca` found.
-- A goroutine that is started is a result of the function: the procedure that it runs.
pub mod Types
use findy_agent.Common.{String, Bool, true, false, ◌==◌, Option, none, some, if◌then◌else◌}
use findy_agent.Common.Table.{Table, string_eq, get, put}
use findy_agent.Common.Exec.{Outcome, ok, err, panicked, pure, lift, gets, ◌>>=◌, ◌>>◌}
use findy_agent.Pltype.{
  Role, unknown, initiator, addressee, resumer, ProtocolType, none_type, did_exchange_type,
  issue_type, proof_type, ping_type, message_type, protocol_type_for_family, nothing,
  aries_protocol_connection, protocol_issue_credential, protocol_present_proof, protocol_trust_ping,
  protocol_basic_message, ca_pairwise_create, ca_pairwise_invitation, ca_cred_offer,
  ca_cred_request, ca_proof_request, ca_proof_propose, ca_trust_ping, ca_basic_message,
  ca_continue_issue_credential_protocol, ca_continue_present_proof_protocol, ca_notify_status,
  ca_notify_user_action, sa_ping, sa_issue_credential_accept_propose,
  sa_present_proof_accept_propose, sa_present_proof_accept_values,
}
use findy_agent.Didcomm.{Msg, create, new_msg, protocol_for_type}
use findy_agent.Psm.{StateKey, State, Psm, Task, first_state}
use findy_agent.Psm.Sub.{SubState, sending}
use findy_agent.Prot.World.{Env, Proc, Fault, failing, get_psm}
use findy_agent.Prot.Update.{update_psm}
use findy_agent.Prot.Processor.{new_thread, not_nil}
use findy_agent.Prot.Status.{Status, calc_protocol_state}
use findy_agent.Protocol.{Agent, w_did, new_state_key, must, caught, caught_nil}
use findy_agent.Protocol.Tasks.{ProtocolArgs}

-- pb.ProtocolState with its ProtocolID
pub record ProtocolState : Type 0 where
  pub id : String
  pub type_id : ProtocolType
  pub role : Role
  pub state : Status

-- What the maps creators, starters, continuators and statusProviders have of each protocol. `T` is a
-- protocol's task, and `F` a status that its protocol has filled.
pub record Registry (T F : Type 0) : Type 0 where
  pub creators : Table String (Task → Option ProtocolArgs → Outcome T)
  pub starters : Table String (Agent → T → Proc (Unit {0}))
  pub continuators : Table String (Agent → Msg → Proc (Unit {0}))
  pub status_providers : Table String (StateKey → ProtocolState → Proc F)

module _ {T F : Type 0} where
  unfoldable pub add_creator :
      String → (Task → Option ProtocolArgs → Outcome T) → Registry T F → Registry T F
  add_creator t proc r = record r { creators = put r.creators t proc }

  unfoldable pub add_starter : String → (Agent → T → Proc (Unit {0})) → Registry T F → Registry T F
  add_starter t proc r = record r { starters = put r.starters t proc }

  unfoldable pub add_continuator :
      String → (Agent → Msg → Proc (Unit {0})) → Registry T F → Registry T F
  add_continuator t proc r = record r { continuators = put r.continuators t proc }

  unfoldable pub add_status_provider :
      String → (StateKey → ProtocolState → Proc F) → Registry T F → Registry T F
  add_status_provider t proc r = record r { status_providers = put r.status_providers t proc }

-- The map `typeID`: its key, ten times the role and the type, is told by both.
unfoldable pub type_id : Role → ProtocolType → Option String
type_id initiator did_exchange_type = some ca_pairwise_create
type_id addressee did_exchange_type = some ca_pairwise_invitation
type_id initiator issue_type = some ca_cred_offer
type_id addressee issue_type = some ca_cred_request
type_id initiator proof_type = some ca_proof_request
type_id addressee proof_type = some ca_proof_propose
type_id initiator ping_type = some ca_trust_ping
type_id initiator message_type = some ca_basic_message
type_id resumer issue_type = some ca_continue_issue_credential_protocol
type_id resumer proof_type = some ca_continue_present_proof_protocol
type_id _ _ = none

-- `s, ok := m[k]` with the assertion that the key is there.
abbrev pub asserted_key : {A : Type 0} → Fault → Option A → Outcome A
asserted_key fault none = failing fault
asserted_key fault (some a) = ok a

-- uniqueTypeID
unfoldable pub unique_type_id : Fault → Role → ProtocolType → Outcome String
unique_type_id fault role id = asserted_key fault (type_id role id)

-- The table protocolName.
unfoldable pub protocol_name : ProtocolType → String
protocol_name none_type = nothing
protocol_name did_exchange_type = aries_protocol_connection
protocol_name issue_type = protocol_issue_credential
protocol_name proof_type = protocol_present_proof
protocol_name ping_type = protocol_trust_ping
protocol_name message_type = protocol_basic_message

-- TaskBase.ProtocolType
unfoldable pub protocol_type : Task → Outcome ProtocolType
protocol_type t = elim (protocol_for_type t.type) [
  | ok family ↦ ok (protocol_type_for_family family)
  | err e ↦ err e
  | panicked ↦ panicked
]

-- pb.Notification_Type and pb.Question_Type, by the values that the source names.
pub data NotificationType : Type 0 where
  status_update protocol_paused : NotificationType

pub data QuestionType : Type 0 where
  no_question ping_waits issue_propose_waits proof_propose_waits proof_verify_waits : QuestionType

-- The map notificationTypeID, where it has the key.
unfoldable pub notification_type_id : String → Option NotificationType
notification_type_id t =
    if t == ca_notify_status
    then some status_update
    else if t == ca_notify_user_action
    then some protocol_paused
    else if t == sa_ping
    then some protocol_paused
    else if t == sa_issue_credential_accept_propose
    then some protocol_paused
    else if t == sa_present_proof_accept_propose
    then some protocol_paused
    else if t == sa_present_proof_accept_values
    then some protocol_paused
    else none

-- The map questionTypeID, where it has the key.
unfoldable pub question_type_id : String → Option QuestionType
question_type_id t =
    if t == ca_notify_user_action
    then some no_question
    else if t == sa_ping
    then some ping_waits
    else if t == sa_issue_credential_accept_propose
    then some issue_propose_waits
    else if t == sa_present_proof_accept_propose
    then some proof_propose_waits
    else if t == sa_present_proof_accept_values
    then some proof_verify_waits
    else none

module _ {T F : Type 0} (env : Env) (registry : Registry T F) (header_of : T → Task) where
  -- CreateTask
  unfoldable pub create_any_task : Task → Option ProtocolArgs → Outcome T
  create_any_task header protocol = elim (protocol_for_type header.type) [
    | ok family ↦ elim (get registry.creators family) [
      | none ↦ panicked
      | some creator ↦ creator header protocol
    ]
    | err e ↦ err e
    | panicked ↦ panicked
  ]

  -- updatePSM; its error is only logged.
  unfoldable pub update_task_psm : Agent → Task → SubState → Proc (Unit {0})
  update_task_psm receiver t state = caught env (
      update_psm env (w_did receiver) t.conn_id t
        (new_msg t.id t.type (
          create env.factors (record {
            type = t.type;
            aid = "";
            nonce = "";
            id = "";
            ready = false;
            thread = some (new_thread t.id);
          })))
        state)

  -- FindAndStartTask: the goroutine, if it is started.
  unfoldable pub find_and_start_task : Agent → T → Proc (Option (Proc (Unit {0})))
  find_and_start_task receiver task = caught_nil env (do
    starter ← lift (must (get registry.starters (header_of task).type))
    update_task_psm receiver (header_of task) sending
    pure (starter receiver task))

  -- Resume: the goroutine.
  unfoldable pub resume : Agent → String → String → Bool → Proc (Proc (Unit {0}))
  resume rcvr type_of protocol_id ack = do
    continuator ← lift (must (get registry.continuators type_of))
    pure (
        continuator rcvr (
          create env.factors (record {
            type = "";
            aid = "";
            nonce = protocol_id;
            id = protocol_id;
            ready = ack;
            thread = none;
          })))

  -- FillStatus
  unfoldable pub fill_status : String → StateKey → ProtocolState → Proc F
  fill_status protocol key ps = do
    provider ← lift (must (get registry.status_providers protocol))
    provider key ps

  -- The task header that taskFrom makes; the DID method is a setting.
  abbrev header_from : String → Role → String → String → Task
  header_from id role type_of conn_id = record {
    id = id;
    type = type_of;
    role = role;
    conn_id = conn_id;
    user_action_type = "";
    sender = "";
    receiver = "";
  }

  -- taskFrom, of the fields of the client's request
  unfoldable pub task_from : ProtocolType → String → ProtocolArgs → Proc T
  task_from type conn_id protocol = do
    id ← gets (λ w. env.uuid w)
    type_of ← lift (unique_type_id env.assertion protocol.role type)
    lift (create_any_task (header_from id protocol.role type_of conn_id) (some protocol))

  -- Start: the new task's id, and the goroutine.
  unfoldable pub service_start :
      Agent → ProtocolType → String → ProtocolArgs → Proc (String × Option (Proc (Unit {0})))
  service_start receiver type conn_id protocol = do
    task ← task_from type conn_id protocol
    started ← find_and_start_task receiver task
    pure ((header_of task).id, started)

  -- Resume of the service; `ack` is the client's answer.
  unfoldable pub service_resume :
      Agent → Role → ProtocolType → String → Bool → Proc (Proc (Unit {0}))
  service_resume receiver role type id ack = do
    type_of ← lift (unique_type_id env.assertion role type)
    resume receiver type_of id ack

  -- tryProtocolStatus: the status, and the connection.
  unfoldable pub try_protocol_status : StateKey → Proc (F × String)
  try_protocol_status key = do
    m ← get_psm env key
    first ← lift (must (first_state m))
    task ← lift (not_nil first.task)
    type ← lift (protocol_type task)
    state ← lift (calc_protocol_state m)
    filled ←
        fill_status (protocol_name type) key
          (record { id = key.nonce; type_id = type; role = m.role; state = state })
    pure (filled, m.conn_id)

  -- Status of the service
  unfoldable pub service_status : Agent → String → Proc F
  service_status receiver id = do
    status ← try_protocol_status (new_state_key receiver id)
    pure status.0
