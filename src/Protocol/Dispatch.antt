-- ===== src/Protocol/Dispatch.antt =====
-- agent/comm/proc.go, and the handlers and continuators that each protocol registers: how a received
-- message finds its handler, and how the user's answer finds the step that goes on.
use findy_agent.Common.{String, ℕ, false, Option, none, some, List, map, if◌then◌else◌, ◌==◌}
use findy_agent.Common.Exec.{panicked, pure, lift, ◌>>=◌}
use findy_agent.Pltype.{
  protocol_issue_credential, protocol_present_proof, protocol_trust_ping, protocol_basic_message,
  handler_issue_credential_propose, handler_issue_credential_offer,
  handler_issue_credential_request, handler_issue_credential_issue, handler_issue_credential_ack,
  handler_issue_credential_nack, handler_present_proof_propose, handler_present_proof_request,
  handler_present_proof_presentation, handler_present_proof_ack, handler_present_proof_nack,
  handler_ping, handler_ping_response, handler_message, terminate,
  sa_issue_credential_accept_propose, sa_present_proof_accept_propose,
  sa_present_proof_accept_values, ca_notify_user_action,
}
use findy_agent.Didcomm.{Msg, protocol_for_type, protocol_msg_for_type}
use findy_agent.Psm.{present_task}
use findy_agent.Prot.World.{Env, Proc, failing, get_psm}
use findy_agent.Prot.Processor.{exec_psm, not_nil}
use findy_agent.Std.{CredAttribute, ProofAttribute}
use findy_agent.Protocol.{Agent, w_did, Packet, Indy, Codec, transition, caught, caught_nil}
use findy_agent.Protocol.Simple.{
  handle_trust_ping, handle_trust_ping_response, handle_basic_message,
}
use findy_agent.Protocol.Issue.{the_issue_cred_rep}
use findy_agent.Protocol.Issue.Issuer.{
  handle_credential_propose, handle_credential_request, handle_credential_ack,
  continue_credential_propose,
}
use findy_agent.Protocol.Issue.Holder.{
  handle_credential_offer, handle_credential_issue, user_action_credential,
}
use findy_agent.Protocol.Proof.{Proofs, ProofCodec, the_proof_rep}
use findy_agent.Protocol.Proof.Prover.{handle_request_presentation, user_action_proof_presentation}
use findy_agent.Protocol.Proof.Verifier.{
  handle_propose_presentation, handle_presentation, continue_propose_presentation,
  continue_handle_presentation,
}
use findy_agent.Protocol.Proof.Start.{handle_proof_ack, handle_proof_nack}

-- comm.HandlerFunc
abbrev pub HandlerFunc : Type 0
HandlerFunc = Packet → Proc (Unit {0})

-- handleCredentialNACK
unfoldable pub handle_credential_nack : Env → HandlerFunc
handle_credential_nack env packet =
    exec_psm env (transition packet terminate terminate "" "" (λ im om. pure (false, om)))

-- A map that misses a key: the processor panics.
abbrev found_or_panic : {A : Type 0} → Option A → (A → Proc (Unit {0})) → Proc (Unit {0})
found_or_panic none f = lift panicked
found_or_panic (some a) f = f a

-- ProtProc.Process
unfoldable pub prot_process : (String → Option HandlerFunc) → HandlerFunc
prot_process handlers packet = do
  msg ← lift (protocol_msg_for_type packet.payload.type)
  found_or_panic (handlers msg) (λ handler. handler packet)

-- processor.Process
unfoldable pub process : (String → Option HandlerFunc) → HandlerFunc
process prot_handlers packet = do
  family ← lift (protocol_for_type packet.payload.type)
  found_or_panic (prot_handlers family) (λ handler. handler packet)

-- pb.ProtocolStatus_IssueCredentialStatus
pub record IssueStatus : Type 0 where
  pub cred_def_id : String
  pub schema_id : String
  pub attributes : List (String × String)

-- pb.ProtocolStatus_PresentProofStatus: the name, the credential definition and the value.
pub record ProofStatus : Type 0 where
  pub attributes : List (String × String × String)

module _ {Search : Type 0} (env : Env) (indy : Indy) (codec : Codec) (lib : Proofs Search)
    (proof_codec : ProofCodec) (fuel : ℕ) where
  -- issueCredentialProcessor.Handlers
  unfoldable pub issue_handlers : String → Option HandlerFunc
  issue_handlers msg =
      if msg == handler_issue_credential_propose
      then some (handle_credential_propose env indy codec)
      else if msg == handler_issue_credential_offer
      then some (handle_credential_offer env indy codec)
      else if msg == handler_issue_credential_request
      then some (handle_credential_request env indy codec)
      else if msg == handler_issue_credential_issue
      then some (handle_credential_issue env indy codec)
      else if msg == handler_issue_credential_ack
      then some (handle_credential_ack env indy codec)
      else if msg == handler_issue_credential_nack
      then some (handle_credential_nack env)
      else none

  -- presentProofProcessor.Handlers
  unfoldable pub proof_handlers : String → Option HandlerFunc
  proof_handlers msg =
      if msg == handler_present_proof_propose
      then some (handle_propose_presentation env lib proof_codec)
      else if msg == handler_present_proof_request
      then some (handle_request_presentation env lib proof_codec fuel)
      else if msg == handler_present_proof_presentation
      then some (handle_presentation env lib proof_codec)
      else if msg == handler_present_proof_ack
      then some (handle_proof_ack env)
      else if msg == handler_present_proof_nack
      then some (handle_proof_nack env)
      else none

  -- trustPingProcessor.Handlers
  unfoldable pub ping_handlers : String → Option HandlerFunc
  ping_handlers msg =
      if msg == handler_ping
      then some (handle_trust_ping env)
      else if msg == handler_ping_response
      then some (handle_trust_ping_response env)
      else none

  -- basicMessageProcessor.Handlers
  unfoldable pub message_handlers : String → Option HandlerFunc
  message_handlers msg = if msg == handler_message then some (handle_basic_message env) else none

  -- What the four protocols have added to `comm.Proc`.
  unfoldable pub prot_handlers : String → Option HandlerFunc
  prot_handlers family =
      if family == protocol_issue_credential
      then some (prot_process issue_handlers)
      else if family == protocol_present_proof
      then some (prot_process proof_handlers)
      else if family == protocol_trust_ping
      then some (prot_process ping_handlers)
      else if family == protocol_basic_message
      then some (prot_process message_handlers)
      else none

  -- The map `continuators` of the issue credential protocol.
  unfoldable pub issue_continuators : String → Option (Agent → Msg → Proc (Unit {0}))
  issue_continuators user_action =
      if user_action == sa_issue_credential_accept_propose
      then some (continue_credential_propose env indy codec)
      else if user_action == ca_notify_user_action
      then some (user_action_credential env indy codec)
      else none

  -- The map `continuators` of the present proof protocol.
  unfoldable pub proof_continuators : String → Option (Agent → Msg → Proc (Unit {0}))
  proof_continuators user_action =
      if user_action == sa_present_proof_accept_propose
      then some (continue_propose_presentation env lib proof_codec)
      else if user_action == sa_present_proof_accept_values
      then some (continue_handle_presentation env lib proof_codec)
      else if user_action == ca_notify_user_action
      then some (user_action_proof_presentation env lib proof_codec fuel)
      else none

  -- The body of both functions continueProtocol: the machine's last task says what the user is asked.
  unfoldable pub continuing :
      (String → Option (Agent → Msg → Proc (Unit {0}))) → Agent → Msg → Proc (Unit {0})
  continuing continuators ca im = if im.thread.id == "" then lift (failing env.assertion) else (do
    state ← get_psm env (record { did = w_did ca; nonce = im.thread.id })
    present ← lift (present_task state)
    task ← lift (not_nil present)
    found_or_panic (continuators task.user_action_type) (λ continuator. continuator ca im))

  -- continueProtocol of issuecredential
  unfoldable pub continue_issue_credential : Agent → Msg → Proc (Unit {0})
  continue_issue_credential ca im = caught env (continuing issue_continuators ca im)

  -- continueProtocol of presentproof
  unfoldable pub continue_present_proof : Agent → Msg → Proc (Unit {0})
  continue_present_proof ca im = caught env (continuing proof_continuators ca im)

  -- fillIssueCredentialStatus
  unfoldable pub fill_issue_credential_status : String → String → Proc (Option IssueStatus)
  fill_issue_credential_status worker_did task_id = caught_nil env (
      the_issue_cred_rep env (record { did = worker_did; nonce = task_id }) >>= λ rep.
      lift (codec.offer_schema_id rep.cred_offer) >>= λ schema_id. pure (record {
        cred_def_id = rep.cred_def_id;
        schema_id = schema_id;
        attributes = map (λ (a : CredAttribute). (a.name, a.value)) rep.attributes;
      }))

  -- fillPresentProofStatus
  unfoldable pub fill_present_proof_status : String → String → Proc (Option ProofStatus)
  fill_present_proof_status worker_did task_id = caught_nil env (
      the_proof_rep env (record { did = worker_did; nonce = task_id }) >>= λ rep. pure (record {
        attributes = map (λ (a : ProofAttribute). (a.name, a.cred_def_id, a.value)) rep.attributes;
      }))
