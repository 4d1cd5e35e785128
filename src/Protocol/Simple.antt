-- ===== src/Protocol/Simple.antt =====
-- protocol/trustping/trust_ping_protocol.go and protocol/basicmessage: a ping and its response, and the
-- messages between two agents.
pub mod Proofs
use findy_agent.Common.{String, ℕ, Bool, true, false, Option, none, some}
use findy_agent.Common.Exec.{Error, Outcome, ok, err, panicked, pure, lift, gets, ◌>>=◌, ◌>>◌}
use findy_agent.Pltype.{trust_ping_ping, trust_ping_response, terminate, basic_message_send}
use findy_agent.Didcomm.{Msg}
use findy_agent.Psm.{StateKey, Task}
use findy_agent.Psm.Rep.{
  Rep, BasicMessageRep, message_rep, issue_rep, proof_rep, basic_message_bucket,
}
use findy_agent.Prot.World.{
  World, Env, Proc, Pairwise, add_rep, get_rep, read_clock, find_pairwise, failing,
}
use findy_agent.Prot.Processor.{Handler, Initial, exec_psm, start_psm}
use findy_agent.Std.{as_basic_message, basic_message, BasicMessage}
use findy_agent.Protocol.{Agent, caught, caught_nil, w_did, Packet, must, transition}

-- createBasicMessageTask adds the content to the header.
pub record MessageTask : Type 0 where
  pub task : Task
  pub content : String

-- pb.ProtocolStatus_BasicMessageStatus
pub record MessageStatus : Type 0 where
  pub content : String
  pub sent_by_me : Bool
  pub delivered : Bool
  pub sent_timestamp : ℕ

abbrev ping_answer : Handler
ping_answer im om = pure (true, om)

module _ (env : Env) where
  -- startTrustPing
  unfoldable pub start_trust_ping : Agent → Task → Proc (Unit {0})
  start_trust_ping ca t = caught env (
      start_psm env (record {
        send_next = trust_ping_ping;
        waiting_next = trust_ping_response;
        worker_did = w_did ca;
        task = t;
        setup = λ key msg. pure msg;
      }))

  unfoldable pub handle_trust_ping : Packet → Proc (Unit {0})
  handle_trust_ping packet =
      exec_psm env (transition packet trust_ping_response terminate "" "" ping_answer)

  unfoldable pub handle_trust_ping_response : Packet → Proc (Unit {0})
  handle_trust_ping_response packet =
      exec_psm env (transition packet terminate terminate "" "" ping_answer)

  -- The Setup of startBasicMessage.
  unfoldable pub message_setup : MessageTask → StateKey → Msg → Proc Msg
  message_setup bm_task key om = do
    now ← read_clock env
    add_rep env (
        message_rep (record {
          key = key;
          pw_name = bm_task.task.conn_id;
          message = bm_task.content;
          send_timestamp = 0;
          timestamp = now;
          sent_by_me = true;
          delivered = true;
        }))
    msg ← lift (must (as_basic_message om.body))
    pure (record om { body = basic_message (record msg { content = bm_task.content }) })

  -- startBasicMessage
  unfoldable pub start_basic_message : Agent → MessageTask → Proc (Unit {0})
  start_basic_message ca bm_task = caught env (
      start_psm env (record {
        send_next = basic_message_send;
        waiting_next = terminate;
        worker_did = w_did ca;
        task = bm_task.task;
        setup = message_setup bm_task;
      }))

  -- The tHandler of handleBasicMessage.
  unfoldable pub message_handler : Packet → Handler
  message_handler packet im om = do
    pw ← find_pairwise env packet.conn_id
    bm ← lift (must (as_basic_message im.body))
    now ← read_clock env
    add_rep env (
        message_rep (record {
          key = record { did = packet.receiver.my_did; nonce = im.thread.id };
          pw_name = pw.id;
          message = bm.content;
          send_timestamp = bm.sent_time;
          timestamp = now;
          sent_by_me = false;
          delivered = true;
        }))
    pure (true, om)

  unfoldable pub handle_basic_message : Packet → Proc (Unit {0})
  handle_basic_message packet =
      exec_psm env (transition packet terminate terminate "" "" (message_handler packet))

  -- The type assertion on what GetRep gives: nothing, or another type, fails it.
  unfoldable pub message_rep_of : Option Rep → Outcome BasicMessageRep
  message_rep_of (some (message_rep r)) = ok r
  message_rep_of (some (issue_rep r)) = failing env.assertion
  message_rep_of (some (proof_rep r)) = failing env.assertion
  message_rep_of none = failing env.assertion

  -- getBasicMessageRep
  unfoldable pub get_basic_message_rep : String → String → Proc BasicMessageRep
  get_basic_message_rep worker_did task_id = do
    res ← get_rep env basic_message_bucket (record { did = worker_did; nonce = task_id })
    lift (message_rep_of res)

  -- fillBasicMessageStatus; on an error the status is nil.
  unfoldable pub fill_basic_message_status : String → String → Proc (Option MessageStatus)
  fill_basic_message_status worker_did task_id = caught_nil env (
      get_basic_message_rep worker_did task_id >>= λ msg. pure (record {
        content = msg.message;
        sent_by_me = msg.sent_by_me;
        delivered = msg.delivered;
        sent_timestamp = msg.send_timestamp;
      }))
