-- ===== src/Prot/Processor.antt =====
-- agent/prot/processor.go: how a protocol state machine is started, driven by a received message, and
-- continued by the user.
use findy_agent.Common.{
  String, Bool, true, false, not, ◌&&◌, Option, none, some, bit_or, if◌then◌else◌, ◌==◌,
}
use findy_agent.Common.Exec.{
  Error, Outcome, ok, err, panicked, pure, ◌>>=◌, ◌>>◌, lift, gets, on_error,
}
use findy_agent.Pltype.{terminate}
use findy_agent.Didcomm.{Msg, Thread, create, new_msg, new_payload, thread_id, protocol_for_type}
use findy_agent.Psm.{StateKey, Psm, Task, present_task}
use findy_agent.Psm.Sub.{
  SubState, ack, nack, ready, ready_ack, waiting, received, decrypted, sending, failure,
}
use findy_agent.Prot.World.{Env, Proc, Pipe, ask, find_pairwise, get_psm, send_pl}
use findy_agent.Prot.Update.{update_psm}

-- A protocol's handler: it reads the incoming message, fills the outgoing one, and says ACK or NACK.
abbrev pub Handler : Type 0
Handler = Msg → Msg → Proc (Bool × Msg)

pub record Initial : Type 0 where
  pub send_next : String
  pub waiting_next : String
  pub worker_did : String
  pub task : Task
  pub setup : StateKey → Msg → Proc Msg

pub record Again : Type 0 where
  pub worker_did : String
  pub in_msg : Msg
  pub send_next : String
  pub waiting_next : String
  pub send_on_nack : String
  pub transfer : Handler

pub record Transition : Type 0 where
  pub my_did : String
  pub conn_id : String
  pub payload : Msg
  pub send_next : String
  pub waiting_next : String
  pub send_on_nack : String
  pub in_out : Option Handler
  pub task_header : Task

-- decorator.NewThread(id, "")
abbrev pub new_thread : String → Thread
new_thread id = record { id = id; pid = "" }

-- What the processor knows when the handler has answered.
pub record Verdict : Type 0 where
  pub send_back : Bool
  pub pl_type : String
  pub is_last : Bool
  pub ack_flag : SubState

-- After a NACK: a NACK message is sent if there is one, and the machine ends.
unfoldable pub judge : Bool → String → Verdict → Verdict
judge acked send_on_nack v =
    if acked
    then v
    else if send_on_nack == ""
    then record v { is_last = true; ack_flag = nack }
    else record { send_back = true; pl_type = send_on_nack; is_last = true; ack_flag = nack }

abbrev pub is_some {ℓ} : {A : Type ℓ} → Option A → Bool
is_some none = false
is_some (some a) = true

unfoldable pub exec_verdict : Transition → Verdict
exec_verdict ts =
    let send_back = not (ts.send_next == terminate) && is_some ts.in_out in
    record {
      send_back = send_back;
      pl_type = (if send_back then ts.send_next else ts.payload.type);
      is_last = ts.waiting_next == terminate;
      ack_flag = ack;
    }

-- A method call on a task: a nil task panics.
abbrev pub not_nil : Option Task → Outcome Task
not_nil none = panicked
not_nil (some t) = ok t

-- The messages that ContinuePSM makes for its handler.
abbrev pub continue_in : Env → Again → Msg
continue_in env shift = create env.factors (record {
  type = "";
  aid = "";
  nonce = shift.in_msg.sub_level_id;
  id = "";
  ready = shift.in_msg.ready;
  thread = none;
})

abbrev pub continue_out : Env → Again → Msg
continue_out env shift = create env.factors (record {
  type = shift.send_next;
  aid = "";
  nonce = "";
  id = "";
  ready = false;
  thread = some (new_thread shift.in_msg.sub_level_id);
})

module _ (env : Env) where
  -- CreateTask with no protocol: a missing creator panics.
  unfoldable pub create_task : Task → Outcome Task
  create_task header = elim (protocol_for_type header.type) [
    | ok protocol_type ↦ elim (env.creators protocol_type) [
      | none ↦ panicked
      | some creator ↦ creator header
    ]
    | err e ↦ err e
    | panicked ↦ panicked
  ]

  -- The last step of every run: the machine is ready, or waits for the next message.
  unfoldable pub settle : String → String → Task → String → Verdict → Proc (Unit {0})
  settle me_did conn_id task waiting_next v =
      if v.is_last
      then update_psm env me_did conn_id task (new_payload env.factors task.id v.pl_type)
          (bit_or ready v.ack_flag)
      else update_psm env me_did conn_id task (new_payload env.factors task.id waiting_next) waiting

  -- The message goes out only after the machine is saved as sending.
  unfoldable pub dispatch : String → String → Task → Pipe → Msg → Proc (Unit {0})
  dispatch me_did conn_id task pipe opl = do
    update_psm env me_did conn_id task opl sending
    send_pl env pipe task opl

  -- StartPSM, when the receiver's address is known.
  unfoldable pub start_with : Initial → Pipe → Task → Proc (Unit {0})
  start_with ts pipe task = do
    msg ←
        ts.setup (record { did = ts.worker_did; nonce = task.id })
          (create env.factors (record {
            type = ts.send_next;
            aid = "";
            nonce = "";
            id = "";
            ready = false;
            thread = some (new_thread task.id);
          }))
    dispatch ts.worker_did task.conn_id task pipe (new_msg task.id ts.send_next msg)
    update_psm env ts.worker_did task.conn_id task (new_payload env.factors task.id ts.waiting_next)
        (if ts.waiting_next == terminate then ready_ack else waiting)

  -- The error handler of StartPSM; it reads the task as it is when the error arrives.
  unfoldable pub start_failed : Initial → Task → Error → Proc (Unit {0})
  start_failed ts task e =
      update_psm env ts.worker_did task.conn_id task (new_payload env.factors task.id ts.send_next)
        failure

  unfoldable pub start_psm : Initial → Proc (Unit {0})
  start_psm ts = do
    pipe ← on_error (start_failed ts ts.task) (ask (λ w. env.pw_pipe w ts.task.conn_id))
    endp ← on_error (start_failed ts ts.task) (ask (λ w. env.endpoint w pipe))
    on_error (start_failed ts (record ts.task { receiver = endp }))
        (start_with ts pipe (record ts.task { receiver = endp }))

  -- ExecPSM from the received message to the handler's answer. The incoming message is the payload,
  -- whose id the processor has set to the task's.
  unfoldable pub exec_handler : Transition → Task → Verdict → Handler → Proc (Verdict × Pipe × Msg)
  exec_handler ts task v in_out = do
    pw ← find_pairwise env ts.conn_id
    let im = new_msg task.id ts.payload.type ts.payload
    update_psm env ts.my_did ts.conn_id task im decrypted
    answer ← in_out im (
        create env.factors (record {
          type = ts.send_next;
          aid = "";
          nonce = "";
          id = "";
          ready = false;
          thread = some ts.payload.thread;
        }))
    pure (
      judge answer.0 ts.send_on_nack v,
      record { in_did = pw.my_did; out_did = pw.their_did },
      answer.1,
    )

  -- The error handler of ExecPSM.
  unfoldable pub exec_failed : Transition → Task → Error → Proc (Unit {0})
  exec_failed ts task e = update_psm env ts.my_did ts.conn_id task ts.payload failure

  -- ExecPSM from the handler's answer to the end.
  unfoldable pub exec_reply : Transition → Task → Verdict → Pipe → Msg → Proc (Unit {0})
  exec_reply ts task v pipe om =
      if v.send_back
      then (do
        id ← gets (λ w. env.uuid w)
        endp ← on_error (exec_failed ts task) (ask (λ w. env.endpoint w pipe))
        let task' = record task { receiver = endp }
        on_error (exec_failed ts task') (
            dispatch ts.my_did ts.conn_id task' pipe (new_msg id v.pl_type om)
            >> settle ts.my_did ts.conn_id task' ts.waiting_next v))
      else on_error (exec_failed ts task) (settle ts.my_did ts.conn_id task ts.waiting_next v)

  -- With no handler there is no message to send.
  unfoldable pub exec_received : Transition → Task → Verdict → Option Handler → Proc (Unit {0})
  exec_received ts task v none =
      on_error (exec_failed ts task) (settle ts.my_did ts.conn_id task ts.waiting_next v)
  exec_received ts task v (some in_out) = do
    r ← on_error (exec_failed ts task) (exec_handler ts task v in_out)
    exec_reply ts task r.0 r.1 r.2

  unfoldable pub exec_task : Transition → Task
  exec_task ts = record ts.task_header { id = thread_id ts.payload; type = ts.payload.type }

  unfoldable pub exec_psm : Transition → Proc (Unit {0})
  exec_psm ts = do
    task ← lift (create_task (exec_task ts))
    on_error (exec_failed ts task) (update_psm env ts.my_did ts.conn_id task ts.payload received)
    exec_received ts task (exec_verdict ts) ts.in_out

  unfoldable pub continue_reply : Again → Psm → Option Task → Verdict → Pipe → Msg → Proc (Unit {0})
  continue_reply shift m present v pipe om =
      if v.send_back
      then (do
        id ← gets (λ w. env.uuid w)
        endp ← ask (λ w. env.endpoint w pipe)
        task ← lift (not_nil present)
        let task' = record task { receiver = endp }
        dispatch m.key.did m.conn_id task' pipe (new_msg id v.pl_type om)
        settle m.key.did m.conn_id task' shift.waiting_next v)
      else (do task ← lift (not_nil present); settle m.key.did m.conn_id task shift.waiting_next v)

  -- ContinuePSM; it has no error handler that updates the machine.
  unfoldable pub continue_psm : Again → Proc (Unit {0})
  continue_psm shift = do
    m ← get_psm env (record { did = shift.worker_did; nonce = shift.in_msg.sub_level_id })
    present ← lift (present_task m)
    pw ← find_pairwise env m.conn_id
    answer ← shift.transfer (continue_in env shift) (continue_out env shift)
    continue_reply shift m present
        (judge answer.0 shift.send_on_nack (record {
          send_back = not (shift.send_next == terminate);
          pl_type = shift.send_next;
          is_last = shift.waiting_next == terminate;
          ack_flag = ack;
        }))
        (record { in_did = pw.my_did; out_did = pw.their_did }) answer.1
