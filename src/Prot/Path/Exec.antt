-- ===== src/Prot/Path/Exec.antt =====
-- ExecPSM from the received message to the end of the run, when nothing outside fails.
use findy_agent.Common.{
  ℕ, String, Bool, true, false, ◌≡◌, refl, sym, ap, some, List, [], ◌∷◌, ◌++◌, bit_or,
  if◌then◌else◌, last?, last?-append_one,
}
use mathlib.Core.Path.{subst}
use findy_agent.Common.Exec.{pure, gets, ◌>>=◌, ◌>>◌, on_error}
use findy_agent.Didcomm.{Msg, create, new_msg, new_payload}
use findy_agent.Psm.{StateKey, key_eq, Task}
use findy_agent.Common.Table.{Table}
use findy_agent.Psm.Rep.{Rep}
use findy_agent.Psm.Sub.{SubState, received, decrypted, sending, waiting, ready, accepts}
use findy_agent.Prot.World.{World, Env, Pipe, Proc, ask, find_pairwise}
use findy_agent.Prot.Update.{update_psm}
use findy_agent.Prot.Update.Step.{task_key}
use findy_agent.Prot.Processor.{
  Handler, Transition, Verdict, judge, exec_handler, exec_failed, exec_reply, settle, dispatch,
}
use findy_agent.Prot.Keeps.{Keeps, Keeps-if}
use findy_agent.Prot.Ends.{
  Ends, Ends-pure, Ends-if, Ends-on_error, Ends-weaken, Ends-also, Ends-bind,
}
use findy_agent.Prot.Reps.{update_psm-Keeps-IsReps, update_psm-Keeps_aside}
use findy_agent.Prot.Path.{IsTyped, IsHealthy, Trace, Last, Log, Logged, log_sent, AnswersQuietly}
use findy_agent.Prot.Path.Steps.{update_ends, Ends-as}
use findy_agent.Prot.Path.Settle.{
  final_of, rest_on, IsFlag, accepts-final, Trace-same, settled_type, Logged-IsAside, settle-Last,
  dispatch-Logged,
}

-- The types that a run may write are empty or well-formed.
pub record HasTypes (ts : Transition) : Type 0 where
  pub payload : IsTyped ts.payload.type
  pub send_next : IsTyped ts.send_next
  pub waiting_next : IsTyped ts.waiting_next
  pub send_on_nack : IsTyped ts.send_on_nack

settle-Keeps :
    (env : Env) (log : Log) (did conn_id : String) (task : Task) (waiting_next : String)
    (v : Verdict)
    → Keeps (Logged log) (settle env did conn_id task waiting_next v)
unfolding settle
settle-Keeps env log did conn_id task waiting_next v =
    Keeps-if v.is_last _ _
      (update_psm-Keeps_aside env (Logged log) (Logged-IsAside log) did conn_id task
        (new_payload env.factors task.id v.pl_type) (bit_or ready v.ack_flag))
      (update_psm-Keeps_aside env (Logged log) (Logged-IsAside log) did conn_id task
        (new_payload env.factors task.id waiting_next) waiting)

-- What is known of the messages after the verdict has been carried out.
abbrev pub log_after : Verdict → Bool → Log → Log
log_after v sends log = if sends then log_sent log v.pl_type else log

-- How a run ends: the machine's last payload, and the messages that were sent.
abbrev pub Settled : StateKey → Verdict → String → Log → World → Type 0
Settled key v waiting_next log w = Last key (settled_type v waiting_next) w × Logged log w

-- The thread has gone through `before`, its first payload with this type; `log` is what is known of the
-- messages that were sent.
module _ (env : Env) (healthy : IsHealthy env) (ts : Transition) (types : HasTypes ts)
    (before : List SubState) (type : String) (typed : IsTyped type) (log : Log) where
  abbrev run_key : Task → StateKey
  run_key task = task_key ts.my_did task

  abbrev so_far : List SubState
  so_far = (before ++ received ∷ []) ++ decrypted ∷ []

  last_decrypted : last? so_far ≡ some decrypted
  last_decrypted = last?-append_one (before ++ received ∷ []) decrypted

  settled :
      (task : Task) (v : Verdict) (subs : List SubState) (from : SubState) (w : World) (now : Log)
      → Trace (run_key task) subs type w
      → Logged now w
      → last? subs ≡ some from
      → accepts from (final_of v) ≡ true
      → IsTyped v.pl_type
      → Ends (settle env ts.my_did ts.conn_id task ts.waiting_next v) w (λ _ w'.
        Trace (run_key task) (subs ++ final_of v ∷ []) type w'
        × Settled (run_key task) v ts.waiting_next now w')
  settled task v subs from w now t g l a p =
      let m = settle env ts.my_did ts.conn_id task ts.waiting_next v in
      Ends-weaken m w
        (Ends-also m w
          (settle-Last env healthy ts.my_did ts.conn_id task ts.waiting_next v subs type from w t l
            a typed p types.waiting_next)
          ((settle-Keeps env now ts.my_did ts.conn_id task ts.waiting_next v).at w g))
        (λ _ w' q. (q.0.0, (q.0.1, q.1)))

  -- The message is sent and the machine settles.
  sent_ends :
      (task : Task) (v : Verdict) (pipe : Pipe) (om : Msg) (id : String) (w : World)
      → IsFlag v
      → IsTyped v.pl_type
      → Trace (run_key task) so_far type w
      → Logged log w
      → Ends
          (dispatch env ts.my_did ts.conn_id task pipe (new_msg id v.pl_type om)
            >> settle env ts.my_did ts.conn_id task ts.waiting_next v)
          w
          (λ _ w'.
            Trace (run_key task) ((so_far ++ sending ∷ []) ++ final_of v ∷ []) type w'
            × Settled (run_key task) v ts.waiting_next (log_sent log v.pl_type) w')
  unfolding new_msg accepts
  sent_ends task v pipe om id w f p t g =
      Ends-bind (dispatch env ts.my_did ts.conn_id task pipe (new_msg id v.pl_type om))
        (λ _. settle env ts.my_did ts.conn_id task ts.waiting_next v) w
        (dispatch-Logged env healthy log ts.my_did ts.conn_id task pipe (new_msg id v.pl_type om)
          so_far type decrypted w t g last_decrypted refl typed p)
        (λ _ w' t'.
          settled task v (so_far ++ sending ∷ []) sending w' (log_sent log v.pl_type) t'.0 t'.1
            (last?-append_one so_far sending) (accepts-final v f).0 p)

  pub reply_ends :
      (task : Task) (v : Verdict) (pipe : Pipe) (om : Msg) (w : World)
      → IsFlag v
      → IsTyped v.pl_type
      → Trace (run_key task) so_far type w
      → Logged log w
      → Ends (exec_reply env ts task v pipe om) w (λ _ w'.
        Trace (run_key task) (rest_on so_far v v.send_back) type w'
        × Settled (run_key task) v ts.waiting_next (log_after v v.send_back log) w')
  unfolding exec_reply
  reply_ends task v pipe om w f p t g =
      let Done : Bool → World → Type 0 = λ b w'.
        Trace (run_key task) (rest_on so_far v b) type w'
        × Settled (run_key task) v ts.waiting_next (log_after v b log) w' in
      let sends = do
        id ← gets (λ w. env.uuid w)
        endp ← on_error (exec_failed env ts task) (ask (λ w. env.endpoint w pipe))
        let task' = record task { receiver = endp }
        on_error (exec_failed env ts task') (
            dispatch env ts.my_did ts.conn_id task' pipe (new_msg id v.pl_type om)
            >> settle env ts.my_did ts.conn_id task' ts.waiting_next v)
      in let settles =
          on_error (exec_failed env ts task)
            (settle env ts.my_did ts.conn_id task ts.waiting_next v) in
        let task' = record task { receiver = healthy.address w pipe } in
        let go =
          dispatch env ts.my_did ts.conn_id task' pipe (new_msg (env.uuid w) v.pl_type om)
          >> settle env ts.my_did ts.conn_id task' ts.waiting_next v in
        Ends-if v.send_back sends settles w
          (λ e.
            Ends-weaken sends w
              (Ends-as sends (on_error (exec_failed env ts task') go) w w
                (rw (healthy.has_address w pipe) refl)
                (Ends-on_error (exec_failed env ts task') go w
                  (sent_ends task' v pipe om (env.uuid w) w f p t g)))
              (λ _ w' t'. subst (λ b. Done b w') (sym e) t'))
          (λ e.
            Ends-weaken settles w
              (Ends-on_error (exec_failed env ts task)
                (settle env ts.my_did ts.conn_id task ts.waiting_next v) w
                (settled task v so_far decrypted w log t g last_decrypted (accepts-final v f).1 p))
              (λ _ w' t'. subst (λ b. Done b w') (sym e) t'))

  pub handler_ends :
      (task : Task) (v : Verdict) (h : Handler) (acked : Bool) (reps : Table (ℕ × StateKey) Rep)
      (w : World)
      → AnswersQuietly log acked h
          (new_msg task.id ts.payload.type ts.payload)
          (create env.factors (record {
            type = ts.send_next;
            aid = "";
            nonce = "";
            id = "";
            ready = false;
            thread = some ts.payload.thread;
          }))
          reps
      → w.reps ≡ reps
      → Logged log w
      → Trace (run_key task) (before ++ received ∷ []) type w
      → Ends (exec_handler env ts task v h) w (λ r w'.
        (r.0 ≡ judge acked ts.send_on_nack v) × Trace (run_key task) so_far type w' × Logged log w')
  unfolding exec_handler find_pairwise new_msg accepts
  handler_ends task v h acked reps w ans same g t =
      let im = new_msg task.id ts.payload.type ts.payload in
      let om = create env.factors (record {
        type = ts.send_next;
        aid = "";
        nonce = "";
        id = "";
        ready = false;
        thread = some ts.payload.thread;
      }) in
      let pw = healthy.pairwise w ts.conn_id in
      let finish : Bool × Msg → Proc (Verdict × Pipe × Msg) = λ answer. pure (
        judge answer.0 ts.send_on_nack v,
        record { in_did = pw.my_did; out_did = pw.their_did },
        answer.1,
      ) in
      let go = update_psm env ts.my_did ts.conn_id task im decrypted >> (h im om >>= finish) in
      Ends-as (exec_handler env ts task v h) go w w
        (rw (exec_handler, find_pairwise, healthy.has_pairwise w ts.conn_id) refl)
        (Ends-bind (update_psm env ts.my_did ts.conn_id task im decrypted) (λ _. h im om >>= finish)
          w
          (Ends-also {Q = λ w'. (w'.reps ≡ reps) × Logged log w'}
            (update_psm env ts.my_did ts.conn_id task im decrypted) w
            (update_ends env healthy ts.my_did ts.conn_id task im decrypted
              (before ++ received ∷ []) type received w t (last?-append_one before received) refl
              typed types.payload)
            (
              (update_psm-Keeps-IsReps env reps ts.my_did ts.conn_id task im decrypted).at w same,
              (update_psm-Keeps_aside env (Logged log) (Logged-IsAside log) ts.my_did ts.conn_id
                    task im decrypted).at
                  w g,
            ))
          (λ _ w1 t1. Ends-bind (h im om) finish w1 (ans w1 t1.1.0 t1.1.1) (λ r w2 q.
            Ends-pure
              (
                judge r.0 ts.send_on_nack v,
                record { in_did = pw.my_did; out_did = pw.their_did },
                r.1,
              )
              w2
              (
                ap (λ b. judge b ts.send_on_nack v) q.0,
                Trace-same (run_key task) so_far type w1 w2 q.1 t1.0,
                q.2,
              ))))
