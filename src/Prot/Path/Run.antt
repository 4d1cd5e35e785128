-- ===== src/Prot/Path/Run.antt =====
-- The path of a whole run of ExecPSM for a new thread.
use findy_agent.Common.{
  String, Bool, true, false, ◌≡◌, refl, ap, inl, inr, none, some, List, [], ◌∷◌, ◌++◌, last?,
  if◌then◌else◌, ◌==◌, arith, Bool-cases,
}
use mathlib.Core.Path.{subst}
use findy_agent.Common.Table.{get}
use findy_agent.Common.Exec.{◌>>=◌, ◌>>◌, on_error}
use findy_agent.Didcomm.{Msg}
use findy_agent.Psm.{key_eq}
use findy_agent.Psm.Sub.{SubState, received, decrypted, failure, accepts}
use findy_agent.Prot.World.{World, Env, Pipe, Proc}
use findy_agent.Prot.Update.{update_psm}
use findy_agent.Prot.Update.Step.{task_key}
use findy_agent.Prot.Processor.{
  Handler, Transition, Verdict, judge, exec_verdict, exec_psm, exec_task, exec_received,
  exec_handler, exec_failed, exec_reply,
}
use findy_agent.Prot.Keeps.{Keeps-on_error}
use findy_agent.Prot.Reps.{update_psm-Keeps-IsReps, update_psm-Keeps_aside}
use findy_agent.Prot.Ends.{Ends, Ends-also, Ends-on_error, Ends-weaken, Ends-bind}
use findy_agent.Prot.Path.{
  IsTyped, IsHealthy, Trace, Log, Logged, Answers, AnswersQuietly, exec_in, exec_out, exec_subs,
  exec_after, exec_sends, exec_final,
}
use findy_agent.Prot.Path.Steps.{update_ends, update_ends_new, Ends-as}
use findy_agent.Prot.Path.Settle.{final_of, rest_on, IsFlag, create_task_ends, Logged-IsAside}
use findy_agent.Prot.Path.Exec.{HasTypes, log_after, Settled, reply_ends, handler_ends}

-- The verdict after the handler's answer sends and settles as it should.
judged :
    (ts : Transition) (h : Handler) (acked : Bool)
    → ts.in_out ≡ some h
    → let v = judge acked ts.send_on_nack (exec_verdict ts) in
      (v.send_back ≡ exec_sends ts acked) × (final_of v ≡ exec_final ts acked) × IsFlag v
unfolding judge exec_verdict
judged ts h true e = (rw e (ground arith), ground arith, inl refl)
judged ts h false e = elim (Bool-cases (ts.send_on_nack == "")) [
  | inl n ↦ (rw (e, n) (ground arith), rw n refl, inr (rw n refl))
  | inr n ↦ (rw (e, n) (ground arith), rw n refl, inr (rw n refl))
]

if-IsTyped : (b : Bool) (s t : String) → IsTyped s → IsTyped t → IsTyped (if b then s else t)
if-IsTyped true s t hs ht = hs
if-IsTyped false s t hs ht = ht

judged-IsTyped :
    (ts : Transition) (acked : Bool)
    → HasTypes ts
    → IsTyped (judge acked ts.send_on_nack (exec_verdict ts)).pl_type
unfolding judge exec_verdict
judged-IsTyped ts true types =
    if-IsTyped (exec_verdict ts).send_back ts.send_next ts.payload.type types.send_next
      types.payload
judged-IsTyped ts false types =
    let own =
      if-IsTyped (exec_verdict ts).send_back ts.send_next ts.payload.type types.send_next
        types.payload in
    elim (Bool-cases (ts.send_on_nack == "")) [ inl n ↦ rw n own | inr n ↦ rw n types.send_on_nack ]

-- The verdict on a run whose handler answers `acked`.
abbrev pub verdict_of : Transition → Bool → Verdict
verdict_of ts acked = judge acked ts.send_on_nack (exec_verdict ts)

-- What is known of the messages after such a run.
abbrev pub exec_log : Transition → Bool → Log → Log
exec_log ts acked log = log_after (verdict_of ts acked) (verdict_of ts acked).send_back log

module _ (env : Env) (healthy : IsHealthy env) (ts : Transition) (types : HasTypes ts)
    (before : List SubState) (type : String) (typed : IsTyped type) (log : Log) where
  -- What holds at the end of the run.
  abbrev Ended : Bool → World → Type 0
  Ended acked w =
      Trace (task_key ts.my_did (exec_task env ts)) (exec_after before ts acked) type w
      × Settled (task_key ts.my_did (exec_task env ts)) (verdict_of ts acked) ts.waiting_next
          (exec_log ts acked log) w

  abbrev save : Proc (Unit {0})
  save = update_psm env ts.my_did ts.conn_id (exec_task env ts) ts.payload received

  -- The run, once the received message has been saved.
  exec_from :
      (h : Handler) (acked : Bool) (w : World)
      → ts.in_out ≡ some h
      → AnswersQuietly log acked h (exec_in env ts) (exec_out env ts) w.reps
      → Logged log w
      → Ends save w
          (λ _ w'. Trace (task_key ts.my_did (exec_task env ts)) (before ++ received ∷ []) type w')
      → Ends (exec_psm env ts) w (λ _ w'. Ended acked w')
  unfolding exec_psm exec_received exec_task exec_failed
  exec_from h acked w e ans g saved =
      let task = exec_task env ts in
      let key = task_key ts.my_did task in
      let v = exec_verdict ts in
      let j = judged ts h acked e in
      let failed = exec_failed env ts task in
      let first = on_error failed save in
      let handled_by = on_error failed (exec_handler env ts task v h) in
      let reply : Verdict × Pipe × Msg → Proc (Unit {0}) =
        λ r. exec_reply env ts task r.0 r.1 r.2 in
      let go = first >> (handled_by >>= reply) in
      Ends-as (exec_psm env ts) go w w
        (rw (exec_psm, create_task_ends env healthy task types.payload)
          (ap (λ o. (first >> exec_received env ts task v o) w) e))
        (Ends-bind first (λ _. handled_by >>= reply) w
          (Ends-also {Q = λ w'. (w'.reps ≡ w.reps) × Logged log w'} first w
            (Ends-on_error failed save w saved)
            (
              (Keeps-on_error failed save
                    (λ e.
                      update_psm-Keeps-IsReps env w.reps ts.my_did ts.conn_id task ts.payload
                        failure)
                    (update_psm-Keeps-IsReps env w.reps ts.my_did ts.conn_id task ts.payload
                      received)).at
                  w refl,
              (Keeps-on_error failed save
                    (λ e.
                      update_psm-Keeps_aside env (Logged log) (Logged-IsAside log) ts.my_did
                        ts.conn_id task ts.payload failure)
                    (update_psm-Keeps_aside env (Logged log) (Logged-IsAside log) ts.my_did
                      ts.conn_id task ts.payload received)).at
                  w g,
            ))
          (λ _ w1 t1.
            Ends-bind handled_by reply w1
              (Ends-on_error failed (exec_handler env ts task v h) w1 (
                handler_ends env healthy ts types before type typed log task v h acked w.reps w1 ans
                  t1.1.0 t1.1.1 t1.0))
              (λ r w2 q.
                let v' = judge acked ts.send_on_nack v in
                let subs : rest_on ((before ++ received ∷ []) ++ decrypted ∷ []) v' v'.send_back
                    ≡ exec_after before ts acked =
                  rw (j.0, j.1) refl in
                rw (q.0) (
                  Ends-weaken (exec_reply env ts task v' r.1 r.2) w2
                    (reply_ends env healthy ts types before type typed log task v' r.1 r.2 w2 j.2
                      (judged-IsTyped ts acked types) q.1 q.2)
                    (λ _ w3 t3. (subst (λ l. Trace key l type w3) subs t3.0, t3.1))))))

  -- A thread that has a machine in which the received message is accepted, when nothing outside fails and
  -- the handler sends nothing by itself: ExecPSM returns, the machine has gone on over received, decrypted
  -- and, where a message is sent, sending to the end that the handler's answer asks for, its last payload
  -- is the verdict's, and what was sent is the verdict's message, if it asks for one.
  pub exec_again :
      (h : Handler) (acked : Bool) (from : SubState) (w : World)
      → ts.in_out ≡ some h
      → AnswersQuietly log acked h (exec_in env ts) (exec_out env ts) w.reps
      → Logged log w
      → Trace (task_key ts.my_did (exec_task env ts)) before type w
      → last? before ≡ some from
      → accepts from received ≡ true
      → Ends (exec_psm env ts) w (λ _ w'. Ended acked w')
  exec_again h acked from w e ans g t l a = exec_from h acked w e ans g (
      update_ends env healthy ts.my_did ts.conn_id (exec_task env ts) ts.payload received before
        type from w t l a typed types.payload)

-- The same of a new thread.
pub exec_new :
    (env : Env) (ts : Transition) (log : Log) (h : Handler) (acked : Bool) (w : World)
    → IsHealthy env
    → HasTypes ts
    → ts.in_out ≡ some h
    → AnswersQuietly log acked h (exec_in env ts) (exec_out env ts) w.reps
    → Logged log w
    → get w.psms (task_key ts.my_did (exec_task env ts)) ≡ none
    → Ends (exec_psm env ts) w (λ _ w'.
      Trace (task_key ts.my_did (exec_task env ts)) (exec_subs ts acked) ts.payload.type w'
      × Settled
          (task_key ts.my_did (exec_task env ts))
          (verdict_of ts acked)
          ts.waiting_next
          (exec_log ts acked log)
          w')
exec_new env ts log h acked w healthy types e ans g new =
    exec_from env healthy ts types [] ts.payload.type types.payload log h acked w e ans g (
      update_ends_new env healthy ts.my_did ts.conn_id (exec_task env ts) ts.payload received w new
        types.payload)

-- A new thread, when nothing outside fails: ExecPSM returns, and the machine has gone from received over
-- decrypted and, where a message is sent, sending to the end that the handler's answer asks for.
pub exec_path :
    (env : Env) (ts : Transition) (h : Handler) (acked : Bool) (w : World)
    → IsHealthy env
    → HasTypes ts
    → ts.in_out ≡ some h
    → Answers acked h (exec_in env ts) (exec_out env ts) w.reps
    → get w.psms (task_key ts.my_did (exec_task env ts)) ≡ none
    → Ends (exec_psm env ts) w (λ _ w'.
      Trace (task_key ts.my_did (exec_task env ts)) (exec_subs ts acked) ts.payload.type w')
exec_path env ts h acked w healthy types e ans new =
    Ends-weaken (exec_psm env ts) w
      (exec_new env ts none h acked w healthy types e
        (λ w1 same g.
          Ends-weaken (h (exec_in env ts) (exec_out env ts)) w1 (ans w1 same)
            (λ _ _ q. (q.0, q.1, tt)))
        tt new)
      (λ _ _ q. q.0)
