-- ===== src/Prot/Path/Fails.antt =====
-- ExecPSM when the protocol's handler fails and nothing else does (agent/prot/processor.go): the error
-- handler marks the machine as failed.
use findy_agent.Common.{
  ℕ, String, Bool, true, false, ◌≡◌, refl, sym, ap, ◌∙◌, some, none, List, [], ◌∷◌, ◌++◌, last?,
  last?-append_one,
}
use mathlib.Core.Path.{subst}
use findy_agent.Common.Table.{Table, get}
use findy_agent.Common.Exec.{Error, Outcome, ok, err, ◌>>=◌, ◌>>◌, on_error}
use findy_agent.Didcomm.{Msg, new_msg}
use findy_agent.Psm.{StateKey, key_eq, Task}
use findy_agent.Psm.Rep.{Rep}
use findy_agent.Psm.Sub.{SubState, received, decrypted, failure, accepts}
use findy_agent.Prot.World.{World, Env, Pipe, Proc, find_pairwise}
use findy_agent.Prot.Update.{update_psm}
use findy_agent.Prot.Update.Step.{task_key}
use findy_agent.Prot.Processor.{
  Handler, Transition, Verdict, exec_psm, exec_task, exec_verdict, exec_handler, exec_failed,
  exec_reply, exec_received, judge,
}
use findy_agent.Prot.Keeps.{Keeps-on_error}
use findy_agent.Prot.Reps.{update_psm-Keeps-IsReps}
use findy_agent.Prot.Ends.{Ends, Ends-also, Ends-on_error}
use findy_agent.Prot.Path.{IsTyped, IsHealthy, Trace, exec_in, exec_out}
use findy_agent.Prot.Path.Steps.{update_ends, update_ends_new}
use findy_agent.Prot.Path.Settle.{Trace-same, create_task_ends}
use findy_agent.Prot.Path.Exec.{HasTypes}

-- `m` fails with this error from `w`, and `P` holds of the state that it leaves.
pub record Fails {A : Type 0} (m : Proc A) (e : Error) (w : World) (P : World → Type 0)
    : Type 0 where
  pub returns : (m w).0 ≡ err e
  pub post : P (m w).1

module _ {A : Type 0} {P : World → Type 0} (e : Error) where
  -- A run that fails as another does.
  Fails-as : (m n : Proc A) (w w' : World) → m w ≡ n w' → Fails n e w' P → Fails m e w P
  Fails-as m n w w' same f = record {
    returns = ap (λ r. r.0) same ∙ f.returns;
    post = subst (λ r. P r.1) (sym same) f.post;
  }

  -- The error handler runs, and the error is the one that it was called with.
  Fails-on_error :
      {Q : World → Type 0} (h : Error → Proc (Unit {0})) (m : Proc A) (w : World)
      → Fails m e w P
      → ((w' : World) → P w' → Ends (h e) w' (λ _. Q))
      → Fails (on_error h m) e w Q
  Fails-on_error h m w f k =
      let c = k (m w).1 f.post in
      record { returns = rw (f.returns, c.returns) refl; post = rw (f.returns) c.post }

module _ {A B : Type 0} {Q : World → Type 0} (e : Error) where
  Fails-bind : (m : Proc A) (f : A → Proc B) (w : World) → Fails m e w Q → Fails (m >>= f) e w Q
  Fails-bind m f w d = record { returns = rw (d.returns) refl; post = rw (d.returns) d.post }

  Fails-after :
      {P : A → World → Type 0} (m : Proc A) (f : A → Proc B) (w : World)
      → Ends m w P
      → ((a : A) (w' : World) → P a w' → Fails (f a) e w' Q)
      → Fails (m >>= f) e w Q
  Fails-after m f w d k =
      let rest = k d.value (m w).1 d.post in
      record { returns = rw (d.returns) rest.returns; post = rw (d.returns) rest.post }

-- Where the representatives are these, the handler fails with this error, and leaves the machines alone.
abbrev pub Refuses : Error → Handler → Msg → Msg → Table (ℕ × StateKey) Rep → Type 0
Refuses e h im om reps = (w : World) → w.reps ≡ reps → Fails (h im om) e w (λ w'. w'.psms ≡ w.psms)

module _ (env : Env) (healthy : IsHealthy env) (ts : Transition) (types : HasTypes ts)
    (before : List SubState) (type : String) (typed : IsTyped type) (h : Handler) (e : Error)
    (w : World) where
  abbrev task : Task
  task = exec_task env ts

  abbrev key : StateKey
  key = task_key ts.my_did task

  abbrev so_far : List SubState
  so_far = (before ++ received ∷ []) ++ decrypted ∷ []

  abbrev TraceOf : List SubState → World → Type 0
  TraceOf subs w' = Trace key subs type w'

  handler_fails :
      (v : Verdict) (w1 : World)
      → Refuses e h (exec_in env ts) (exec_out env ts) w.reps
      → w1.reps ≡ w.reps
      → TraceOf (before ++ received ∷ []) w1
      → Fails (exec_handler env ts task v h) e w1 (TraceOf so_far)
  unfolding exec_handler find_pairwise new_msg accepts
  handler_fails v w1 refuses same t =
      let im = exec_in env ts in
      let om = exec_out env ts in
      let pw = healthy.pairwise w1 ts.conn_id in
      let finish : Bool × Msg → Proc (Verdict × Pipe × Msg) = λ answer.
        findy_agent.Common.Exec.pure (
          judge answer.0 ts.send_on_nack v,
          record { in_did = pw.my_did; out_did = pw.their_did },
          answer.1,
        ) in
      let update = update_psm env ts.my_did ts.conn_id task im decrypted in
      Fails-as e (exec_handler env ts task v h) (update >> (h im om >>= finish)) w1 w1
        (rw (exec_handler, find_pairwise, healthy.has_pairwise w1 ts.conn_id) refl)
        (Fails-after e update (λ _. h im om >>= finish) w1
          (Ends-also update w1
            (update_ends env healthy ts.my_did ts.conn_id task im decrypted
              (before ++ received ∷ []) type received w1 t (last?-append_one before received) refl
              typed types.payload)
            ((update_psm-Keeps-IsReps env w.reps ts.my_did ts.conn_id task im decrypted).at w1
              same))
          (λ _ w2 t2.
            let f = refuses w2 t2.1 in
            Fails-bind e (h im om) finish w2 (record {
              returns = f.returns;
              post = Trace-same key so_far type w2 (h im om w2).1 f.post t2.0;
            })))

  marked :
      (w1 : World)
      → TraceOf so_far w1
      → Ends (exec_failed env ts task e) w1 (λ _. TraceOf (so_far ++ failure ∷ []))
  unfolding exec_failed accepts
  marked w1 t =
      update_ends env healthy ts.my_did ts.conn_id task ts.payload failure so_far type decrypted w1
        t (last?-append_one (before ++ received ∷ []) decrypted) refl typed types.payload

  -- The run, once the received message has been saved.
  fails_from :
      ts.in_out ≡ some h
      → Refuses e h (exec_in env ts) (exec_out env ts) w.reps
      → Ends
          (update_psm env ts.my_did ts.conn_id task ts.payload received)
          w
          (λ _. TraceOf (before ++ received ∷ []))
      → Fails (exec_psm env ts) e w (TraceOf (so_far ++ failure ∷ []))
  unfolding exec_psm exec_received exec_failed exec_task
  fails_from some_h refuses saved =
      let v = exec_verdict ts in
      let update = update_psm env ts.my_did ts.conn_id task ts.payload received in
      let first = on_error (exec_failed env ts task) update in
      let handled_by = on_error (exec_failed env ts task) (exec_handler env ts task v h) in
      let reply : Verdict × Pipe × Msg → Proc (Unit {0}) =
        λ r. exec_reply env ts task r.0 r.1 r.2 in
      Fails-as e (exec_psm env ts) (first >> (handled_by >>= reply)) w w
        (rw (exec_psm, create_task_ends env healthy task types.payload)
          (ap (λ o. (first >> exec_received env ts task v o) w) some_h))
        (Fails-after e first (λ _. handled_by >>= reply) w
          (Ends-also first w (Ends-on_error (exec_failed env ts task) update w saved) (
            (Keeps-on_error (exec_failed env ts task) update
                (λ e'.
                  update_psm-Keeps-IsReps env w.reps ts.my_did ts.conn_id task ts.payload failure)
                (update_psm-Keeps-IsReps env w.reps ts.my_did ts.conn_id task ts.payload
                  received)).at
              w refl))
          (λ _ w1 t1. Fails-bind e handled_by reply w1 (
            Fails-on_error e (exec_failed env ts task) (exec_handler env ts task v h) w1
              (handler_fails v w1 refuses t1.1 t1.0) (λ w2 t2. marked w2 t2))))

  -- A thread whose machine accepts the message, when the handler fails and nothing else does: ExecPSM gives
  -- the handler's error, and the machine has gone on over received and decrypted to failure.
  pub exec_refused_again :
      (from : SubState)
      → ts.in_out ≡ some h
      → Refuses e h (exec_in env ts) (exec_out env ts) w.reps
      → Trace (task_key ts.my_did (exec_task env ts)) before type w
      → last? before ≡ some from
      → accepts from received ≡ true
      → Fails (exec_psm env ts) e w (
          Trace
            (task_key ts.my_did (exec_task env ts))
            (((before ++ received ∷ []) ++ decrypted ∷ []) ++ failure ∷ [])
            type)
  exec_refused_again from some_h refuses t l a = fails_from some_h refuses (
      update_ends env healthy ts.my_did ts.conn_id task ts.payload received before type from w t l a
        typed types.payload)

-- A new thread, when the handler fails and nothing else does: ExecPSM gives the handler's error, and the
-- machine has gone over received and decrypted to failure.
pub exec_refused :
    (env : Env) (ts : Transition) (h : Handler) (e : Error) (w : World)
    → IsHealthy env
    → HasTypes ts
    → ts.in_out ≡ some h
    → Refuses e h (exec_in env ts) (exec_out env ts) w.reps
    → get w.psms (task_key ts.my_did (exec_task env ts)) ≡ none
    → Fails (exec_psm env ts) e w (
        Trace
          (task_key ts.my_did (exec_task env ts))
          (received ∷ decrypted ∷ failure ∷ [])
          ts.payload.type)
exec_refused env ts h e w healthy types some_h refuses new =
    fails_from env healthy ts types [] ts.payload.type types.payload h e w some_h refuses (
      update_ends_new env healthy ts.my_did ts.conn_id (exec_task env ts) ts.payload received w new
        types.payload)
