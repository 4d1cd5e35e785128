-- ===== src/Prot/Path/Start.antt =====
-- The path of a whole run of StartPSM for a new thread.
use findy_agent.Common.{
  Bool, ◌≡◌, refl, ap, ◌∙◌, none, some, [], ◌∷◌, if◌then◌else◌, ◌==◌, Bool-cases, inl, inr,
}
use findy_agent.Common.Table.{get}
use findy_agent.Common.Exec.{ok, ◌>>◌, on_error}
use findy_agent.Pltype.{terminate}
use findy_agent.Didcomm.{Msg, create, new_msg, new_payload}
use findy_agent.Psm.{StateKey, key_eq, Task}
use findy_agent.Psm.Sub.{SubState, sending, waiting, ready_ack, accepts}
use findy_agent.Prot.World.{World, Env, Pipe, Proc, send_pl}
use findy_agent.Prot.Update.{update_psm}
use findy_agent.Prot.Update.Step.{task_key}
use findy_agent.Prot.Processor.{Initial, new_thread, start_psm, start_with, start_failed, dispatch}
use findy_agent.Prot.Ends.{Ends, Ends-on_error, Ends-bind}
use findy_agent.Prot.Path.{IsTyped, IsHealthy, Trace}
use findy_agent.Prot.Path.Steps.{update_ends, update_ends_new, Ends-as}
use findy_agent.Prot.Path.Settle.{payload-IsTyped, send_ends}

-- The sub state that StartPSM leaves.
abbrev pub start_final : Initial → SubState
start_final ts = if ts.waiting_next == terminate then ready_ack else waiting

accepts-start_final : (ts : Initial) → accepts sending (start_final ts) ≡ Bool.true
unfolding accepts
accepts-start_final ts = elim (Bool-cases (ts.waiting_next == terminate)) [
  | inl e ↦ rw e refl
  | inr e ↦ rw e refl
]

-- The caller's setup returns and leaves the machines alone.
abbrev pub SetsUp : (StateKey → Msg → Proc Msg) → Type 0
SetsUp setup =
    (key : StateKey) (msg : Msg) (w : World) → Ends (setup key msg) w (λ _ w'. w'.psms ≡ w.psms)

module _ (env : Env) (healthy : IsHealthy env) (ts : Initial) (sends : IsTyped ts.send_next)
    (waits : IsTyped ts.waiting_next) where
  abbrev start_key : StateKey
  start_key = record { did = ts.worker_did; nonce = ts.task.id }

  start_dispatch_ends :
      (task : Task) (pipe : Pipe) (msg : Msg) (w : World)
      → get w.psms (task_key ts.worker_did task) ≡ none
      → Ends
          (dispatch env ts.worker_did task.conn_id task pipe (new_msg task.id ts.send_next msg))
          w
          (λ _ w'. Trace (task_key ts.worker_did task) (sending ∷ []) ts.send_next w')
  unfolding dispatch new_msg
  start_dispatch_ends task pipe msg w new =
      let opl = new_msg task.id ts.send_next msg in
      Ends-bind (update_psm env ts.worker_did task.conn_id task opl sending)
        (λ _. send_pl env pipe task opl) w
        (update_ends_new env healthy ts.worker_did task.conn_id task opl sending w new sends)
        (λ _ w' t.
          send_ends env healthy pipe task opl (task_key ts.worker_did task) (sending ∷ [])
            ts.send_next w' t)

  start_with_ends :
      (task : Task) (pipe : Pipe) (w : World)
      → SetsUp ts.setup
      → get w.psms (task_key ts.worker_did task) ≡ none
      → Ends (start_with env ts pipe task) w (λ _ w'.
        Trace (task_key ts.worker_did task) (sending ∷ start_final ts ∷ []) ts.send_next w')
  unfolding start_with
  start_with_ends task pipe w up new =
      let key = task_key ts.worker_did task in
      let made = create env.factors (record {
        type = ts.send_next;
        aid = "";
        nonce = "";
        id = "";
        ready = Bool.false;
        thread = some (new_thread task.id);
      }) in
      let out : Msg → Proc (Unit {0}) = λ msg.
        dispatch env ts.worker_did task.conn_id task pipe (new_msg task.id ts.send_next msg) in
      let wpl = new_payload env.factors task.id ts.waiting_next in
      let last = update_psm env ts.worker_did task.conn_id task wpl (start_final ts) in
      Ends-bind (ts.setup key made) (λ msg. out msg >> last) w (up key made w)
        (λ msg w1 same.
          Ends-bind (out msg) (λ _. last) w1
            (start_dispatch_ends task pipe msg w1 (ap (λ ps. get ps key) same ∙ new))
            (λ _ w2 t.
              update_ends env healthy ts.worker_did task.conn_id task wpl (start_final ts)
                (sending ∷ []) ts.send_next sending w2 t refl (accepts-start_final ts) sends
                (payload-IsTyped env healthy task.id ts.waiting_next waits)))

  -- A new thread, when nothing outside fails: StartPSM returns, and the machine has been sending, and
  -- then waits for the next message, or is ready where none is to come.
  pub start_path :
      (pipe : Pipe) (w : World)
      → env.pw_pipe w ts.task.conn_id ≡ ok pipe
      → SetsUp ts.setup
      → get w.psms (task_key ts.worker_did ts.task) ≡ none
      → Ends (start_psm env ts) w (λ _ w'.
        Trace (task_key ts.worker_did ts.task) (sending ∷ start_final ts ∷ []) ts.send_next w')
  unfolding start_psm
  start_path pipe w has_pipe up new =
      let task = record ts.task { receiver = healthy.address w pipe } in
      let go = start_with env ts pipe task in
      Ends-as (start_psm env ts) (on_error (start_failed env ts task) go) w w
        (rw (start_psm, has_pipe, healthy.has_address w pipe) refl)
        (Ends-on_error (start_failed env ts task) go w (start_with_ends task pipe w up new))
