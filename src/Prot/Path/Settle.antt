-- ===== src/Prot/Path/Settle.antt =====
-- Sending a message and settling, when nothing outside fails.
use findy_agent.Common.{
  String, Bool, true, ◌≡◌, refl, sym, ap, ◌∙◌, ◌⊎◌, inl, inr, none, some, map-append, List, [], ◌∷◌,
  ◌++◌, last?, bit_or, if◌then◌else◌, Bool-cases, Option-cases,
}
use mathlib.Core.Path.{subst}
use findy_agent.Common.Table.{get}
use findy_agent.Common.Exec.{ok}
use findy_agent.Didcomm.{Msg, create, create_msg, new_payload}
use findy_agent.Psm.{StateKey, key_eq, Task}
use findy_agent.Psm.Sub.{SubState, ack, nack, ready, decrypted, sending, waiting, accepts}
use findy_agent.Prot.World.{World, Env, Proc, Pipe, Posted, send_pl}
use findy_agent.Prot.Update.{update_psm}
use findy_agent.Prot.Update.Step.{task_key}
use findy_agent.Prot.Processor.{Verdict, create_task, settle, dispatch}
use findy_agent.Prot.Reps.{IsAside, update_psm-Keeps_aside}
use findy_agent.Prot.Ends.{Ends, Ends-bind, Ends-weaken, Ends-also}
use findy_agent.Prot.Path.{IsTyped, IsHealthy, Trace, Last, Log, Logged, log_sent, sent_types}
use findy_agent.Prot.Path.Steps.{update_ends, update-Last}

-- What a verdict leaves to do.
abbrev pub final_of : Verdict → SubState
final_of v = if v.is_last then bit_or ready v.ack_flag else waiting

abbrev pub rest_on : List SubState → Verdict → Bool → List SubState
rest_on subs v sends =
    if sends then (subs ++ sending ∷ []) ++ final_of v ∷ [] else subs ++ final_of v ∷ []

abbrev pub IsFlag : Verdict → Type 0
IsFlag v = (v.ack_flag ≡ ack) ⊎ (v.ack_flag ≡ nack)

pub accepts-final :
    (v : Verdict)
    → IsFlag v
    → (accepts sending (final_of v) ≡ true) × (accepts decrypted (final_of v) ≡ true)
unfolding accepts
accepts-final v f = elim (Bool-cases v.is_last) [
  | inl e ↦ elim f [ inl a ↦ rw (e, a) (refl, refl) | inr a ↦ rw (e, a) (refl, refl) ]
  | inr e ↦ rw e (refl, refl)
]

pub Trace-same :
    (key : StateKey) (subs : List SubState) (type : String) (w w' : World)
    → w'.psms ≡ w.psms
    → Trace key subs type w
    → Trace key subs type w'
Trace-same key subs type w w' e t = record {
  machine = t.machine;
  at = ap (λ ps. get ps key) e ∙ t.at;
  keyed = t.keyed;
  first = t.first;
  is_first = t.is_first;
  typed = t.typed;
  through = t.through;
}

pub Logged-IsAside : (log : Log) → IsAside (Logged log)
Logged-IsAside none w w' r p h = tt
Logged-IsAside (some types) w w' r p h = ap sent_types p ∙ h

-- The type with which the machine settles.
abbrev pub settled_type : Verdict → String → String
settled_type v waiting_next = if v.is_last then v.pl_type else waiting_next

typed-Last :
    (key : StateKey) (subs : List SubState) (type : String) (m : Proc (Unit {0})) (w : World)
    {s t : String}
    → s ≡ t
    → Ends m w (λ _ w'. Trace key subs type w' × Last key s w')
    → Ends m w (λ _ w'. Trace key subs type w' × Last key t w')
typed-Last key subs type m w e d =
    Ends-weaken m w d (λ _ w' p. (p.0, subst (λ x. Last key x w') e p.1))

module _ (env : Env) (healthy : IsHealthy env) where
  pub new_payload-type : (id t : String) → (new_payload env.factors id t).type ≡ t
  unfolding new_payload create create_msg
  new_payload-type id t = elim (Option-cases (env.factors t)) [
    | inl e ↦ rw (new_payload, create, e) refl
    | inr (f, e) ↦ rw (new_payload, create, e) (healthy.factory_type t f e _)
  ]

  pub payload-IsTyped : (id t : String) → IsTyped t → IsTyped (new_payload env.factors id t).type
  payload-IsTyped id t h = subst IsTyped (sym (new_payload-type id t)) h

  pub create_task_ends : (task : Task) → IsTyped task.type → create_task env task ≡ ok task
  unfolding create_task
  create_task_ends task t =
      rw (create_task, t.has_family, healthy.has_creator t.family, healthy.creates t.family task)
        refl

  -- A message that is sent is logged as delivered.
  pub send-Logged :
      (pipe : Pipe) (task : Task) (opl : Msg) (log : Log) (w : World)
      → Logged log w
      → Logged (log_sent log opl.type) (send_pl env pipe task opl w).1
  unfolding send_pl
  send-Logged pipe task opl none w h = tt
  send-Logged pipe task opl (some types) w h =
      rw (send_pl, healthy.sends w pipe task opl)
        (map-append (λ (p : Posted). (p.payload.type, p.delivered)) w.posted
            (record { pipe = pipe; task = task; payload = opl; delivered = true } ∷ [])
          ∙ ap (λ xs. xs ++ (opl.type, true) ∷ []) h)

  pub send_ends :
      (pipe : Pipe) (task : Task) (opl : Msg) (key : StateKey) (subs : List SubState)
      (type : String) (w : World)
      → Trace key subs type w
      → Ends (send_pl env pipe task opl) w (λ _ w'. Trace key subs type w')
  unfolding send_pl
  send_ends pipe task opl key subs type w t = record {
    value = tt;
    returns = rw (send_pl, healthy.sends w pipe task opl) refl;
    post = rw (send_pl, healthy.sends w pipe task opl) (Trace-same key subs type w _ refl t);
  }

  pub settle-Last :
      (did conn_id : String) (task : Task) (waiting_next : String) (v : Verdict)
      (subs : List SubState) (type : String) (from : SubState) (w : World)
      → Trace (task_key did task) subs type w
      → last? subs ≡ some from
      → accepts from (final_of v) ≡ true
      → IsTyped type
      → IsTyped v.pl_type
      → IsTyped waiting_next
      → Ends (settle env did conn_id task waiting_next v) w (λ _ w'.
        Trace (task_key did task) (subs ++ final_of v ∷ []) type w'
        × Last (task_key did task) (settled_type v waiting_next) w')
  unfolding settle
  settle-Last did conn_id task waiting_next v subs type from w t l a h hp hw =
      elim (Bool-cases v.is_last) [
        | inl e ↦
            rw (settle, e)
              (typed-Last (task_key did task) (subs ++ bit_or ready v.ack_flag ∷ []) type
                (update_psm env did conn_id task (new_payload env.factors task.id v.pl_type)
                  (bit_or ready v.ack_flag))
                w (new_payload-type task.id v.pl_type)
                (update-Last env healthy did conn_id task
                  (new_payload env.factors task.id v.pl_type) (bit_or ready v.ack_flag) subs type
                  from w t l (rw e at a) h (payload-IsTyped task.id v.pl_type hp)))
        | inr e ↦
            rw (settle, e)
              (typed-Last (task_key did task) (subs ++ waiting ∷ []) type
                (update_psm env did conn_id task (new_payload env.factors task.id waiting_next)
                  waiting)
                w (new_payload-type task.id waiting_next)
                (update-Last env healthy did conn_id task
                  (new_payload env.factors task.id waiting_next) waiting subs type from w t l
                  (rw e at a) h (payload-IsTyped task.id waiting_next hw)))
      ]

  pub settle_ends :
      (did conn_id : String) (task : Task) (waiting_next : String) (v : Verdict)
      (subs : List SubState) (type : String) (from : SubState) (w : World)
      → Trace (task_key did task) subs type w
      → last? subs ≡ some from
      → accepts from (final_of v) ≡ true
      → IsTyped type
      → IsTyped v.pl_type
      → IsTyped waiting_next
      → Ends
          (settle env did conn_id task waiting_next v)
          w
          (λ _ w'. Trace (task_key did task) (subs ++ final_of v ∷ []) type w')
  settle_ends did conn_id task waiting_next v subs type from w t l a h hp hw =
      Ends-weaken (settle env did conn_id task waiting_next v) w
        (settle-Last did conn_id task waiting_next v subs type from w t l a h hp hw) (λ _ w' p. p.0)

  pub dispatch_ends :
      (did conn_id : String) (task : Task) (pipe : Pipe) (opl : Msg) (subs : List SubState)
      (type : String) (from : SubState) (w : World)
      → Trace (task_key did task) subs type w
      → last? subs ≡ some from
      → accepts from sending ≡ true
      → IsTyped type
      → IsTyped opl.type
      → Ends
          (dispatch env did conn_id task pipe opl)
          w
          (λ _ w'. Trace (task_key did task) (subs ++ sending ∷ []) type w')
  unfolding dispatch
  dispatch_ends did conn_id task pipe opl subs type from w t l a h ho =
      Ends-bind (update_psm env did conn_id task opl sending) (λ _. send_pl env pipe task opl) w
        (update_ends env healthy did conn_id task opl sending subs type from w t l a h ho)
        (λ _ w' t'. send_ends pipe task opl (task_key did task) (subs ++ sending ∷ []) type w' t')

  -- The same, with what is known of the messages.
  pub dispatch-Logged :
      (log : Log) (did conn_id : String) (task : Task) (pipe : Pipe) (opl : Msg)
      (subs : List SubState) (type : String) (from : SubState) (w : World)
      → Trace (task_key did task) subs type w
      → Logged log w
      → last? subs ≡ some from
      → accepts from sending ≡ true
      → IsTyped type
      → IsTyped opl.type
      → Ends (dispatch env did conn_id task pipe opl) w (λ _ w'.
        Trace (task_key did task) (subs ++ sending ∷ []) type w'
        × Logged (log_sent log opl.type) w')
  unfolding dispatch
  dispatch-Logged log did conn_id task pipe opl subs type from w t g l a h ho =
      Ends-bind (update_psm env did conn_id task opl sending) (λ _. send_pl env pipe task opl) w
        (Ends-also (update_psm env did conn_id task opl sending) w
          (update_ends env healthy did conn_id task opl sending subs type from w t l a h ho)
          ((update_psm-Keeps_aside env (Logged log) (Logged-IsAside log) did conn_id task opl
              sending).at
            w g))
        (λ _ w' p.
          Ends-also (send_pl env pipe task opl) w'
            (send_ends pipe task opl (task_key did task) (subs ++ sending ∷ []) type w' p.0)
            (send-Logged pipe task opl log w' p.1))
