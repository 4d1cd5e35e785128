-- ===== src/Prot/Update.antt =====
-- agent/prot/update.go: UpdatePSM.
pub mod Step
use findy_agent.Common.{
  ℕ, String, Bool, true, false, not, Option, none, some, [], ◌∷◌, ◌++◌, if◌then◌else◌, ◌==◌,
}
use findy_agent.Common.Exec.{Outcome, ok, panicked, pure, ◌>>=◌, ◌>>◌, lift}
use findy_agent.Pltype.{Role, protocol_role_for_type, nothing}
use findy_agent.Didcomm.{Msg, protocol_msg_for_type}
use findy_agent.Psm.{StateKey, Psm, State, Task, accept, first_state, pending_user_action, protocol}
use findy_agent.Psm.Sub.{SubState}
use findy_agent.Prot.World.{Env, Proc, find_psm, add_psm, read_clock, spawn, trigger_end}

-- The state that `UpdatePSM` adds.
abbrev pub new_state : ℕ → Task → Msg → SubState → State
new_state now task opl st = record {
  timestamp = now;
  task = some task;
  pl_type = opl.type;
  sub = st;
}

-- An existing machine: the connection id is kept where none is given.
unfoldable pub extend : Psm → String → State → Psm
extend m conn_id s = record m {
  conn_id = (if conn_id == "" then m.conn_id else conn_id);
  states = m.states ++ s ∷ [];
}

abbrev pub is_unknown : Role → Bool
is_unknown Role.unknown = true
is_unknown _ = false

-- The role of a machine that a received message starts is read from the message's type.
unfoldable pub fresh_role : Task → Msg → Outcome Role
fresh_role task opl =
    if is_unknown task.role
    then elim (protocol_msg_for_type opl.type) [
      | ok msg ↦ ok (protocol_role_for_type msg)
      | Outcome.err e ↦ Outcome.err e
      | panicked ↦ panicked
    ]
    else ok task.role

abbrev pub fresh : StateKey → String → Task → State → Role → Psm
fresh key conn_id task s role = record {
  key = key;
  started_by_us = not (is_unknown task.role);
  role = role;
  conn_id = conn_id;
  states = s ∷ [];
}

abbrev pub first_type : Psm → Outcome String
first_type m = elim (first_state m) [ none ↦ panicked | some s ↦ ok s.pl_type ]

-- `opl.Type()`, or that of the first state where it is `pltype.Nothing`.
unfoldable pub resolved_type : Psm → Msg → Outcome String
resolved_type m opl = if opl.type == nothing then first_type m else ok opl.type

module _ (env : Env) where
  -- The end of `UpdatePSM`: the machine is saved, and the notifications are left to a goroutine.
  unfoldable pub store_and_trigger :
      String → String → Task → Msg → SubState → ℕ → Psm → Proc (Unit {0})
  store_and_trigger agent_did conn_id task opl st now m = do
    add_psm env m
    pl_type ← lift (resolved_type m opl)
    pending ← lift (pending_user_action m)
    family ← lift (protocol m)
    spawn (
        trigger_end (record {
          timestamp = now;
          sub_state = st;
          nonce = task.id;
          me_did = agent_did;
          pw_name = conn_id;
          pl_type = pl_type;
          pending_user_action = pending;
          started_by_us = m.started_by_us;
          user_action_type = task.user_action_type;
          protocol_family = family;
          role = m.role;
        }))

  unfoldable pub update_found :
      String → String → Task → Msg → SubState → ℕ → Option Psm → Proc (Unit {0})
  update_found agent_did conn_id task opl st now (some m) = do
    accepted ← lift (accept m st)
    (if accepted
        then store_and_trigger agent_did conn_id task opl st now
            (extend m conn_id (new_state now task opl st))
        else pure tt)
  update_found agent_did conn_id task opl st now none = do
    role ← lift (fresh_role task opl)
    store_and_trigger agent_did conn_id task opl st now (
        fresh (record { did = agent_did; nonce = task.id }) conn_id task (new_state now task opl st)
          role)

  -- UpdatePSM; `glog.V(5)` and `glog.V(3)` lines only log.
  unfoldable pub update_psm : String → String → Task → Msg → SubState → Proc (Unit {0})
  update_psm agent_did conn_id task opl st = do
    found ← find_psm env (record { did = agent_did; nonce = task.id })
    now ← read_clock env
    update_found agent_did conn_id task opl st now found
