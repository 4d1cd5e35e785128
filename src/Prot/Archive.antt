-- ===== src/Prot/Archive.antt =====
-- AddAndSetFlagUpdatePSM of agent/prot/update.go, which marks a machine as archiving or archived.
use findy_agent.Common.{ℕ, String, Option, none, some, [], ◌∷◌, ◌++◌, bit_or, if◌then◌else◌}
use findy_agent.Common.Exec.{Outcome, ok, panicked, pure, ◌>>=◌, ◌>>◌, lift}
use findy_agent.Psm.{StateKey, Psm, State, first_state, last_state, pending_user_action}
use findy_agent.Psm.Sub.{SubState, has, and_not, archiving, archived}
use findy_agent.Prot.World.{Env, Proc, get_psm, add_psm, read_clock, spawn, notify_archiving}

-- `m.LastState().Sub &^ unsetSubState`; no state is a nil pointer.
abbrev pub cleared : Psm → SubState → Outcome SubState
cleared m unset = elim (last_state m) [ none ↦ panicked | some s ↦ ok (and_not s.sub unset) ]

-- `machine.FirstState().T.Type()`
abbrev pub task_type : Option State → Outcome String
task_type none = panicked
task_type (some s) = elim s.task [ none ↦ panicked | some t ↦ ok t.type ]

abbrev pub flag_state : ℕ → SubState → State
flag_state now sub = record { timestamp = now; task = none; pl_type = ""; sub = sub }

abbrev pub add_state : Psm → State → Psm
add_state m s = record m { states = m.states ++ s ∷ [] }

-- The notification is started only where an archive flag is set.
unfoldable pub notify_if_archive : StateKey → SubState → ℕ → Psm → Proc (Unit {0})
notify_if_archive key sub_state now m =
    if has sub_state (bit_or archiving archived)
    then (do
      pl_type ← lift (task_type (first_state m))
      pending ← lift (pending_user_action m)
      spawn (
          notify_archiving m (record {
            timestamp = now;
            sub_state = sub_state;
            nonce = key.nonce;
            me_did = key.did;
            pw_name = m.conn_id;
            pl_type = pl_type;
            pending_user_action = pending;
            started_by_us = m.started_by_us;
            user_action_type = "";
            protocol_family = "";
            role = m.role;
          })))
    else pure tt

module _ (env : Env) where
  -- AddAndSetFlagUpdatePSM, when the machine is found.
  unfoldable pub flag_found : StateKey → SubState → SubState → Psm → Proc (Unit {0})
  flag_found key sub_state unset m = do
    rest ← lift (cleared m unset)
    now ← read_clock env
    add_psm env (add_state m (flag_state now (bit_or sub_state rest)))
    notify_if_archive key sub_state now (add_state m (flag_state now (bit_or sub_state rest)))

  unfoldable pub add_and_set_flag : StateKey → SubState → SubState → Proc (Unit {0})
  add_and_set_flag key sub_state unset = do m ← get_psm env key; flag_found key sub_state unset m
