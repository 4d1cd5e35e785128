-- ===== src/Tests/Machines.antt =====
-- The theorems on the protocol state machine, at a trust ping.
use findy_agent.Common.{
  ◌+◌, Bool, true, ◌≡◌, ◌⊎◌, refl, inl, some, none, [], ◌∷◌, ◌++◌, bit_or, arith, split,
}
use findy_agent.Pltype.{addressee, protocol_role_for_type}
use findy_agent.Didcomm.{protocol_for_type, protocol_msg_for_type, field_at_ind, field_of}
use findy_agent.Psm.{protocol}
use findy_agent.Common.Table.{get, put}
use findy_agent.Common.Exec.{ok}
use findy_agent.Psm.{key_eq, Psm, State, pending_user_action}
use findy_agent.Psm.Sub.{waiting, ready_ack, archiving, failure, accepts, received}
use findy_agent.Psm.Rules.{accepts-failure}
use findy_agent.Prot.World.{World, find_psm, add_psm, read_clock, spawn}
use findy_agent.Prot.Update.{update_psm, update_found, store_and_trigger, fresh_role, resolved_type}
use findy_agent.Prot.Processor.{exec_psm, continue_psm, start_psm}
use findy_agent.Prot.Archive.{add_and_set_flag}
use findy_agent.Prot.Status.{release, calc_protocol_state}
use findy_agent.Prot.Status.Proofs.{release_keeps_status}
use findy_agent.Prot.History.{AllHistories}
use findy_agent.Prot.History.Update.{update_psm-AllHistories}
use findy_agent.Prot.History.Runs.{
  start_psm-AllHistories, exec_psm-AllHistories, continue_psm-AllHistories,
}
use findy_agent.Prot.History.Flags.{IsFlagged, add_and_set_flag-AllHistories}
use findy_agent.Prot.Frozen.{
  IsFrozen, Stands, start_psm_frozen, exec_psm_frozen, continue_psm_frozen,
}
use findy_agent.Tests.{
  demo_env, empty_world, empty_world-AllHistories, demo_task, demo_msg, demo_key, demo_transition,
  demo_again, demo_initial,
}

accepts-failure_example : accepts waiting failure ≡ true
unfolding accepts
accepts-failure_example = accepts-failure waiting received refl

-- A machine that waits, one that is ready, and the worlds that have it.
abbrev waiting_world : World
waiting_world = (update_psm demo_env "me" "conn" demo_task demo_msg waiting empty_world).1

abbrev ready_world : World
ready_world = (update_psm demo_env "me" "conn" demo_task demo_msg ready_ack empty_world).1

update_psm-AllHistories_example : AllHistories waiting_world
update_psm-AllHistories_example =
    update_psm-AllHistories "me" "conn" demo_task demo_msg waiting demo_env empty_world
      empty_world-AllHistories

waiting_histories : AllHistories waiting_world
waiting_histories =
    update_psm-AllHistories "me" "conn" demo_task demo_msg waiting demo_env empty_world
      empty_world-AllHistories

exec_psm-AllHistories_example : AllHistories (exec_psm demo_env demo_transition waiting_world).1
exec_psm-AllHistories_example =
    exec_psm-AllHistories demo_env demo_transition waiting_world (λ im om. record { at = λ w h. h })
      waiting_histories

continue_psm-AllHistories_example : AllHistories (continue_psm demo_env demo_again waiting_world).1
continue_psm-AllHistories_example =
    continue_psm-AllHistories demo_env demo_again waiting_world (λ im om. record { at = λ w h. h })
      waiting_histories

start_psm-AllHistories_example : AllHistories (start_psm demo_env demo_initial empty_world).1
start_psm-AllHistories_example =
    start_psm-AllHistories demo_env demo_initial empty_world (λ key msg. record { at = λ w h. h })
      empty_world-AllHistories

add_and_set_flag-AllHistories_example :
    AllHistories (add_and_set_flag demo_env demo_key archiving 0 waiting_world).1
    × (((add_and_set_flag demo_env demo_key archiving 0 waiting_world).1.psms ≡ waiting_world.psms)
        ⊎ IsFlagged demo_key waiting_world
            (add_and_set_flag demo_env demo_key archiving 0 waiting_world).1)
add_and_set_flag-AllHistories_example =
    add_and_set_flag-AllHistories demo_env demo_key archiving 0 waiting_world (inl (refl, refl))
      waiting_histories

abbrev ready_state : State
ready_state = record {
  timestamp = 1;
  task = some demo_task;
  pl_type = demo_msg.type;
  sub = ready_ack;
}

abbrev ready_machine : Psm
ready_machine = record {
  key = demo_key;
  started_by_us = Bool.false;
  role = addressee;
  conn_id = "conn";
  states = ready_state ∷ [];
}

ready_machine-IsFrozen : IsFrozen ready_machine
ready_machine-IsFrozen = record {
  last = ready_state;
  is_last = refl;
  flags = omega arith;
  frozen = refl;
}

ready_at : get ready_world.psms demo_key ≡ some ready_machine
unfolding get put update_psm find_psm read_clock update_found store_and_trigger fresh_role add_psm
    resolved_type pending_user_action protocol spawn protocol_role_for_type protocol_msg_for_type
    field_at_ind field_of split protocol_for_type
ready_at = refl

ready-Stands : Stands demo_key ready_machine ready_world
ready-Stands = record {
  all =
      update_psm-AllHistories "me" "conn" demo_task demo_msg ready_ack demo_env empty_world
        empty_world-AllHistories;
  at = ready_at;
}

exec_psm_frozen_example :
    get (exec_psm demo_env demo_transition ready_world).1.psms demo_key ≡ some ready_machine
exec_psm_frozen_example =
    exec_psm_frozen demo_env demo_key ready_machine ready_machine-IsFrozen demo_transition
      ready_world (λ im om. record { at = λ w h. h }) ready-Stands

continue_psm_frozen_example :
    get (continue_psm demo_env demo_again ready_world).1.psms demo_key ≡ some ready_machine
continue_psm_frozen_example =
    continue_psm_frozen demo_env demo_key ready_machine ready_machine-IsFrozen demo_again
      ready_world (λ im om. record { at = λ w h. h }) ready-Stands

start_psm_frozen_example :
    get (start_psm demo_env demo_initial ready_world).1.psms demo_key ≡ some ready_machine
start_psm_frozen_example =
    start_psm_frozen demo_env demo_key ready_machine ready_machine-IsFrozen demo_initial ready_world
      (λ key msg. record { at = λ w h. h }) ready-Stands

ready_pending : pending_user_action ready_machine ≡ ok Bool.false
unfolding pending_user_action protocol_msg_for_type field_at_ind field_of split protocol_for_type
ready_pending = refl

release_keeps_status_example :
    (n : Psm) × (get (release demo_env demo_key ready_world).1.psms demo_key ≡ some n)
    × (n.states
        ≡ ready_machine.states
          ++ record {
            timestamp = ready_world.clock + demo_env.elapse ready_world;
            task = none;
            pl_type = "";
            sub = bit_or archiving ready_state.sub;
          }
            ∷ [])
    × (calc_protocol_state n ≡ calc_protocol_state ready_machine)
release_keeps_status_example =
    release_keeps_status demo_env ready_world ready_machine ready_state refl (λ w' n. refl) ready_at
      refl (omega arith) ready_pending
