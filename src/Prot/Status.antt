-- ===== src/Prot/Status.antt =====
-- What grpc/server/psm.go tells a client about a machine: calcProtocolState, and the loop of Run that
-- waits for the machine's end.
pub mod Proofs
use findy_agent.Common.{
  ℕ, ◌+◌, Bool, true, false, ◌||◌, ◌≡◌, refl, ◌∙◌, ap, Option, none, some, List, [], ◌∷◌, ◌++◌,
  last?-append_one, All, bit_or, arith, eqb, if◌then◌else◌, every_below, every_below-test,
}
use findy_agent.Common.Exec.{◌>>=◌, Outcome, ok, err, panicked}
use findy_agent.Psm.{Psm, State, last_state, pending_user_action}
use findy_agent.Psm.Sub.{
  SubState, pure, has, and_not, ack, nack, ready, waiting, failure, archiving, ready_ack,
  ready_nack, system_reboot,
}
use findy_agent.Psm.Rules.{IsFlags}
use findy_agent.Common.Table.{get, put, get-put_self}
use findy_agent.Psm.{StateKey, key_eq}
use findy_agent.Prot.World.{World, Env, Proc, get_psm, add_psm, spawn}
use findy_agent.Prot.Update.Step.{at_time}
use findy_agent.Prot.History.Flags.{flag_found_run}
use findy_agent.Prot.Archive.{add_state, flag_state, add_and_set_flag, notify_if_archive}

-- `pb.ProtocolState_State`; `running` is its zero value.
pub data Status : Type 0 where
  running wait_action is_ok is_nack is_err : Status

-- The `switch` on the last sub state.
unfoldable pub status_of : SubState → Status
status_of sub =
    if eqb (pure sub) ready || eqb (pure sub) (bit_or ready archiving)
    then (if has sub ack then is_ok else is_nack)
    else if eqb (pure sub) failure || eqb (pure sub) (bit_or failure archiving)
    then is_err
    else running

abbrev pub status_last : Option State → Status
status_last none = running
status_last (some s) = status_of s.sub

-- calcProtocolState, of a machine that exists.
unfoldable pub calc_protocol_state : Psm → Outcome Status
calc_protocol_state m = elim (pending_user_action m) [
  | ok pending ↦ ok (if pending then wait_action else status_last (last_state m))
  | err e ↦ err e
  | panicked ↦ panicked
]

-- What the loop of Run receives.
pub data Heard : Type 0 where
  status_chan user_action_chan : SubState → Heard

-- The `switch` on a status: the code it ends the loop with, or none where the loop goes on.
unfoldable pub run_status : SubState → Option Status
run_status status =
    if eqb status system_reboot
    then some running
    else if eqb status ready_ack || eqb status ack
    then some is_ok
    else if eqb status ready_nack || eqb status nack
    then some is_nack
    else if eqb status failure
    then some is_err
    else none

-- What Run sends to its client, in order, when every send succeeds. With nothing more to hear it blocks.
unfoldable pub run : List Heard → List Status
run [] = []
run (status_chan status ∷ hs) =
    let rest = run hs in elim (run_status status) [ none ↦ rest | some code ↦ code ∷ [] ]
run (user_action_chan status ∷ hs) =
    let rest = run hs in
    if eqb status system_reboot
    then running ∷ []
    else if eqb status waiting
    then wait_action ∷ rest
    else rest

-- Release: the machine of the client's agent is marked as archiving.
unfoldable pub release : Env → StateKey → Proc (Unit {0})
unfolding add_and_set_flag
release env key = add_and_set_flag env key archiving 0
