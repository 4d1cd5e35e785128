-- ===== src/Prot/Runs.antt =====
-- From invariants of UpdatePSM to invariants of StartPSM, ExecPSM and ContinuePSM
-- (agent/prot/processor.go).
use findy_agent.Common.{String, ◌≡◌, Option, none, some, arith}
use findy_agent.Common.Exec.{Error}
use findy_agent.Didcomm.{Msg}
use findy_agent.Psm.{StateKey, key_eq, Task, Psm}
use findy_agent.Psm.Sub.{SubState}
use findy_agent.Prot.World.{World, Env, Pipe, send_pl, get_psm, find_pairwise}
use findy_agent.Prot.Keeps.{Keeps, keeps_rules}
use findy_agent.Prot.Update.{update_psm}
use findy_agent.Prot.Processor.{
  Handler, Initial, Again, Transition, Verdict, start_psm, start_with, start_failed, exec_psm,
  exec_received, exec_handler, exec_reply, exec_failed, continue_psm, continue_reply, dispatch,
  settle,
}

-- A handler that keeps `P`: it works on the wallet and on the representatives.
abbrev pub HandlerKeeps : (World → Type 0) → Handler → Type 0
HandlerKeeps P h = (im om : Msg) → Keeps P (h im om)

abbrev pub InOutKeeps : (World → Type 0) → Option Handler → Type 0
InOutKeeps P none = Unit
InOutKeeps P (some h) = HandlerKeeps P h

-- `P` reads the machines and the clock alone, and every UpdatePSM keeps it.
pub record IsInvariant (env : Env) (P : World → Type 0) : Type 0 where
  pub same : (w w' : World) → w'.psms ≡ w.psms → w'.clock ≡ w.clock → P w → P w'
  pub update :
      (did conn_id : String) (task : Task) (opl : Msg) (st : SubState)
      → Keeps P (update_psm env did conn_id task opl st)

module _ (env : Env) (P : World → Type 0) (inv : IsInvariant env P) where
  open inv use {same, update}

  send-Keeps : (pipe : Pipe) (task : Task) (opl : Msg) → Keeps P (send_pl env pipe task opl)
  unfolding send_pl
  send-Keeps pipe task opl = record {
    at = λ w h. same w (send_pl env pipe task opl w).1 (ground arith) (ground arith) h;
  }

  get-Keeps : (key : StateKey) → Keeps P (get_psm env key)
  unfolding get_psm
  get-Keeps key = record {
    at = λ w h. same w (get_psm env key w).1 (ground arith) (ground arith) h;
  }

  pairwise-Keeps : (conn_id : String) → Keeps P (find_pairwise env conn_id)
  unfolding find_pairwise
  pairwise-Keeps conn_id = record {
    at = λ w h. same w (find_pairwise env conn_id w).1 (ground arith) (ground arith) h;
  }

  dispatch-Keeps :
      (did conn_id : String) (task : Task) (pipe : Pipe) (opl : Msg)
      → Keeps P (dispatch env did conn_id task pipe opl)
  unfolding dispatch
  dispatch-Keeps did conn_id task pipe opl = search (keeps_rules, update, send-Keeps)

  settle-Keeps :
      (did conn_id : String) (task : Task) (waiting_next : String) (v : Verdict)
      → Keeps P (settle env did conn_id task waiting_next v)
  unfolding settle
  settle-Keeps did conn_id task waiting_next v = search (keeps_rules, update)

  pub start_psm-Keeps :
      (ts : Initial)
      → ((key : StateKey) (msg : Msg) → Keeps P (ts.setup key msg))
      → Keeps P (start_psm env ts)
  unfolding start_psm start_with start_failed
  start_psm-Keeps ts k = search (keeps_rules, update, dispatch-Keeps, k) depth 12

  exec_failed-Keeps :
      (ts : Transition) (task : Task) (e : Error) → Keeps P (exec_failed env ts task e)
  unfolding exec_failed
  exec_failed-Keeps ts task e = search (keeps_rules, update)

  exec_handler-Keeps :
      (ts : Transition) (task : Task) (v : Verdict) (h : Handler)
      → HandlerKeeps P h
      → Keeps P (exec_handler env ts task v h)
  unfolding exec_handler
  exec_handler-Keeps ts task v h k = search (keeps_rules, update, pairwise-Keeps, k)

  exec_reply-Keeps :
      (ts : Transition) (task : Task) (v : Verdict) (pipe : Pipe) (om : Msg)
      → Keeps P (exec_reply env ts task v pipe om)
  unfolding exec_reply
  exec_reply-Keeps ts task v pipe om =
      search (keeps_rules, exec_failed-Keeps, dispatch-Keeps, settle-Keeps) depth 12

  exec_received-Keeps :
      (ts : Transition) (task : Task) (v : Verdict) (o : Option Handler)
      → InOutKeeps P o
      → Keeps P (exec_received env ts task v o)
  unfolding exec_received
  exec_received-Keeps ts task v none k = search (keeps_rules, exec_failed-Keeps, settle-Keeps)
  exec_received-Keeps ts task v (some h) k =
      search (keeps_rules, exec_failed-Keeps, exec_handler-Keeps, exec_reply-Keeps, k)

  pub exec_psm-Keeps : (ts : Transition) → InOutKeeps P ts.in_out → Keeps P (exec_psm env ts)
  unfolding exec_psm
  exec_psm-Keeps ts k =
      search (keeps_rules, update, exec_failed-Keeps, exec_received-Keeps, k) depth 12

  continue_reply-Keeps :
      (shift : Again) (m : Psm) (present : Option Task) (v : Verdict) (pipe : Pipe) (om : Msg)
      → Keeps P (continue_reply env shift m present v pipe om)
  unfolding continue_reply
  continue_reply-Keeps shift m present v pipe om =
      search (keeps_rules, dispatch-Keeps, settle-Keeps) depth 12

  pub continue_psm-Keeps :
      (shift : Again) → HandlerKeeps P shift.transfer → Keeps P (continue_psm env shift)
  unfolding continue_psm
  continue_psm-Keeps shift k =
      search (keeps_rules, get-Keeps, pairwise-Keeps, continue_reply-Keeps, k) depth 12
