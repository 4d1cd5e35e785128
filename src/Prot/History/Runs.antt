-- ===== src/Prot/History/Runs.antt =====
-- The histories under StartPSM, ExecPSM and ContinuePSM (agent/prot/processor.go).
use findy_agent.Common.{◌≡◌, sym, ap, ◌∙◌}
use findy_agent.Common.Table.{get}
use findy_agent.Psm.{StateKey, key_eq}
use findy_agent.Didcomm.{Msg}
use findy_agent.Prot.World.{World, Env}
use findy_agent.Prot.Keeps.{Keeps}
use findy_agent.Prot.Processor.{Initial, Again, Transition, start_psm, exec_psm, continue_psm}
use findy_agent.Prot.Runs.{
  IsInvariant, HandlerKeeps, InOutKeeps, start_psm-Keeps, exec_psm-Keeps, continue_psm-Keeps,
}
use findy_agent.Prot.History.{AllHistories}
use findy_agent.Prot.History.Update.{update_psm-AllHistories}

pub AllHistories-same :
    (w w' : World) → w'.psms ≡ w.psms → w'.clock ≡ w.clock → AllHistories w → AllHistories w'
AllHistories-same w w' p c h = record {
  at = λ k m g. rw c (h.at k m (ap (λ t. get t k) (sym p) ∙ g));
}

AllHistories-IsInvariant : (env : Env) → IsInvariant env AllHistories
AllHistories-IsInvariant env = record {
  same = AllHistories-same;
  update = λ did conn_id task opl st. record {
    at = λ w h. update_psm-AllHistories did conn_id task opl st env w h;
  };
}

module _ (env : Env) where
  -- StartPSM, however it ends, keeps every stored machine a history, if the caller's setup does.
  pub start_psm-AllHistories :
      (ts : Initial) (w : World)
      → ((key : StateKey) (msg : Msg) → Keeps AllHistories (ts.setup key msg))
      → AllHistories w
      → AllHistories (start_psm env ts w).1
  start_psm-AllHistories ts w k h =
      (start_psm-Keeps env AllHistories (AllHistories-IsInvariant env) ts k).at w h

  -- ExecPSM, however it ends, keeps every stored machine a history, if the protocol's handler does.
  pub exec_psm-AllHistories :
      (ts : Transition) (w : World)
      → InOutKeeps AllHistories ts.in_out
      → AllHistories w
      → AllHistories (exec_psm env ts w).1
  exec_psm-AllHistories ts w k h =
      (exec_psm-Keeps env AllHistories (AllHistories-IsInvariant env) ts k).at w h

  -- ContinuePSM, however it ends, keeps every stored machine a history, if the protocol's handler
  -- does.
  pub continue_psm-AllHistories :
      (shift : Again) (w : World)
      → HandlerKeeps AllHistories shift.transfer
      → AllHistories w
      → AllHistories (continue_psm env shift w).1
  continue_psm-AllHistories shift w k h =
      (continue_psm-Keeps env AllHistories (AllHistories-IsInvariant env) shift k).at w h
