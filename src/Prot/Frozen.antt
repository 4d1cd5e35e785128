-- ===== src/Prot/Frozen.antt =====
-- Machines that have ended, under the processor's procedures (agent/prot/processor.go).
use findy_agent.Common.{
  ℕ, ◌+◌, String, true, false, ◌≡◌, refl, ap, ◌∙◌, inl, inr, Option, none, some, arith,
  Option-cases, Bool-cases, if◌then◌else◌,
}
use findy_agent.Common.Table.{get, get-put}
use findy_agent.Common.Exec.{ok}
use findy_agent.Didcomm.{Msg}
use findy_agent.Psm.{StateKey, key_eq, key_beq, key_beq_iff, Psm, State, Task, last_state, accept}
use findy_agent.Psm.Sub.{SubState, has}
use findy_agent.Psm.Rules.{IsFlags, frozen_mask, accepts_frozen}
use findy_agent.Prot.World.{World, Env}
use findy_agent.Prot.Keeps.{Keeps}
use findy_agent.Prot.Update.{update_psm}
use findy_agent.Prot.Update.Step.{proposed, stored, at_time, task_key, update_psm-psms}
use findy_agent.Prot.History.{AllHistories}
use findy_agent.Prot.History.Update.{
  update_psm-AllHistories, stored_cases, accept-last, IsProposal, proposed-IsProposal,
}
use findy_agent.Prot.History.Runs.{AllHistories-same}
use findy_agent.Prot.Processor.{Initial, Again, Transition, start_psm, exec_psm, continue_psm}
use findy_agent.Prot.Runs.{
  IsInvariant, HandlerKeeps, InOutKeeps, start_psm-Keeps, exec_psm-Keeps, continue_psm-Keeps,
}

-- The machine's last state has a flag of the mask.
pub record IsFrozen (m : Psm) : Type 0 where
  pub last : State
  pub is_last : last_state m ≡ some last
  pub flags : IsFlags last.sub
  pub frozen : has last.sub frozen_mask ≡ true

-- The machine `m` stands at `key`, among histories.
pub record Stands (key : StateKey) (m : Psm) (w : World) : Type 0 where
  pub all : AllHistories w
  pub at : get w.psms key ≡ some m

pub accept-frozen : (m : Psm) (st : SubState) → IsFrozen m → accept m st ≡ ok false
accept-frozen m st f =
    accept-last m f.last st f.is_last ∙ ap ok (accepts_frozen f.last.sub st f.flags f.frozen)

-- A machine stored under another key leaves this one alone.
stored-get_ne :
    (env : Env) (w : World) (now : ℕ) (k key : StateKey) (o : Option Psm)
    → IsProposal now k o
    → key_beq k key ≡ false
    → get (stored env w o) key ≡ get w.psms key
unfolding stored
stored-get_ne env w now k key none p ne = refl
stored-get_ne env w now k key (some n) p ne = elim (stored_cases env w n) [
  | inl e ↦
      ap (λ t. get t key) e
      ∙ get-put w.psms n.key key n
      ∙ ap (λ j. if key_beq j key then some n else get w.psms key) p.keyed
      ∙ rw ne refl
  | inr e ↦ ap (λ t. get t key) e
]

module _ (env : Env) (agent_did conn_id : String) (task : Task) (opl : Msg) (st : SubState) where
  -- For its own key nothing is proposed.
  proposed_frozen :
      (now : ℕ) (m : Psm) (o : Option Psm)
      → o ≡ some m
      → IsFrozen m
      → proposed agent_did conn_id task opl st now o ≡ none
  unfolding proposed
  proposed_frozen now m o e f = rw (e, proposed, accept-frozen m st f) refl

  update-Stands_fine :
      (key : StateKey) (m : Psm) (w : World)
      → IsFrozen m
      → Stands key m w
      → env.find_fault w (task_key agent_did task) ≡ none
      → get (update_psm env agent_did conn_id task opl st w).1.psms key ≡ some m
  unfolding stored
  update-Stands_fine key m w f h fine =
      let k = task_key agent_did task in
      let now = w.clock + env.elapse w in
      let o = get w.psms k in
      let p = proposed agent_did conn_id task opl st now o in
      let after : get (update_psm env agent_did conn_id task opl st w).1.psms key
          ≡ get (stored env (at_time w now) p) key =
        ap (λ t. get t key) (update_psm-psms env agent_did conn_id task opl st w ∙ rw fine refl) in
      elim (Bool-cases (key_beq k key)) [
        | inl same ↦
            (let own : o ≡ some m = ap (λ j. get w.psms j) ((key_beq_iff k key).0 same) ∙ h.at in
              after
              ∙ ap (λ p. get (stored env (at_time w now) p) key) (proposed_frozen now m o own f)
              ∙ h.at)
        | inr other ↦
            after
            ∙ stored-get_ne env (at_time w now) now k key
                (proposed agent_did conn_id task opl st now o)
                (proposed-IsProposal agent_did conn_id task opl st w now (omega arith) h.all o refl)
                other
            ∙ h.at
      ]

  update-Stands :
      (key : StateKey) (m : Psm)
      → IsFrozen m
      → Keeps (Stands key m) (update_psm env agent_did conn_id task opl st)
  update-Stands key m f = record {
    at = λ w h. record {
      all = update_psm-AllHistories agent_did conn_id task opl st env w h.all;
      at = elim (Option-cases (env.find_fault w (task_key agent_did task))) [
        | inl fine ↦ update-Stands_fine key m w f h fine
        | inr (e, fault) ↦
            ap (λ t. get t key)
              (update_psm-psms env agent_did conn_id task opl st w ∙ rw fault refl)
            ∙ h.at
      ];
    };
  }

module _ (env : Env) (key : StateKey) (m : Psm) (frozen : IsFrozen m) where
  Stands-IsInvariant : IsInvariant env (Stands key m)
  Stands-IsInvariant = record {
    same = λ w w' p c h. record {
      all = AllHistories-same w w' p c h.all;
      at = ap (λ t. get t key) p ∙ h.at;
    };
    update = λ did conn_id task opl st. update-Stands env did conn_id task opl st key m frozen;
  }

  -- StartPSM, whatever thread it starts, leaves a machine that is ready, failed, archiving,
  -- archived or stopped by a reboot as it stands among histories, if the caller's setup does.
  pub start_psm_frozen :
      (ts : Initial) (w : World)
      → ((k : StateKey) (msg : Msg) → Keeps (Stands key m) (ts.setup k msg))
      → Stands key m w
      → get (start_psm env ts w).1.psms key ≡ some m
  start_psm_frozen ts w k h =
      let run = start_psm-Keeps env (Stands key m) Stands-IsInvariant ts k in (run.at w h).at

  -- ExecPSM, whatever message it receives, leaves a machine that is ready, failed, archiving,
  -- archived or stopped by a reboot as it stands among histories, if the protocol's handler does.
  pub exec_psm_frozen :
      (ts : Transition) (w : World)
      → InOutKeeps (Stands key m) ts.in_out
      → Stands key m w
      → get (exec_psm env ts w).1.psms key ≡ some m
  exec_psm_frozen ts w k h =
      let run = exec_psm-Keeps env (Stands key m) Stands-IsInvariant ts k in (run.at w h).at

  -- ContinuePSM, whatever the user answers, leaves a machine that is ready, failed, archiving,
  -- archived or stopped by a reboot as it stands among histories, if the protocol's handler does.
  pub continue_psm_frozen :
      (shift : Again) (w : World)
      → HandlerKeeps (Stands key m) shift.transfer
      → Stands key m w
      → get (continue_psm env shift w).1.psms key ≡ some m
  continue_psm_frozen shift w k h =
      let run = continue_psm-Keeps env (Stands key m) Stands-IsInvariant shift k in (run.at w h).at
