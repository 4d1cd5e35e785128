-- ===== src/Prot/Update/Step.antt =====
-- What one `UpdatePSM` does to the machines, whatever the environment answers.
use findy_agent.Common.{ℕ, ◌+◌, ◌≤◌, String, Bool, true, ◌≡◌, Option, none, some, arith}
use findy_agent.Common.Table.{Table, get, put}
use findy_agent.Common.Exec.{Outcome, ok}
use findy_agent.Pltype.{Role}
use findy_agent.Didcomm.{Msg}
use findy_agent.Psm.{StateKey, key_eq, Psm, Task, accept}
use findy_agent.Psm.Sub.{SubState}
use findy_agent.Prot.World.{World, Env, find_psm, add_psm, read_clock, spawn}
use findy_agent.Prot.Update.{
  update_psm, update_found, store_and_trigger, extend, fresh, fresh_role, new_state,
}

abbrev pub task_key : String → Task → StateKey
task_key agent_did task = record { did = agent_did; nonce = task.id }

-- The machine that UpdatePSM tries to store, if it comes so far.
abbrev pub proposed_of : Outcome Bool → Psm → Option Psm
proposed_of (ok true) m = some m
proposed_of _ m = none

abbrev pub proposed_fresh : Outcome Role → (Role → Psm) → Option Psm
proposed_fresh (ok role) f = some (f role)
proposed_fresh _ f = none

module _ (agent_did conn_id : String) (task : Task) (opl : Msg) (st : SubState) where
  unfoldable pub proposed : ℕ → Option Psm → Option Psm
  proposed now (some m) = proposed_of (accept m st) (extend m conn_id (new_state now task opl st))
  proposed now none =
      proposed_fresh (fresh_role task opl)
        (λ role. fresh (task_key agent_did task) conn_id task (new_state now task opl st) role)

-- The bucket of the machines after an attempt to store one.
unfoldable pub stored : Env → World → Option Psm → Table StateKey Psm
stored env w none = w.psms
stored env w (some m) = elim (env.add_fault w m) [ none ↦ put w.psms m.key m | some e ↦ w.psms ]

abbrev pub at_time : World → ℕ → World
at_time w now = record w { clock = now }

module _ (env : Env) (agent_did conn_id : String) (task : Task) (opl : Msg) (st : SubState) where
  store-psms :
      (now : ℕ) (m : Psm) (w : World)
      → (store_and_trigger env agent_did conn_id task opl st now m w).1.psms ≡ stored env w (some m)
  unfolding store_and_trigger add_psm spawn stored
  store-psms now m w = ground arith

  store-clock :
      (now : ℕ) (m : Psm) (w : World)
      → (store_and_trigger env agent_did conn_id task opl st now m w).1.clock ≡ w.clock
  unfolding store_and_trigger add_psm spawn
  store-clock now m w = ground arith

  store-posted :
      (now : ℕ) (m : Psm) (w : World)
      → (store_and_trigger env agent_did conn_id task opl st now m w).1.posted ≡ w.posted
  unfolding store_and_trigger add_psm spawn
  store-posted now m w = ground arith

  found-psms :
      (now : ℕ) (found : Option Psm) (w : World)
      → (update_found env agent_did conn_id task opl st now found w).1.psms
        ≡ stored env w (proposed agent_did conn_id task opl st now found)
  unfolding update_found proposed stored
  found-psms now (some m) w =
      ground (arith, store-psms now (extend m conn_id (new_state now task opl st)) w)
  found-psms now none w = grind (arith, store-psms)

  found-clock :
      (now : ℕ) (found : Option Psm) (w : World)
      → (update_found env agent_did conn_id task opl st now found w).1.clock ≡ w.clock
  unfolding update_found
  found-clock now (some m) w =
      ground (arith, store-clock now (extend m conn_id (new_state now task opl st)) w)
  found-clock now none w = grind (arith, store-clock)

  found-posted :
      (now : ℕ) (found : Option Psm) (w : World)
      → (update_found env agent_did conn_id task opl st now found w).1.posted ≡ w.posted
  unfolding update_found
  found-posted now (some m) w =
      ground (arith, store-posted now (extend m conn_id (new_state now task opl st)) w)
  found-posted now none w = grind (arith, store-posted)

  -- The bucket after UpdatePSM: as it was where the machine cannot be read, and otherwise with the
  -- proposed machine in it, if there is one.
  pub update_psm-psms :
      (w : World)
      → (update_psm env agent_did conn_id task opl st w).1.psms
        ≡ elim (env.find_fault w (task_key agent_did task)) [
          | none ↦
              (let now = w.clock + env.elapse w in
                stored env (at_time w now) (
                  proposed agent_did conn_id task opl st now
                    (get w.psms (task_key agent_did task))))
          | some e ↦ w.psms
        ]
  unfolding update_psm find_psm read_clock
  update_psm-psms w = ground (
    arith,
    found-psms (w.clock + env.elapse w) (get w.psms (task_key agent_did task))
        (at_time w (w.clock + env.elapse w)),
  )

  pub update_psm-clock :
      (w : World) → w.clock ≤ (update_psm env agent_did conn_id task opl st w).1.clock
  unfolding update_psm find_psm read_clock
  update_psm-clock w = ground (
    arith,
    found-clock (w.clock + env.elapse w) (get w.psms (task_key agent_did task))
        (at_time w (w.clock + env.elapse w)),
  )

  pub update_psm-posted :
      (w : World) → (update_psm env agent_did conn_id task opl st w).1.posted ≡ w.posted
  unfolding update_psm find_psm read_clock
  update_psm-posted w = ground (
    arith,
    found-posted (w.clock + env.elapse w) (get w.psms (task_key agent_did task))
        (at_time w (w.clock + env.elapse w)),
  )

  -- When the machine was read, the clock is the time that the new state carries.
  pub update_psm-clock_read :
      (w : World)
      → env.find_fault w (task_key agent_did task) ≡ none
      → (update_psm env agent_did conn_id task opl st w).1.clock ≡ w.clock + env.elapse w
  unfolding update_psm find_psm read_clock
  update_psm-clock_read w h = ground (
    arith,
    found-clock (w.clock + env.elapse w) (get w.psms (task_key agent_did task))
        (at_time w (w.clock + env.elapse w)),
  )
