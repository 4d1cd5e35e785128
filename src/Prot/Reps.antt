-- ===== src/Prot/Reps.antt =====
-- UpdatePSM (agent/prot/update.go) leaves the representatives and the messages that were sent alone.
use findy_agent.Common.{ℕ, String, ◌≡◌, refl, ◌∙◌, Option, none, some, inl, inr, Option-cases}
use findy_agent.Common.Table.{Table, put}
use findy_agent.Didcomm.{Msg}
use findy_agent.Psm.{StateKey, key_eq, Psm, Task, accept, pending_user_action, protocol}
use findy_agent.Psm.Sub.{SubState}
use findy_agent.Psm.Rep.{Rep}
use findy_agent.Prot.World.{World, Env, Spawned, find_psm, add_psm, read_clock, spawn}
use findy_agent.Prot.Update.{
  update_psm, update_found, store_and_trigger, resolved_type, fresh_role, extend, new_state,
}
use findy_agent.Prot.Keeps.{Keeps, Keeps-bind, Keeps-then, Keeps-lift, Keeps-if, Keeps-pure}

-- A fact that the representatives and the messages that were sent decide.
abbrev pub IsAside : (World → Type 0) → Type 0
IsAside P = (w w' : World) → w'.reps ≡ w.reps → w'.posted ≡ w.posted → P w → P w'

module _ (env : Env) (P : World → Type 0) (aside : IsAside P) where
  find_psm-Keeps : (key : StateKey) → Keeps P (find_psm env key)
  unfolding find_psm
  find_psm-Keeps key = record {
    at = λ w h. elim (Option-cases (env.find_fault w key)) [
      | inl e ↦ rw (find_psm, e) h
      | inr (f, e) ↦ rw (find_psm, e) h
    ];
  }

  add_psm-Keeps : (m : Psm) → Keeps P (add_psm env m)
  unfolding add_psm
  add_psm-Keeps m = record {
    at = λ w h. elim (Option-cases (env.add_fault w m)) [
      | inl e ↦ rw (add_psm, e) (aside w (record w { psms = put w.psms m.key m }) refl refl h)
      | inr (f, e) ↦ rw (add_psm, e) h
    ];
  }

  read_clock-Keeps : Keeps P (read_clock env)
  unfolding read_clock
  read_clock-Keeps = record { at = λ w h. aside w (read_clock env w).1 refl refl h }

  spawn-Keeps : (g : Spawned) → Keeps P (spawn g)
  unfolding spawn
  spawn-Keeps g = record { at = λ w h. aside w (spawn g w).1 refl refl h }

  module _ (did conn_id : String) (task : Task) (opl : Msg) (st : SubState) where
    store-Keeps :
        (now : ℕ) (m : Psm) → Keeps P (store_and_trigger env did conn_id task opl st now m)
    unfolding store_and_trigger
    store-Keeps now m = Keeps-then (add_psm env m) _ (add_psm-Keeps m) (
        Keeps-bind _ _ (Keeps-lift (resolved_type m opl)) (λ pl_type.
          Keeps-bind _ _ (Keeps-lift (pending_user_action m))
            (λ pending. Keeps-bind _ _ (Keeps-lift (protocol m)) (λ family. spawn-Keeps _))))

    found-Keeps :
        (now : ℕ) (found : Option Psm)
        → Keeps P (update_found env did conn_id task opl st now found)
    unfolding update_found
    found-Keeps now (some m) = Keeps-bind _ _ (Keeps-lift (accept m st)) (λ accepted.
        Keeps-if accepted _ _ (store-Keeps now (extend m conn_id (new_state now task opl st)))
          (Keeps-pure tt))
    found-Keeps now none =
        Keeps-bind _ _ (Keeps-lift (fresh_role task opl)) (λ role. store-Keeps now _)

    pub update_psm-Keeps_aside : Keeps P (update_psm env did conn_id task opl st)
    unfolding update_psm
    update_psm-Keeps_aside =
        Keeps-bind _ _ (find_psm-Keeps (record { did = did; nonce = task.id }))
          (λ found. Keeps-bind _ _ read_clock-Keeps (λ now. found-Keeps now found))

-- The representatives are these.
abbrev pub IsReps : Table (ℕ × StateKey) Rep → World → Type 0
IsReps reps w = w.reps ≡ reps

pub update_psm-Keeps-IsReps :
    (env : Env) (reps : Table (ℕ × StateKey) Rep) (did conn_id : String) (task : Task) (opl : Msg)
    (st : SubState)
    → Keeps (IsReps reps) (update_psm env did conn_id task opl st)
update_psm-Keeps-IsReps env reps did conn_id task opl st =
    update_psm-Keeps_aside env (IsReps reps) (λ w w' r p h. r ∙ h) did conn_id task opl st
