-- ===== src/Prot/History/Update.antt =====
-- The histories under UpdatePSM (agent/prot/update.go).
use findy_agent.Common.{
  ℕ, ◌+◌, ◌≤◌, String, true, ◌≡◌, refl, sym, ◌∙◌, ap, ◌⊎◌, inl, inr, Option, none, some, some_inj,
  arith, Option-cases, Bool-cases,
}
use mathlib.Core.Path.{subst}
use findy_agent.Common.Table.{get, put, get-put}
use findy_agent.Common.Exec.{Error, Outcome, ok, err, panicked}
use findy_agent.Didcomm.{Msg}
use findy_agent.Pltype.{Role}
use findy_agent.Psm.{StateKey, key_eq, key_beq, key_beq_iff, Psm, State, Task, accept, last_state}
use findy_agent.Psm.Sub.{SubState, accepts}
use findy_agent.Prot.World.{World, Env}
use findy_agent.Prot.Update.{update_psm, extend, fresh, fresh_role, new_state}
use findy_agent.Prot.Update.Step.{
  proposed, proposed_fresh, stored, at_time, task_key, update_psm-psms, update_psm-clock,
  update_psm-clock_read,
}
use findy_agent.Prot.History.{
  Follows, IsHistory, AllHistories, IsHistory-mono, IsHistory-append, last_of_history,
}

-- A proposed machine is a history of the machine's key.
abbrev pub IsProposal : ℕ → StateKey → Option Psm → Type 0
IsProposal now key none = Unit
IsProposal now key (some m) = IsHistory now key m

-- A history put under its own key.
pub put_histories :
    (w : World) (n : Psm) (key : StateKey)
    → AllHistories w
    → IsHistory w.clock key n
    → (k : StateKey) (m : Psm) → get (put w.psms n.key n) k ≡ some m
    → IsHistory w.clock k m
put_histories w n key h p k m g = elim (Bool-cases (key_beq n.key k)) [
  | inl same ↦
      (let found : some n ≡ some m = sym (get-put w.psms n.key k n ∙ rw same refl) ∙ g in
        let moved = sym p.keyed ∙ (key_beq_iff n.key k).0 same in
        subst (λ x. IsHistory w.clock k x) (some_inj found)
          (subst (λ j. IsHistory w.clock j n) moved p))
  | inr other ↦ h.at k m (sym (get-put w.psms n.key k n ∙ rw other refl) ∙ g)
]

pub stored_cases :
    (env : Env) (w : World) (n : Psm)
    → (stored env w (some n) ≡ put w.psms n.key n) ⊎ (stored env w (some n) ≡ w.psms)
unfolding stored
stored_cases env w n = ground arith

stored-histories :
    (env : Env) (w : World) (o : Option Psm) (key : StateKey)
    → AllHistories w
    → IsProposal w.clock key o
    → (k : StateKey) (m : Psm) → get (stored env w o) k ≡ some m
    → IsHistory w.clock k m
unfolding stored
stored-histories env w none key h p k m g = h.at k m g
stored-histories env w (some n) key h p k m g = elim (stored_cases env w n) [
  | inl e ↦ put_histories w n key h p k m (ap (λ t. get t k) (sym e) ∙ g)
  | inr e ↦ h.at k m (ap (λ t. get t k) (sym e) ∙ g)
]

-- `Accept` of a machine with a last state reads that state.
pub accept-last :
    (m : Psm) (s : State) (st : SubState)
    → last_state m ≡ some s
    → accept m st ≡ ok (accepts s.sub st)
unfolding accept
accept-last m s st e = rw (e, accept) refl

module _ (agent_did conn_id : String) (task : Task) (opl : Msg) (st : SubState) where
  accepted-IsHistory :
      (now old : ℕ) (m : Psm) (last : State)
      → old ≤ now
      → IsHistory old (task_key agent_did task) m
      → last_state m ≡ some last
      → last.timestamp ≤ old
      → accepts last.sub st ≡ true
      → IsHistory now (task_key agent_did task) (extend m conn_id (new_state now task opl st))
  unfolding extend
  accepted-IsHistory now old m last le h e before yes' =
      IsHistory-append m (extend m conn_id (new_state now task opl st)) (new_state now task opl st)
        (IsHistory-mono m le h) refl refl refl
        λ l el.
          subst (λ x. Follows x (new_state now task opl st)) (some_inj (sym e ∙ el))
            (record { later = omega arith; by_rule = inl yes' })

  proposed_found :
      (now old : ℕ) (m : Psm)
      → old ≤ now
      → IsHistory old (task_key agent_did task) m
      → IsProposal now
          (task_key agent_did task)
          (proposed agent_did conn_id task opl st now (some m))
  unfolding proposed
  proposed_found now old m le h =
      let (last, e, before) = last_of_history m h in
      rw (accept-last m last st e) (elim (Bool-cases (accepts last.sub st)) [
        | inl a ↦ rw a (accepted-IsHistory now old m last le h e before a)
        | inr a ↦ rw a tt
      ])

  proposed_new :
      (now : ℕ)
      → IsProposal now (task_key agent_did task) (proposed agent_did conn_id task opl st now none)
  unfolding proposed
  proposed_new now = role_split (fresh_role task opl)
    where
      role_split :
          (r : Outcome Role)
          → IsProposal now (task_key agent_did task) (
              proposed_fresh r (λ role.
                fresh (task_key agent_did task) conn_id task (new_state now task opl st) role))
      role_split (ok role) = record {
        keyed = refl;
        chained = tt;
        started = (task, refl);
        recent = omega arith;
      }
      role_split (err e) = tt
      role_split panicked = tt

  pub proposed-IsProposal :
      (w : World) (now : ℕ)
      → w.clock ≤ now
      → AllHistories w
      → (o : Option Psm) → get w.psms (task_key agent_did task) ≡ o
      → IsProposal now (task_key agent_did task) (proposed agent_did conn_id task opl st now o)
  proposed-IsProposal w now le h none e = proposed_new now
  proposed-IsProposal w now le h (some m) e = proposed_found now w.clock m le (h.at _ m e)

  update_fine :
      (env : Env) (w : World)
      → env.find_fault w (task_key agent_did task) ≡ none
      → AllHistories w
      → AllHistories (update_psm env agent_did conn_id task opl st w).1
  update_fine env w fine h =
      let now = w.clock + env.elapse w in
      let o = get w.psms (task_key agent_did task) in
      let later : AllHistories (at_time w now) = record {
        at = λ k m g. IsHistory-mono m (omega arith) (h.at k m g);
      } in
      let p = proposed-IsProposal w now (omega arith) h o refl in
      let same = update_psm-psms env agent_did conn_id task opl st w ∙ rw fine refl in
      record {
        at = λ k m g. rw (update_psm-clock_read env agent_did conn_id task opl st w fine) (
            stored-histories env (at_time w now) (proposed agent_did conn_id task opl st now o)
              (task_key agent_did task) later p k m (ap (λ t. get t k) (sym same) ∙ g));
      }

  update_fault :
      (env : Env) (w : World) (e : Error)
      → env.find_fault w (task_key agent_did task) ≡ some e
      → AllHistories w
      → AllHistories (update_psm env agent_did conn_id task opl st w).1
  update_fault env w e fault h =
      let same = update_psm-psms env agent_did conn_id task opl st w ∙ rw fault refl in
      record {
        at = λ k m g.
            IsHistory-mono m (update_psm-clock env agent_did conn_id task opl st w)
              (h.at k m (ap (λ t. get t k) (sym same) ∙ g));
      }

  -- Whatever the environment answers, UpdatePSM keeps every machine a history.
  pub update_psm-AllHistories :
      (env : Env) (w : World)
      → AllHistories w
      → AllHistories (update_psm env agent_did conn_id task opl st w).1
  update_psm-AllHistories env w h =
      elim (Option-cases (env.find_fault w (task_key agent_did task))) [
        | inl fine ↦ update_fine env w fine h
        | inr (e, fault) ↦ update_fault env w e fault h
      ]
