-- ===== src/Prot/History.antt =====
-- The histories that agent/prot writes: the key, the first state and the steps of a machine.
pub mod Update
pub mod Runs
pub mod Flags
use findy_agent.Common.{
  ℕ, ◌≤◌, ◌<◌, Bool, true, false, ◌≡◌, refl, ◌⊎◌, inl, inr, Option, none, some, List, [], ◌∷◌, ◌++◌,
  last?, head?, Chain, Chain-append_one, last?-append_one, arith, ◌∙◌, bit_or, All, All-append,
  Option-cases,
}
use findy_agent.Common.Table.{get}
use findy_agent.Psm.{StateKey, key_eq, Psm, State, Task}
use findy_agent.Psm.Sub.{SubState, accepts, and_not, archiving, archived}
use findy_agent.Psm.Rules.{IsFlags}
use findy_agent.Prot.World.{World}

-- The calls of AddAndSetFlagUpdatePSM: Release sets Archiving and clears nothing (grpc/server/psm.go), and
-- the end of archiving sets Archived and clears Archiving (grpc/server/agency.go).
abbrev pub IsArchiveCall : SubState → SubState → Type 0
IsArchiveCall set unset =
    ((set ≡ archiving) × (unset ≡ 0)) ⊎ ((set ≡ archived) × (unset ≡ archiving))

-- A state that such a call adds, with no task and no type: the one before it, with Archiving, or with
-- Archived in the place of Archiving.
pub record IsFlagStep (a b : State) : Type 0 where
  pub no_task : b.task ≡ none
  pub no_type : b.pl_type ≡ ""
  pub flags :
      (b.sub ≡ bit_or archiving (and_not a.sub 0))
      ⊎ (b.sub ≡ bit_or archived (and_not a.sub archiving))

-- One state follows another: later, and by a rule or as a flag.
pub record Follows (a b : State) : Type 0 where
  pub later : a.timestamp ≤ b.timestamp
  pub by_rule : (accepts a.sub b.sub ≡ true) ⊎ IsFlagStep a b

abbrev pub HasTask : Option State → Type 0
HasTask none = ⊥
HasTask (some s) = (t : Task) × (s.task ≡ some t)

abbrev pub IsRecent : ℕ → Option State → Type 0
IsRecent now none = ⊥
IsRecent now (some s) = s.timestamp ≤ now

pub record IsHistory (now : ℕ) (key : StateKey) (m : Psm) : Type 0 where
  pub keyed : m.key ≡ key
  pub chained : Chain Follows m.states
  pub started : HasTask (head? m.states)
  pub recent : IsRecent now (last? m.states)

-- Every machine in the bucket.
pub record AllHistories (w : World) : Type 0 where
  pub at : (key : StateKey) (m : Psm) → get w.psms key ≡ some m → IsHistory w.clock key m

IsRecent-mono : (now later : ℕ) (o : Option State) → now ≤ later → IsRecent now o → IsRecent later o
IsRecent-mono now later none h r = r
IsRecent-mono now later (some s) h r = omega arith

pub IsHistory-mono :
    {now later : ℕ} {key : StateKey} (m : Psm)
    → now ≤ later
    → IsHistory now key m
    → IsHistory later key m
IsHistory-mono {now} {later} m h r = record {
  keyed = r.keyed;
  chained = r.chained;
  started = r.started;
  recent = IsRecent-mono now later (last? m.states) h r.recent;
}

head?-append : (xs : List State) (x : State) → HasTask (head? xs) → HasTask (head? (xs ++ x ∷ []))
head?-append [] x h = absurd h
head?-append (y ∷ ys) x h = h

-- A machine with one more state that follows from its last one.
pub IsHistory-append :
    {now : ℕ} {key : StateKey} (m n : Psm) (s : State)
    → IsHistory now key m
    → n.key ≡ m.key
    → n.states ≡ m.states ++ s ∷ []
    → s.timestamp ≡ now
    → ((last : State) → last? m.states ≡ some last → Follows last s)
    → IsHistory now key n
IsHistory-append {now} m n s h k e t f = record {
  keyed = k ∙ h.keyed;
  chained = rw e (Chain-append_one Follows m.states s h.chained f);
  started = rw e (head?-append m.states s h.started);
  recent = rw (e, last?-append_one m.states s) (omega arith);
}

-- A machine has a last state, and it is not later than now.
pub last_of_history :
    {now : ℕ} {key : StateKey} (m : Psm)
    → IsHistory now key m
    → (s : State) × (last? m.states ≡ some s) × (s.timestamp ≤ now)
last_of_history {now} m h = split (last? m.states) refl
  where
    split :
        (o : Option State)
        → last? m.states ≡ o
        → (s : State) × (last? m.states ≡ some s) × (s.timestamp ≤ now)
    split none e = absurd (rw e at h.recent)
    split (some s) e = (s, e, rw e at h.recent)
