-- ===== src/Prot/History/Flags.antt =====
-- The histories under AddAndSetFlagUpdatePSM (agent/prot/update.go).
use findy_agent.Common.{
  ℕ, ◌+◌, ◌≤◌, ◌≡◌, refl, sym, ◌∙◌, ◌⊎◌, inl, inr, some, some_inj, arith, bit_or, Option-cases,
}
use mathlib.Core.Path.{subst}
use findy_agent.Common.Table.{Table, get, put}
use findy_agent.Common.Exec.{proceed, ◌>>=◌}
use findy_agent.Psm.{StateKey, key_eq, Psm, State, last_state}
use findy_agent.Psm.Sub.{SubState, and_not, archiving, archived}
use findy_agent.Prot.World.{World, Env, add_psm, get_psm, read_clock, spawn}
use findy_agent.Prot.Archive.{
  add_and_set_flag, flag_found, add_state, flag_state, notify_if_archive,
}
use findy_agent.Prot.Keeps.{Keeps, Keeps-proceed}
use findy_agent.Prot.Update.Step.{at_time}
use findy_agent.Prot.History.{
  Follows, IsFlagStep, IsArchiveCall, IsHistory, AllHistories, IsHistory-mono, IsHistory-append,
  last_of_history,
}
use findy_agent.Prot.History.Update.{put_histories}
use findy_agent.Prot.History.Runs.{AllHistories-same}

flags_of :
    (old sub unset : SubState)
    → IsArchiveCall sub unset
    → (bit_or sub (and_not old unset) ≡ bit_or archiving (and_not old 0))
      ⊎ (bit_or sub (and_not old unset) ≡ bit_or archived (and_not old archiving))
flags_of old sub unset (inl h) = inl (rw (h.0, h.1) refl)
flags_of old sub unset (inr h) = inr (rw (h.0, h.1) refl)

flag-IsHistory :
    (now old : ℕ) (key : StateKey) (m : Psm) (last : State) (sub unset : SubState)
    → old ≤ now
    → IsHistory old key m
    → last_state m ≡ some last
    → last.timestamp ≤ old
    → IsArchiveCall sub unset
    → IsHistory now key (add_state m (flag_state now (bit_or sub (and_not last.sub unset))))
flag-IsHistory now old key m last sub unset le h e before call =
    let s = flag_state now (bit_or sub (and_not last.sub unset)) in
    IsHistory-append m (add_state m s) s (IsHistory-mono m le h) refl refl refl λ l el.
      subst (λ x. Follows x s) (some_inj (sym e ∙ el))
        (record {
          later = omega arith;
          by_rule =
              inr (record {
                no_task = refl;
                no_type = refl;
                flags = flags_of last.sub sub unset call;
              });
        })

notify-Keeps :
    (key : StateKey) (sub : SubState) (now : ℕ) (m : Psm)
    → Keeps AllHistories (notify_if_archive key sub now m)
unfolding notify_if_archive spawn
notify-Keeps key sub now m = record {
  at = λ w h.
      AllHistories-same w (notify_if_archive key sub now m w).1 (ground arith) (ground arith) h;
}

add-AllHistories :
    (env : Env) (w : World) (key : StateKey) (m : Psm)
    → IsHistory w.clock key m
    → AllHistories w
    → AllHistories (add_psm env m w).1
unfolding add_psm
add-AllHistories env w key m p h = elim (Option-cases (env.add_fault w m)) [
  | inl fine ↦ rw (fine, add_psm) (record { at = λ k n g. put_histories w m key h p k n g })
  | inr (e, fault) ↦ rw (fault, add_psm) h
]

-- What is left to run when the machine is read.
pub flag_found_run :
    (env : Env) (key : StateKey) (sub unset : SubState) (m : Psm) (w : World) (last : State)
    → last_state m ≡ some last
    → let now = w.clock + env.elapse w in
      let n = add_state m (flag_state now (bit_or sub (and_not last.sub unset))) in
      let after = add_psm env n (at_time w now) in
      flag_found env key sub unset m w
      ≡ proceed after.0 (λ _. notify_if_archive key sub now n) after.1
unfolding flag_found read_clock
flag_found_run env key sub unset m w last e = ground arith

flag_found-AllHistories :
    (env : Env) (key : StateKey) (sub unset : SubState) (m : Psm) (w : World)
    → get w.psms key ≡ some m
    → IsArchiveCall sub unset
    → AllHistories w
    → AllHistories (flag_found env key sub unset m w).1
flag_found-AllHistories env key sub unset m w g call h =
    let (last, e, before) = last_of_history m (h.at key m g) in
    let now = w.clock + env.elapse w in
    let n = add_state m (flag_state now (bit_or sub (and_not last.sub unset))) in
    let later : AllHistories (at_time w now) = record {
      at = λ k x gx. IsHistory-mono x (omega arith) (h.at k x gx);
    } in
    let hist =
      flag-IsHistory now w.clock key m last sub unset (omega arith) (h.at key m g) e before call in
    let after = add_psm env n (at_time w now) in
    rw (flag_found_run env key sub unset m w last e) (
      (Keeps-proceed after.0 (λ _. notify_if_archive key sub now n)
          (λ _. notify-Keeps key sub now n)).at
        after.1 (add-AllHistories env (at_time w now) key n hist later))

-- The machine at `key` has one more state, which such a call adds.
pub record IsFlagged (key : StateKey) (w w' : World) : Type 0 where
  pub machine : Psm
  pub found : get w.psms key ≡ some machine
  pub last : State
  pub is_last : last_state machine ≡ some last
  pub state : State
  pub follows : IsFlagStep last state
  pub stored : w'.psms ≡ put w.psms machine.key (add_state machine state)

notify-Keeps_psms :
    (key : StateKey) (sub : SubState) (now : ℕ) (m : Psm) (psms : Table StateKey Psm)
    → Keeps (λ w. w.psms ≡ psms) (notify_if_archive key sub now m)
unfolding notify_if_archive spawn
notify-Keeps_psms key sub now m psms = record { at = λ w h. ground arith }

add_psms :
    (env : Env) (m : Psm) (w : World)
    → ((add_psm env m w).1.psms ≡ w.psms) ⊎ ((add_psm env m w).1.psms ≡ put w.psms m.key m)
unfolding add_psm
add_psms env m w = elim (Option-cases (env.add_fault w m)) [
  | inl fine ↦ inr (rw (fine, add_psm) refl)
  | inr (e, fault) ↦ inl (rw (fault, add_psm) refl)
]

flag_found-IsFlagged :
    (env : Env) (key : StateKey) (sub unset : SubState) (m : Psm) (w : World)
    → get w.psms key ≡ some m
    → IsArchiveCall sub unset
    → AllHistories w
    → ((flag_found env key sub unset m w).1.psms ≡ w.psms)
      ⊎ IsFlagged key w (flag_found env key sub unset m w).1
flag_found-IsFlagged env key sub unset m w g call h =
    let (last, e, before) = last_of_history m (h.at key m g) in
    let now = w.clock + env.elapse w in
    let s = flag_state now (bit_or sub (and_not last.sub unset)) in
    let n = add_state m s in
    let after = add_psm env n (at_time w now) in
    let told : (psms : Table StateKey Psm)
        → after.1.psms ≡ psms
        → (flag_found env key sub unset m w).1.psms ≡ psms =
      λ psms same. rw (flag_found_run env key sub unset m w last e) (
        (Keeps-proceed after.0 (λ _. notify_if_archive key sub now n)
            (λ _. notify-Keeps_psms key sub now n psms)).at
          after.1 same) in
    elim (add_psms env n (at_time w now)) [
      | inl same ↦ inl (told w.psms same)
      | inr put_in ↦ inr (record {
        machine = m;
        found = g;
        last = last;
        is_last = e;
        state = s;
        follows = record {
          no_task = refl;
          no_type = refl;
          flags = flags_of last.sub sub unset call;
        };
        stored = told (put w.psms m.key n) put_in;
      })
    ]

add_and_set_flag-IsFlagged :
    (env : Env) (key : StateKey) (sub unset : SubState) (w : World)
    → IsArchiveCall sub unset
    → AllHistories w
    → ((add_and_set_flag env key sub unset w).1.psms ≡ w.psms)
      ⊎ IsFlagged key w (add_and_set_flag env key sub unset w).1
unfolding add_and_set_flag get_psm
add_and_set_flag-IsFlagged env key sub unset w call h = elim (Option-cases (env.find_fault w key)) [
  | inl fine ↦ elim (Option-cases (get w.psms key)) [
    | inl missing ↦ inl (rw (fine, missing, add_and_set_flag, get_psm, ◌>>=◌) refl)
    | inr (m, found) ↦
        rw (fine, found, add_and_set_flag, get_psm, ◌>>=◌)
          (flag_found-IsFlagged env key sub unset m w found call h)
  ]
  | inr (e, fault) ↦ inl (rw (fault, add_and_set_flag, get_psm, ◌>>=◌) refl)
]

add_and_set_flag-Keeps :
    (env : Env) (key : StateKey) (sub unset : SubState)
    → IsArchiveCall sub unset
    → Keeps AllHistories (add_and_set_flag env key sub unset)
unfolding add_and_set_flag get_psm
add_and_set_flag-Keeps env key sub unset call = record {
  at = λ w h. elim (Option-cases (env.find_fault w key)) [
    | inl fine ↦ elim (Option-cases (get w.psms key)) [
      | inl missing ↦ rw (fine, missing, add_and_set_flag, get_psm, ◌>>=◌) h
      | inr (m, found) ↦
          rw (fine, found, add_and_set_flag, get_psm, ◌>>=◌)
            (flag_found-AllHistories env key sub unset m w found call h)
    ]
    | inr (e, fault) ↦ rw (fault, add_and_set_flag, get_psm, ◌>>=◌) h
  ];
}

-- Both calls of AddAndSetFlagUpdatePSM keep every machine a history, however they end. They leave the
-- machines as they are, or add one state, with no task and no type, to the machine under their key: it has
-- all flags of the state before and Archiving, or all but Archiving, and Archived.
pub add_and_set_flag-AllHistories :
    (env : Env) (key : StateKey) (sub unset : SubState) (w : World)
    → IsArchiveCall sub unset
    → AllHistories w
    → AllHistories (add_and_set_flag env key sub unset w).1
      × (((add_and_set_flag env key sub unset w).1.psms ≡ w.psms)
          ⊎ IsFlagged key w (add_and_set_flag env key sub unset w).1)
add_and_set_flag-AllHistories env key sub unset w call h = (
  (add_and_set_flag-Keeps env key sub unset call).at w h,
  add_and_set_flag-IsFlagged env key sub unset w call h,
)
