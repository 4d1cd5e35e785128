-- ===== src/Prot/Status/Proofs.antt =====
-- Release and Run of grpc/server/psm.go.
use findy_agent.Common.{
  ℕ, ◌+◌, Bool, true, false, ◌≡◌, refl, ◌∙◌, ap, Option, none, some, List, [], ◌∷◌, ◌++◌,
  last?-append_one, bit_or, arith, eqb, if◌then◌else◌, every_below, every_below-test,
}
use findy_agent.Common.Exec.{◌>>=◌, ok}
use findy_agent.Psm.{Psm, State, last_state, pending_user_action}
use findy_agent.Psm.Sub.{SubState, pure, and_not, waiting, archiving, system_reboot}
use findy_agent.Psm.Rules.{IsFlags}
use findy_agent.Common.Table.{get, put, get-put_self}
use findy_agent.Psm.{StateKey, key_eq}
use findy_agent.Prot.World.{World, Env, get_psm, add_psm, spawn}
use findy_agent.Prot.Update.Step.{at_time}
use findy_agent.Prot.History.Flags.{flag_found_run}
use findy_agent.Prot.Archive.{add_state, flag_state, add_and_set_flag, notify_if_archive}
use findy_agent.Prot.Status.{
  Status, running, wait_action, is_ok, is_nack, is_err, status_of, calc_protocol_state, Heard,
  status_chan, user_action_chan, run_status, release,
}

abbrev released : SubState → SubState
released sub = bit_or archiving (and_not sub 0)

abbrev status_eq : Status → Status → Bool
status_eq running running = true
status_eq wait_action wait_action = true
status_eq is_ok is_ok = true
status_eq is_nack is_nack = true
status_eq is_err is_err = true
status_eq _ _ = false

status_eq_sound : (a b : Status) → status_eq a b ≡ true → a ≡ b
status_eq_sound a b h = ground arith

released_table :
    every_below 2048 (λ sub. status_eq (status_of (released sub)) (status_of sub)) ≡ true
unfolding every_below status_of pure
released_table = refl

unset_table : every_below 2048 (λ sub. eqb (and_not sub 0) sub) ≡ true
unfolding every_below
unset_table = refl

eqb_sound : (a b : ℕ) → eqb a b ≡ true → a ≡ b
eqb_sound a b h = ground arith

status_of-released : (sub : SubState) → IsFlags sub → status_of (released sub) ≡ status_of sub
status_of-released sub small = status_eq_sound (status_of (released sub)) (status_of sub) (
    every_below-test 2048 (λ (s : ℕ). status_eq (status_of (released s)) (status_of s)) sub
      released_table small)

pending-flag_state :
    (m : Psm) (now : ℕ) (sub : SubState)
    → pending_user_action (add_state m (flag_state now sub)) ≡ ok false
unfolding pending_user_action
pending-flag_state m now sub =
    rw (pending_user_action, last?-append_one m.states (flag_state now sub)) refl

calc-add_state :
    (m : Psm) (now : ℕ) (s : State)
    → last_state m ≡ some s
    → IsFlags s.sub
    → pending_user_action m ≡ ok false
    → calc_protocol_state (add_state m (flag_state now (released s.sub))) ≡ calc_protocol_state m
unfolding calc_protocol_state
calc-add_state m now s e small p =
    rw
      (
        calc_protocol_state,
        p,
        e,
        pending-flag_state m now (released s.sub),
        last?-append_one m.states (flag_state now (released s.sub)),
        status_of-released s.sub small,
      )
      refl

notify-psms :
    (key : StateKey) (sub : SubState) (now : ℕ) (m : Psm) (w : World)
    → (notify_if_archive key sub now m w).1.psms ≡ w.psms
unfolding notify_if_archive spawn
notify-psms key sub now m w = ground arith

release-psms :
    (env : Env) (w : World) (m : Psm) (s : State)
    → env.find_fault w m.key ≡ none
    → ((w' : World) (n : Psm) → env.add_fault w' n ≡ none)
    → get w.psms m.key ≡ some m
    → last_state m ≡ some s
    → (release env m.key w).1.psms
      ≡ put w.psms m.key (add_state m (flag_state (w.clock + env.elapse w) (released s.sub)))
unfolding release add_and_set_flag get_psm add_psm
release-psms env w m s found adds at e =
    let now = w.clock + env.elapse w in
    let n = add_state m (flag_state now (released s.sub)) in
    rw
      (
        found,
        at,
        release,
        add_and_set_flag,
        get_psm,
        ◌>>=◌,
        flag_found_run env m.key archiving 0 m w s e,
        add_psm,
        adds (at_time w now) n,
      )
      (notify-psms m.key archiving now n (record (at_time w now) { psms = put w.psms m.key n }))

and_not-zero : (sub : SubState) → IsFlags sub → and_not sub 0 ≡ sub
and_not-zero sub small =
    eqb_sound (and_not sub 0) sub
      (every_below-test 2048 (λ (s : ℕ). eqb (and_not s 0) s) sub unset_table small)

-- Release, where the data base answers, of a machine that waits for no user action: the machine that is
-- stored under its key has one more state, which has no task and no type, and the flags of the last one
-- with Archiving; and what a client is told of it has not changed.
pub release_keeps_status :
    (env : Env) (w : World) (m : Psm) (s : State)
    → env.find_fault w m.key ≡ none
    → ((w' : World) (n : Psm) → env.add_fault w' n ≡ none)
    → get w.psms m.key ≡ some m
    → last_state m ≡ some s
    → IsFlags s.sub
    → pending_user_action m ≡ ok false
    → (n : Psm) × (get (release env m.key w).1.psms m.key ≡ some n)
      × (n.states
          ≡ m.states
            ++ record {
              timestamp = w.clock + env.elapse w;
              task = none;
              pl_type = "";
              sub = bit_or archiving s.sub;
            }
              ∷ [])
      × (calc_protocol_state n ≡ calc_protocol_state m)
release_keeps_status env w m s found adds at e small p =
    let now = w.clock + env.elapse w in
    (
      add_state m (flag_state now (released s.sub)),
      ap (λ t. get t m.key) (release-psms env w m s found adds at e)
          ∙ get-put_self w.psms m.key (add_state m (flag_state now (released s.sub))),
      ap (λ sub. m.states ++ flag_state now (bit_or archiving sub) ∷ []) (and_not-zero s.sub small),
      calc-add_state m now s e small p,
    )

-- The code that ends the loop, if what is heard ends it.
abbrev pub ends : Heard → Option Status
ends (status_chan status) = run_status status
ends (user_action_chan status) = if eqb status system_reboot then some running else none

-- The client is told once of each wait for its action.
abbrev pub waits : List Heard → List Status
waits [] = []
waits (status_chan status ∷ hs) = waits hs
waits (user_action_chan status ∷ hs) =
    if eqb status waiting then wait_action ∷ waits hs else waits hs
