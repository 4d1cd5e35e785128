-- ===== src/Prot/World.antt =====
-- The state that agent/prot works on, and the calls whose code is outside the repository.
use findy_agent.Common.{ℕ, ◌+◌, String, Bool, true, false, Option, none, some, List, [], ◌∷◌, ◌++◌}
use findy_agent.Common.Table.{Table, get, put}
use findy_agent.Common.Exec.{Error, Outcome, Exec, ok, err, panicked}
use findy_agent.Pltype.{Role}
use findy_agent.Didcomm.{Msg, MsgInit}
use findy_agent.Psm.{StateKey, key_eq, Psm, Task}
use findy_agent.Psm.Rep.{Rep, Bucket, rep_key, rep_type, rep_place, place_eq}
use findy_agent.Psm.Sub.{SubState}

-- What `go triggerEnd(...)` is started with.
pub record EndingInfo : Type 0 where
  pub sub_state : SubState
  pub nonce : String
  pub me_did : String
  pub pw_name : String
  pub pl_type : String
  pub timestamp : ℕ
  pub pending_user_action : Bool
  pub started_by_us : Bool
  pub user_action_type : String
  pub protocol_family : String
  pub role : Role

pub record Pipe : Type 0 where
  pub in_did : String
  pub out_did : String

pub record Pairwise : Type 0 where
  pub id : String
  pub my_did : String
  pub their_did : String

-- A call of `comm.SendPL`.
pub record Posted : Type 0 where
  pub pipe : Pipe
  pub task : Task
  pub payload : Msg
  pub delivered : Bool

-- A goroutine that the processor has started.
pub data Spawned : Type 0 where
  trigger_end : EndingInfo → Spawned
  notify_archiving : Psm → EndingInfo → Spawned

-- The bucket of the PSMs, those of the representatives, the clock, and what has left the processor, in order.
pub record World : Type 0 where
  pub psms : Table StateKey Psm
  pub reps : Table (ℕ × StateKey) Rep
  pub clock : ℕ
  pub posted : List Posted
  pub spawned : List Spawned

-- What `assert.That` does when it fails: it raises an error, or panics.
pub data Fault : Type 0 where
  raises : Error → Fault
  panics : Fault

abbrev pub failing {ℓ} : {A : Type ℓ} → Fault → Outcome A
failing (raises e) = err e
failing panics = panicked

-- The wallet, the network, the data base's failures and the registered factories. Each is a function
-- of the state, so that it may answer otherwise each time.
pub record Env : Type 0 where
  pub find_fault : World → StateKey → Option Error
  pub add_fault : World → Psm → Option Error
  pub rep_find_fault : World → Bucket → StateKey → Option Error
  pub rep_add_fault : World → Rep → Option Error
  pub elapse : World → ℕ
  pub uuid : World → String
  pub find_pw : World → String → Outcome (Option Pairwise)
  pub pw_pipe : World → String → Outcome Pipe
  pub assertion : Fault
  -- whether `err2.Catch` stops a panic
  pub catches_panics : Bool
  pub endpoint : World → Pipe → Outcome String
  pub send_fault : World → Pipe → Task → Msg → Option Error
  pub factors : String → Option (MsgInit → Msg)
  -- the map `creators`, and the `Creator` that a protocol has registered
  pub creators : String → Option (Task → Outcome Task)

abbrev pub Proc : Type 0 → Type 0
Proc A = Exec World A

-- A call into the wallet or the pipe that only answers.
abbrev pub ask : {A : Type 0} → (World → Outcome A) → Proc A
ask f w = (f w, w)

-- `go g`
unfoldable pub spawn : Spawned → Proc (Unit {0})
spawn g w = (ok tt, record w { spawned = w.spawned ++ g ∷ [] })

module _ (env : Env) where
  -- psm.FindPSM
  unfoldable pub find_psm : StateKey → Proc (Option Psm)
  find_psm key w = elim (env.find_fault w key) [
    | none ↦ (ok (get w.psms key), w)
    | some e ↦ (err e, w)
  ]

  -- psm.AddPSM
  unfoldable pub add_psm : Psm → Proc (Unit {0})
  add_psm m w = elim (env.add_fault w m) [
    | none ↦ (ok tt, record w { psms = put w.psms m.key m })
    | some e ↦ (err e, w)
  ]

  -- psm.GetPSM: whatever the data base says, a PSM that was not found is an error.
  unfoldable pub get_psm : StateKey → Proc Psm
  get_psm key w = elim (env.find_fault w key) [
    | none ↦ (elim (get w.psms key) [ none ↦ err Error.psm_not_found | some m ↦ ok m ], w)
    | some e ↦ (err Error.psm_not_found, w)
  ]

  -- psm.AddRep
  unfoldable pub add_rep : Rep → Proc (Unit {0})
  unfolding rep_type rep_key
  add_rep rep w = elim (env.rep_add_fault w rep) [
    | none ↦ (ok tt, record w { reps = put w.reps (rep_place (rep_type rep) (rep_key rep)) rep })
    | some e ↦ (err e, w)
  ]

  -- psm.GetRep, for the buckets whose packages have registered a factory.
  unfoldable pub get_rep : Bucket → StateKey → Proc (Option Rep)
  get_rep bucket key w = elim (env.rep_find_fault w bucket key) [
    | none ↦ (ok (get w.reps (rep_place bucket key)), w)
    | some e ↦ (err e, w)
  ]

  -- time.Now().UnixNano()
  unfoldable pub read_clock : Proc ℕ
  read_clock w = let now = w.clock + env.elapse w in (ok now, record w { clock = now })

  -- comm.SendPL
  unfoldable pub send_pl : Pipe → Task → Msg → Proc (Unit {0})
  send_pl pipe task opl w = elim (env.send_fault w pipe task opl) [
    | none ↦ (
      ok tt,
      record w {
        posted =
            w.posted ++ record { pipe = pipe; task = task; payload = opl; delivered = true } ∷ [];
      },
    )
    | some e ↦ (
      err e,
      record w {
        posted =
            w.posted ++ record { pipe = pipe; task = task; payload = opl; delivered = false } ∷ [];
      },
    )
  ]

  -- FindPWByID, and the assertion that it found one.
  unfoldable pub find_pairwise : String → Proc Pairwise
  find_pairwise conn_id w = elim (env.find_pw w conn_id) [
    | ok (some pw) ↦ (ok pw, w)
    | ok none ↦ (failing env.assertion, w)
    | err e ↦ (err e, w)
    | panicked ↦ (panicked, w)
  ]
