-- ===== src/Psm.antt =====
-- agent/psm/psm.go: the protocol state machine and its history.
pub mod Sub
pub mod Rules
pub mod Rep
use findy_agent.Common.{
  ℕ, zero, suc, String, Bool, true, false, ◌||◌, ◌&&◌, ◌≡◌, refl, ◌↔◌, Option, none, some, List, [],
  ◌∷◌, last?, head?, arith, eqb, if◌then◌else◌, ◌==◌, eq_iff,
}
use findy_agent.Common.Table.{Eq}
use findy_agent.Common.Exec.{Outcome, ok, panicked}
use findy_agent.Pltype.{Role, user_action}
use findy_agent.Didcomm.{protocol_for_type, protocol_msg_for_type}
use Sub.{SubState, accepts, is_ready, pure, failure}

pub record StateKey : Type 0 where
  pub did : String
  pub nonce : String

abbrev pub key_beq : StateKey → StateKey → Bool
key_beq a b = a.did == b.did && a.nonce == b.nonce

pub key_beq_iff : (a b : StateKey) → (key_beq a b ≡ true) ↔ (a ≡ b)
key_beq_iff a b = ground (arith, eq_iff a.did b.did, eq_iff a.nonce b.nonce)

instance abbrev pub key_eq : Eq StateKey
key_eq = record { beq = key_beq; beq_iff = key_beq_iff }

-- comm.TaskHeader, which every task embeds. What a protocol adds to its task stands with the
-- protocol.
pub record Task : Type 0 where
  pub id : String
  pub type : String
  pub role : Role
  pub conn_id : String
  pub user_action_type : String
  pub sender : String
  pub receiver : String

pub record State : Type 0 where
  pub timestamp : ℕ
  pub task : Option Task
  pub pl_type : String
  pub sub : SubState

pub record Psm : Type 0 where
  pub key : StateKey
  pub started_by_us : Bool
  pub role : Role
  pub conn_id : String
  pub states : List State

abbrev pub first_state : Psm → Option State
first_state p = head? p.states

abbrev pub last_state : Psm → Option State
last_state p = last? p.states

unfoldable pub psm_is_ready : Psm → Bool
psm_is_ready p = elim (last_state p) [
  | none ↦ false
  | some state ↦ is_ready state.sub || eqb (pure state.sub) failure
]

unfoldable pub timestamp : Psm → ℕ
timestamp p = elim (last_state p) [ none ↦ 0 | some state ↦ state.timestamp ]

-- `len(state.PLInfo.Type) > 0` guards the call, which panics on a malformed type.
unfoldable pub next : Psm → Outcome String
next p = elim (last_state p) [
  | none ↦ ok ""
  | some state ↦ (if state.pl_type == "" then ok "" else protocol_msg_for_type state.pl_type)
]

abbrev pub is_user_action : Outcome String → Outcome Bool
is_user_action (ok msg) = ok (user_action == msg)
is_user_action (Outcome.err e) = Outcome.err e
is_user_action panicked = panicked

unfoldable pub pending_user_action : Psm → Outcome Bool
pending_user_action p = elim (last_state p) [
  | none ↦ ok false
  | some state ↦
      (if state.pl_type == ""
        then ok false
        else is_user_action (protocol_msg_for_type state.pl_type))
]

unfoldable pub protocol : Psm → Outcome String
protocol p = elim (first_state p) [
  | none ↦ ok ""
  | some state ↦ (if state.pl_type == "" then ok "" else protocol_for_type state.pl_type)
]

-- The latest task. A PSM with no state is a nil pointer; a state that only sets a flag has no task.
unfoldable pub present_task : Psm → Outcome (Option Task)
present_task p = elim (last_state p) [ none ↦ panicked | some state ↦ ok state.task ]

unfoldable pub accept : Psm → SubState → Outcome Bool
accept p state = elim (last_state p) [ none ↦ panicked | some last ↦ ok (accepts last.sub state) ]
