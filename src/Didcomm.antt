-- ===== src/Didcomm.antt =====
-- agent/didcomm/payload.go and agent/aries: the parts of a message type, messages and payloads.
pub mod Fields
use findy_agent.Common.{
  ℕ, ◌+◌, String, Bool, Option, none, some, List, [], ◌∷◌, length, get_elem?, eqb, if◌then◌else◌,
  split, ◌==◌,
}
use findy_agent.Common.Exec.{Outcome, ok, panicked}
use findy_agent.Std.{Body, no_body}
use text.Mathlib.Text.{starts_with}

-- `parts[where]`: an index out of range panics.
abbrev pub index : List String → ℕ → Outcome String
index parts at = elim (get_elem? parts at) [ none ↦ panicked | some p ↦ ok p ]

-- Of a text that is not empty: it must have exactly `max_slits` parts.
unfoldable pub field_of : String → ℕ → ℕ → Outcome String
field_of s max_slits at =
    let parts = split b'/' s in if eqb (length parts) max_slits then index parts at else panicked

unfoldable pub field_at_ind : String → ℕ → Outcome String
field_at_ind s at =
    if s == ""
    then ok ""
    else if starts_with s "https://"
    then field_of s 6 (at + 2)
    else field_of s 4 at

-- ProtocolForType
unfoldable pub protocol_for_type : String → Outcome String
unfolding field_at_ind
protocol_for_type type_str = field_at_ind type_str 1

-- ProtocolMsgForType
unfoldable pub protocol_msg_for_type : String → Outcome String
unfolding field_at_ind
protocol_msg_for_type type_str = field_at_ind type_str 3

pub record Thread : Type 0 where
  pub id : String
  pub pid : String

-- A message: the fields that the state machine reads or sets, and the structure that it is of.
pub record Msg : Type 0 where
  pub type : String
  pub aid : String
  pub thread : Thread
  pub sub_level_id : String
  pub ready : Bool
  pub body : Body

-- The fields of `didcomm.MsgInit` that the state machine gives.
pub record MsgInit : Type 0 where
  pub type : String
  pub aid : String
  pub nonce : String
  pub id : String
  pub ready : Bool
  pub thread : Option Thread

unfoldable pub create_msg : MsgInit → Msg
create_msg d = record {
  type = d.type;
  aid = d.aid;
  thread = elim d.thread [ none ↦ record { id = d.nonce; pid = "" } | some th ↦ th ];
  sub_level_id = d.id;
  ready = d.ready;
  body = no_body;
}

-- `MsgFactor.Create`: the factors are registered by the packages of the message types.
unfoldable pub create : (String → Option (MsgInit → Msg)) → MsgInit → Msg
unfolding create_msg
create factors d = elim (factors d.type) [ none ↦ create_msg d | some factor ↦ factor d ]

-- `PayloadFactor.NewMsg`: a payload is its message; the type and the id are set in place.
unfoldable pub new_msg : String → String → Msg → Msg
new_msg id t m = record m { type = t; aid = id }

-- `PayloadFactor.New`
unfoldable pub new_payload : (String → Option (MsgInit → Msg)) → String → String → Msg
unfolding create
new_payload factors id t =
    create factors
      (record { type = t; aid = ""; nonce = ""; id = ""; ready = Bool.false; thread = none })

-- `PayloadImpl.ThreadID`: the parent thread, then the thread, then the message's own id.
unfoldable pub thread_id : Msg → String
thread_id pl =
    if pl.thread.pid == ""
    then (if pl.thread.id == "" then pl.aid else pl.thread.id)
    else pl.thread.pid
