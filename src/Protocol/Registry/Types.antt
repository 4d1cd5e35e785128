-- ===== src/Protocol/Registry/Types.antt =====
-- grpc/server/server.go: the types that tasks are started with, and the protocols that they name.
use findy_agent.Common.{String, ◌≡◌, refl, ap, ◌∙◌, some, some_inj, sym, ◌⊎◌, inl, inr, split}
use findy_agent.Common.Exec.{ok}
use findy_agent.Pltype.{
  Role, unknown, initiator, addressee, ProtocolType, none_type, did_exchange_type, issue_type,
  proof_type, ping_type, message_type, protocol_type_for_family,
}
use findy_agent.Didcomm.{protocol_for_type, field_at_ind, field_of}
use findy_agent.Psm.{Task}
use findy_agent.Protocol.Registry.{type_id, protocol_type}

abbrev pub IsStarter : Role → Type 0
IsStarter role = (role ≡ initiator) ⊎ (role ≡ addressee)

-- The protocol that a type names.
abbrev named : String → Task
named t = record {
  id = "";
  type = t;
  role = unknown;
  conn_id = "";
  user_action_type = "";
  sender = "";
  receiver = "";
}

type_lem :
    (t t' : String) (p : ProtocolType)
    → protocol_type (named t) ≡ ok p
    → some t ≡ some t'
    → protocol_type (named t') ≡ ok p
type_lem t t' p h e = ap (λ x. protocol_type (named x)) (sym (some_inj e)) ∙ h

initiated_type :
    (p : ProtocolType) (t : String) → type_id initiator p ≡ some t → protocol_type (named t) ≡ ok p
unfolding type_id protocol_type protocol_type_for_family protocol_for_type field_at_ind field_of
    split
initiated_type none_type t e = cc
initiated_type did_exchange_type t e = type_lem _ t did_exchange_type refl e
initiated_type issue_type t e = type_lem _ t issue_type refl e
initiated_type proof_type t e = type_lem _ t proof_type refl e
initiated_type ping_type t e = type_lem _ t ping_type refl e
initiated_type message_type t e = type_lem _ t message_type refl e

invited_type :
    (p : ProtocolType) (t : String) → type_id addressee p ≡ some t → protocol_type (named t) ≡ ok p
unfolding type_id protocol_type protocol_type_for_family protocol_for_type field_at_ind field_of
    split
invited_type none_type t e = cc
invited_type did_exchange_type t e = type_lem _ t did_exchange_type refl e
invited_type issue_type t e = type_lem _ t issue_type refl e
invited_type proof_type t e = type_lem _ t proof_type refl e
invited_type ping_type t e = cc
invited_type message_type t e = cc

-- A task of the type with which an initiator or an addressee starts a protocol is one of that protocol:
-- the table of the starting types, the parts of a type and the table of the protocols agree.
pub type_id-protocol_type :
    (role : Role) (p : ProtocolType) (task : Task)
    → IsStarter role
    → type_id role p ≡ some task.type
    → protocol_type task ≡ ok p
unfolding protocol_type
type_id-protocol_type role p task (inl h) e =
    initiated_type p task.type (ap (λ r. type_id r p) (sym h) ∙ e)
type_id-protocol_type role p task (inr h) e =
    invited_type p task.type (ap (λ r. type_id r p) (sym h) ∙ e)
