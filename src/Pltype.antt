-- ===== src/Pltype.antt =====
-- agent/pltype/pl_types.go: the payload types that the model uses, and the tables that are keyed by their parts. The
-- enumerations stand for those of the gRPC interface, with the values that the source names.
mod Messages
mod Proofs
mod Api
mod DidOrg
pub use Messages.*
pub use Proofs.*
pub use Api.*
pub use DidOrg.*
use findy_agent.Common.{String, ◌==◌, if◌then◌else◌}

pub data Role : Type 0 where
  unknown initiator addressee resumer : Role

pub data ProtocolType : Type 0 where
  none_type did_exchange_type issue_type proof_type ping_type message_type : ProtocolType

-- The map `protocolType`; a missing key gives NONE.
unfoldable pub protocol_type_for_family : String → ProtocolType
protocol_type_for_family family =
    if family == aries_protocol_connection
    then did_exchange_type
    else if family == protocol_issue_credential
    then issue_type
    else if family == protocol_present_proof
    then proof_type
    else if family == protocol_trust_ping
    then ping_type
    else if family == protocol_basic_message
    then message_type
    else none_type

-- The map `receiversRoleFromType`; a missing key gives the zero value UNKNOWN.
unfoldable pub protocol_role_for_type : String → Role
protocol_role_for_type handler_id =
    if handler_id == handler_request
    then addressee
    else if handler_id == handler_issue_credential_offer
    then addressee
    else if handler_id == handler_issue_credential_propose
    then initiator
    else if handler_id == handler_present_proof_request
    then addressee
    else if handler_id == handler_present_proof_propose
    then initiator
    else if handler_id == handler_ping
    then addressee
    else if handler_id == handler_message
    then addressee
    else unknown
