-- ===== src/Pltype/Api.antt =====
-- The internal types that start and continue a protocol (agent/pltype/pl_types.go).
use Prim.Native.String.{String, ◌++◌}
use findy_agent.Pltype.Messages.{ca, sa, protocol_issue_credential, aries_protocol_connection}
use findy_agent.Pltype.Proofs.{protocol_present_proof, protocol_basic_message, protocol_trust_ping}

abbrev pub sa_ping : String
sa_ping = sa ++ "/ping/1.0/ping"

abbrev pub sa_issue_credential : String
sa_issue_credential = sa ++ "/issue_credential"

abbrev pub sa_issue_credential_accept_propose : String
sa_issue_credential_accept_propose = sa_issue_credential ++ "/1.0/accept_propose"

abbrev pub sa_present_proof : String
sa_present_proof = sa ++ "/present_proof"

abbrev pub sa_present_proof_accept_propose : String
sa_present_proof_accept_propose = sa_present_proof ++ "/1.0/accept_propose"

abbrev pub sa_present_proof_accept_values : String
sa_present_proof_accept_values = sa_present_proof ++ "/1.0/accept_values"

abbrev pub ca_pairwise : String
ca_pairwise = ca ++ "/" ++ aries_protocol_connection

abbrev pub ca_pairwise_invitation : String
ca_pairwise_invitation = ca_pairwise ++ "/1.0/invitation"

abbrev pub ca_pairwise_create : String
ca_pairwise_create = ca_pairwise ++ "/1.0/create"

abbrev pub ca_trust_ping : String
ca_trust_ping = ca ++ "/" ++ protocol_trust_ping ++ "/1.0/ping"

abbrev pub ca_notify : String
ca_notify = ca ++ "/notify"

abbrev pub ca_notify_status : String
ca_notify_status = ca_notify ++ "/1.0/status"

abbrev pub ca_notify_user_action : String
ca_notify_user_action = ca_notify ++ "/1.0/user-action"

abbrev pub ca_cred : String
ca_cred = ca ++ "/" ++ protocol_issue_credential

abbrev pub ca_cred_request : String
ca_cred_request = ca_cred ++ "/1.0/request"

abbrev pub ca_cred_offer : String
ca_cred_offer = ca_cred ++ "/1.0/propose"

abbrev pub ca_proof : String
ca_proof = ca ++ "/" ++ protocol_present_proof

abbrev pub ca_proof_propose : String
ca_proof_propose = ca_proof ++ "/1.0/propose"

abbrev pub ca_proof_request : String
ca_proof_request = ca_proof ++ "/1.0/request"

abbrev pub ca_basic_message : String
ca_basic_message = ca ++ "/" ++ protocol_basic_message ++ "/1.0/send"

abbrev pub ca_continue_present_proof_protocol : String
ca_continue_present_proof_protocol = ca ++ "/protocol/1.0/continue-present-proof"

abbrev pub ca_continue_issue_credential_protocol : String
ca_continue_issue_credential_protocol = ca ++ "/protocol/1.0/continue-issue-credential"
