-- ===== src/Pltype/DidOrg.antt =====
-- The message types of the didcomm.org namespace, and the names of parts of messages
-- (agent/pltype/pl_types.go).
use Prim.Native.String.{String, ◌++◌}
use findy_agent.Pltype.Messages.{
  aries_protocol_connection, handler_issue_credential_ack, handler_issue_credential_issue,
  handler_issue_credential_nack, handler_issue_credential_offer, handler_issue_credential_propose,
  handler_issue_credential_request, handler_issue_credential_user_action, handler_request,
  handler_response, issue_credential, protocol_issue_credential,
}
use findy_agent.Pltype.Proofs.{
  aries_protocol_did_exchange, handler_complete, handler_message, handler_ping,
  handler_ping_response, handler_present_proof_ack, handler_present_proof_nack,
  handler_present_proof_presentation, handler_present_proof_propose, handler_present_proof_request,
  handler_present_user_action, present_proof, protocol_basic_message, protocol_present_proof,
  protocol_trust_ping,
}

abbrev pub did_org_aries : String
did_org_aries = "https://didcomm.org"

abbrev pub libindy_request_presentation_id : String
libindy_request_presentation_id = "libindy-request-presentation-0"

abbrev pub libindy_presentation_id : String
libindy_presentation_id = "libindy-presentation-0"

abbrev pub object_type_credential_preview : String
object_type_credential_preview = "credential-preview"

abbrev pub issue_credential_credential_preview : String
issue_credential_credential_preview = issue_credential ++ "/1.0/" ++ object_type_credential_preview

abbrev pub did_org_issue_credential : String
did_org_issue_credential = did_org_aries ++ "/" ++ protocol_issue_credential

abbrev pub did_org_issue_credential_propose : String
did_org_issue_credential_propose =
    did_org_issue_credential ++ "/1.0/" ++ handler_issue_credential_propose

abbrev pub did_org_issue_credential_offer : String
did_org_issue_credential_offer =
    did_org_issue_credential ++ "/1.0/" ++ handler_issue_credential_offer

abbrev pub did_org_issue_credential_user_action : String
did_org_issue_credential_user_action =
    did_org_issue_credential ++ "/1.0/" ++ handler_issue_credential_user_action

abbrev pub did_org_issue_credential_request : String
did_org_issue_credential_request =
    did_org_issue_credential ++ "/1.0/" ++ handler_issue_credential_request

abbrev pub did_org_issue_credential_issue : String
did_org_issue_credential_issue =
    did_org_issue_credential ++ "/1.0/" ++ handler_issue_credential_issue

abbrev pub did_org_issue_credential_ack : String
did_org_issue_credential_ack = did_org_issue_credential ++ "/1.0/" ++ handler_issue_credential_ack

abbrev pub did_org_issue_credential_nack : String
did_org_issue_credential_nack = did_org_issue_credential ++ "/1.0/" ++ handler_issue_credential_nack

abbrev pub did_org_issue_credential_credential_preview : String
did_org_issue_credential_credential_preview =
    did_org_issue_credential ++ "/1.0/" ++ object_type_credential_preview

abbrev pub did_org_aries_connection : String
did_org_aries_connection = did_org_aries ++ "/" ++ aries_protocol_connection

abbrev pub did_org_aries_connection_request : String
did_org_aries_connection_request = did_org_aries_connection ++ "/1.0/" ++ handler_request

abbrev pub did_org_aries_connection_response : String
did_org_aries_connection_response = did_org_aries_connection ++ "/1.0/" ++ handler_response

abbrev pub did_org_aries_did_exchange : String
did_org_aries_did_exchange = did_org_aries ++ "/" ++ aries_protocol_did_exchange

abbrev pub did_org_aries_did_exchange_request : String
did_org_aries_did_exchange_request = did_org_aries_did_exchange ++ "/1.0/" ++ handler_request

abbrev pub did_org_aries_did_exchange_response : String
did_org_aries_did_exchange_response = did_org_aries_did_exchange ++ "/1.0/" ++ handler_response

abbrev pub did_org_aries_did_exchange_complete : String
did_org_aries_did_exchange_complete = did_org_aries_did_exchange ++ "/1.0/" ++ handler_complete

abbrev pub object_type_presentation_preview : String
object_type_presentation_preview = "presentation-preview"

abbrev pub presentation_preview_obj : String
presentation_preview_obj = present_proof ++ "/1.0/" ++ object_type_presentation_preview

abbrev pub did_org_present_proof : String
did_org_present_proof = did_org_aries ++ "/" ++ protocol_present_proof

abbrev pub did_org_present_proof_propose : String
did_org_present_proof_propose = did_org_present_proof ++ "/1.0/" ++ handler_present_proof_propose

abbrev pub did_org_present_proof_request : String
did_org_present_proof_request = did_org_present_proof ++ "/1.0/" ++ handler_present_proof_request

abbrev pub did_org_present_proof_presentation : String
did_org_present_proof_presentation =
    did_org_present_proof ++ "/1.0/" ++ handler_present_proof_presentation

abbrev pub did_org_present_proof_user_action : String
did_org_present_proof_user_action = did_org_present_proof ++ "/1.0/" ++ handler_present_user_action

abbrev pub did_org_present_proof_ack : String
did_org_present_proof_ack = did_org_present_proof ++ "/1.0/" ++ handler_present_proof_ack

abbrev pub did_org_present_proof_nack : String
did_org_present_proof_nack = did_org_present_proof ++ "/1.0/" ++ handler_present_proof_nack

abbrev pub did_org_presentation_preview_obj : String
did_org_presentation_preview_obj =
    did_org_present_proof ++ "/1.0/" ++ object_type_presentation_preview

abbrev pub did_org_basic_message : String
did_org_basic_message = did_org_aries ++ "/" ++ protocol_basic_message

abbrev pub did_org_basic_message_send : String
did_org_basic_message_send = did_org_basic_message ++ "/1.0/" ++ handler_message

abbrev pub did_org_trust_ping : String
did_org_trust_ping = did_org_aries ++ "/" ++ protocol_trust_ping

abbrev pub did_org_trust_ping_ping : String
did_org_trust_ping_ping = did_org_trust_ping ++ "/1.0/" ++ handler_ping

abbrev pub did_org_trust_ping_response : String
did_org_trust_ping_response = did_org_trust_ping ++ "/1.0/" ++ handler_ping_response
