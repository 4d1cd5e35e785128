-- ===== src/Pltype/Proofs.antt =====
-- The message types of the exchange, proof, message and ping protocols (agent/pltype/pl_types.go).
use Prim.Native.String.{String, ◌++◌}
use findy_agent.Pltype.Messages.{aries, user_action, handler_request, handler_response}

abbrev pub handler_complete : String
handler_complete = "complete"

abbrev pub aries_protocol_did_exchange : String
aries_protocol_did_exchange = "didexchange"

abbrev pub aries_did_exchange : String
aries_did_exchange = aries ++ "/" ++ aries_protocol_did_exchange

abbrev pub aries_did_exchange_request : String
aries_did_exchange_request = aries_did_exchange ++ "/1.0/" ++ handler_request

abbrev pub aries_did_exchange_response : String
aries_did_exchange_response = aries_did_exchange ++ "/1.0/" ++ handler_response

abbrev pub aries_did_exchange_complete : String
aries_did_exchange_complete = aries_did_exchange ++ "/1.0/" ++ handler_complete

abbrev pub protocol_present_proof : String
protocol_present_proof = "present-proof"

abbrev pub handler_present_proof_propose : String
handler_present_proof_propose = "propose-presentation"

abbrev pub handler_present_proof_request : String
handler_present_proof_request = "request-presentation"

abbrev pub handler_present_proof_presentation : String
handler_present_proof_presentation = "presentation"

abbrev pub handler_present_proof_ack : String
handler_present_proof_ack = "ack"

abbrev pub handler_present_proof_nack : String
handler_present_proof_nack = "nack"

abbrev pub handler_present_user_action : String
handler_present_user_action = user_action

abbrev pub present_proof : String
present_proof = aries ++ "/" ++ protocol_present_proof

abbrev pub present_proof_propose : String
present_proof_propose = present_proof ++ "/1.0/" ++ handler_present_proof_propose

abbrev pub present_proof_request : String
present_proof_request = present_proof ++ "/1.0/" ++ handler_present_proof_request

abbrev pub present_proof_presentation : String
present_proof_presentation = present_proof ++ "/1.0/" ++ handler_present_proof_presentation

abbrev pub present_proof_user_action : String
present_proof_user_action = present_proof ++ "/1.0/" ++ handler_present_user_action

abbrev pub present_proof_ack : String
present_proof_ack = present_proof ++ "/1.0/" ++ handler_present_proof_ack

abbrev pub present_proof_nack : String
present_proof_nack = present_proof ++ "/1.0/" ++ handler_present_proof_nack

abbrev pub protocol_basic_message : String
protocol_basic_message = "basicmessage"

abbrev pub handler_message : String
handler_message = "message"

abbrev pub basic_message : String
basic_message = aries ++ "/" ++ protocol_basic_message

abbrev pub basic_message_send : String
basic_message_send = basic_message ++ "/1.0/" ++ handler_message

abbrev pub protocol_trust_ping : String
protocol_trust_ping = "trust_ping"

abbrev pub handler_ping : String
handler_ping = "ping"

abbrev pub handler_ping_response : String
handler_ping_response = "ping_response"

abbrev pub trust_ping : String
trust_ping = aries ++ "/" ++ protocol_trust_ping

abbrev pub trust_ping_ping : String
trust_ping_ping = trust_ping ++ "/1.0/" ++ handler_ping

abbrev pub trust_ping_response : String
trust_ping_response = trust_ping ++ "/1.0/" ++ handler_ping_response
