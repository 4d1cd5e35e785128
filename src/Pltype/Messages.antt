-- ===== src/Pltype/Messages.antt =====
-- The message types of the credential and connection protocols (agent/pltype/pl_types.go).
use Prim.Native.String.{String, ◌++◌}

abbrev pub terminate : String
terminate = ""

abbrev pub nothing : String
nothing = ""

abbrev pub agent : String
agent = "urn:indy:sov:agent:message_type:findy.fi"

abbrev pub aries : String
aries = "did:sov:BzCbsNYhMrjHiqZDTUASHg;spec"

abbrev pub ca : String
ca = "urn:indy:sov:agent_api:message_type:findy.fi"

abbrev pub sa : String
sa = "urn:indy:sov:service_agent_api:message_type:findy.fi"

abbrev pub user_action : String
user_action = "user-action"

abbrev pub protocol_connection : String
protocol_connection = "connection"

abbrev pub connection : String
connection = agent ++ "/" ++ protocol_connection

abbrev pub connection_request : String
connection_request = connection ++ "/1.0/request"

abbrev pub protocol_issue_credential : String
protocol_issue_credential = "issue-credential"

abbrev pub handler_issue_credential_propose : String
handler_issue_credential_propose = "propose-credential"

abbrev pub handler_issue_credential_offer : String
handler_issue_credential_offer = "offer-credential"

abbrev pub handler_issue_credential_request : String
handler_issue_credential_request = "request-credential"

abbrev pub handler_issue_credential_issue : String
handler_issue_credential_issue = "issue-credential"

abbrev pub handler_issue_credential_ack : String
handler_issue_credential_ack = "ack"

abbrev pub handler_issue_credential_nack : String
handler_issue_credential_nack = "nack"

abbrev pub handler_issue_credential_user_action : String
handler_issue_credential_user_action = user_action

abbrev pub issue_credential : String
issue_credential = aries ++ "/" ++ protocol_issue_credential

abbrev pub issue_credential_propose : String
issue_credential_propose = issue_credential ++ "/1.0/" ++ handler_issue_credential_propose

abbrev pub issue_credential_offer : String
issue_credential_offer = issue_credential ++ "/1.0/" ++ handler_issue_credential_offer

abbrev pub issue_credential_user_action : String
issue_credential_user_action = issue_credential ++ "/1.0/" ++ handler_issue_credential_user_action

abbrev pub issue_credential_request : String
issue_credential_request = issue_credential ++ "/1.0/" ++ handler_issue_credential_request

abbrev pub issue_credential_issue : String
issue_credential_issue = issue_credential ++ "/1.0/" ++ handler_issue_credential_issue

abbrev pub issue_credential_ack : String
issue_credential_ack = issue_credential ++ "/1.0/" ++ handler_issue_credential_ack

abbrev pub issue_credential_nack : String
issue_credential_nack = issue_credential ++ "/1.0/" ++ handler_issue_credential_nack

abbrev pub handler_request : String
handler_request = "request"

abbrev pub handler_response : String
handler_response = "response"

abbrev pub aries_protocol_connection : String
aries_protocol_connection = "connections"

abbrev pub aries_connection : String
aries_connection = aries ++ "/" ++ aries_protocol_connection

abbrev pub aries_connection_request : String
aries_connection_request = aries_connection ++ "/1.0/" ++ handler_request

abbrev pub aries_connection_response : String
aries_connection_response = aries_connection ++ "/1.0/" ++ handler_response
