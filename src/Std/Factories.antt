-- ===== src/Std/Factories.antt =====
-- std/*: the factories of the messages, which the packages register for both namespaces of a type. The
-- state machine gives no `Info`, so that the comment or the status of a new message is empty; the clock
-- gives a basic message its time.
use findy_agent.Common.{String, ℕ, Option, none, some, [], ◌==◌, ◌||◌, false, if◌then◌else◌}
use findy_agent.Pltype.{
  issue_credential_propose, issue_credential_offer, issue_credential_request,
  issue_credential_issue, issue_credential_ack, did_org_issue_credential_propose,
  did_org_issue_credential_offer, did_org_issue_credential_request, did_org_issue_credential_issue,
  did_org_issue_credential_ack, present_proof_propose, present_proof_request,
  present_proof_presentation, present_proof_ack, did_org_present_proof_propose,
  did_org_present_proof_request, did_org_present_proof_presentation, did_org_present_proof_ack,
  basic_message_send, did_org_basic_message_send,
}
use findy_agent.Didcomm.{Msg, MsgInit, Thread}
use findy_agent.Std.{
  Body, cred_propose, cred_offer, cred_request, cred_issue, ack_body, proof_propose, proof_request,
  presentation, basic_message, PreviewCredential,
}

-- decorator.CheckThread
unfoldable pub check_thread : Option Thread → String → Thread
check_thread none id = record { id = id; pid = "" }
check_thread (some thread) id = if thread.id == "" then record thread { id = id } else thread

abbrev made : Body → MsgInit → Msg
made body init = record {
  type = init.type;
  aid = init.aid;
  thread = check_thread init.thread init.aid;
  sub_level_id = "";
  ready = false;
  body = body;
}

abbrev empty_preview : PreviewCredential
empty_preview = record { type = ""; attributes = [] }

-- ProposeFactor.NewMsg of issuecredential
unfoldable pub new_cred_propose : MsgInit → Msg
new_cred_propose =
    made (
      cred_propose (record { comment = ""; credential_proposal = empty_preview; cred_def_id = "" }))

-- OfferFactor.NewMsg
unfoldable pub new_cred_offer : MsgInit → Msg
new_cred_offer =
    made
      (cred_offer (record { comment = ""; credential_preview = empty_preview; offers_attach = [] }))

-- RequestFactor.NewMsg of issuecredential
unfoldable pub new_cred_request : MsgInit → Msg
new_cred_request = made (cred_request (record { comment = ""; requests_attach = [] }))

-- IssueFactor.NewMsg
unfoldable pub new_cred_issue : MsgInit → Msg
new_cred_issue = made (cred_issue (record { comment = ""; credentials_attach = [] }))

-- AckFactor.NewMsg
unfoldable pub new_ack : MsgInit → Msg
new_ack = made (ack_body "")

-- Factor.NewMsg of presentproof
unfoldable pub new_proof_propose : MsgInit → Msg
new_proof_propose = made (proof_propose (record { comment = ""; presentation_proposal = none }))

-- RequestFactor.NewMsg of presentproof
unfoldable pub new_proof_request : MsgInit → Msg
new_proof_request = made (proof_request (record { comment = ""; request_presentations = [] }))

-- PresentationFactor.NewMsg
unfoldable pub new_presentation : MsgInit → Msg
new_presentation = made (presentation (record { comment = ""; presentation_attaches = [] }))

-- Factor.NewMsg of basicmessage
unfoldable pub new_basic_message : ℕ → MsgInit → Msg
new_basic_message now = made (basic_message (record { content = ""; sent_time = now }))

-- What the packages have added to `aries.Creator` when the program runs; `now` is the time at the call.
unfoldable pub std_factors : ℕ → String → Option (MsgInit → Msg)
std_factors now t =
    if t == issue_credential_propose || t == did_org_issue_credential_propose
    then some new_cred_propose
    else if t == issue_credential_offer || t == did_org_issue_credential_offer
    then some new_cred_offer
    else if t == issue_credential_request || t == did_org_issue_credential_request
    then some new_cred_request
    else if t == issue_credential_issue || t == did_org_issue_credential_issue
    then some new_cred_issue
    else if t == issue_credential_ack
        || t == present_proof_ack
        || t == did_org_issue_credential_ack
        || t == did_org_present_proof_ack
    then some new_ack
    else if t == present_proof_propose || t == did_org_present_proof_propose
    then some new_proof_propose
    else if t == present_proof_request || t == did_org_present_proof_request
    then some new_proof_request
    else if t == present_proof_presentation || t == did_org_present_proof_presentation
    then some new_presentation
    else if t == basic_message_send || t == did_org_basic_message_send
    then some (new_basic_message now)
    else none
