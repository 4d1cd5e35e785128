-- ===== src/Protocol/Issue/Holder.antt =====
-- protocol/issuecredential/holder/handlers.go: the holder's side.
use findy_agent.Common.{String, Bool, true, false, Option, none, some, [], if◌then◌else◌}
use findy_agent.Common.Exec.{pure, lift, ◌>>=◌, ◌>>◌}
use findy_agent.Pltype.{
  nothing, terminate, issue_credential_request, issue_credential_user_action,
  issue_credential_issue, issue_credential_nack, issue_credential_ack, ca_notify_user_action,
}
use findy_agent.Didcomm.{Msg, thread_id}
use findy_agent.Psm.{StateKey}
use findy_agent.Psm.Rep.{IssueCredRep, issue_rep}
use findy_agent.Prot.World.{Env, Proc, add_rep}
use findy_agent.Prot.Processor.{Handler, exec_psm, continue_psm}
use findy_agent.Std.{
  CredRequest, cred_request, ack_body, as_cred_request, as_cred_offer, as_cred_issue, as_ack,
  new_request_attach, first_attachment,
}
use findy_agent.Protocol.{
  Agent, caught, w_did, Packet, Indy, Codec, must, new_state_key, transition, ignoring,
}
use findy_agent.Protocol.Issue.{
  preview_to_values, store_cred_preview, get_issue_cred_rep, build_cred_request, store_cred,
}

-- A new representative, with its key only.
abbrev pub new_rep : StateKey → IssueCredRep
new_rep key = record {
  key = key;
  cred_def_id = "";
  cred_def = "";
  cred_offer = "";
  cred_req_meta = "";
  values = "";
  attributes = [];
}

-- `if credDefID, ok := subMsg["cred_def_id"]; ok`
unfoldable pub with_cred_def_id : Option String → IssueCredRep → IssueCredRep
with_cred_def_id none rep = rep
with_cred_def_id (some cred_def_id) rep = record rep { cred_def_id = cred_def_id }

-- checkAutoPermission
unfoldable pub check_auto_permission : Agent → String × String
check_auto_permission agent =
    if agent.auto_permission
    then (issue_credential_request, issue_credential_issue)
    else (nothing, issue_credential_user_action)

module _ (env : Env) (indy : Indy) (codec : Codec) where
  -- `if rep == nil { try.To(psm.AddRep(rep)) }`
  unfoldable pub add_if_missing : StateKey → Option IssueCredRep → Proc (Unit {0})
  add_if_missing key none = add_rep env (issue_rep (new_rep key))
  add_if_missing key (some rep) = pure tt

  -- The request for a credential, in the outgoing message.
  unfoldable pub fill_request : Agent → IssueCredRep → CredRequest → Msg → Proc (IssueCredRep × Msg)
  fill_request agent rep req om = do
    built ← build_cred_request env indy agent (some rep)
    pure (
      built.1,
      record om {
        body = cred_request (record req { requests_attach = new_request_attach codec.b64 built.0 });
      },
    )

  -- Only an outgoing message that is a request is filled: `req, autoAccept := ...`.
  unfoldable pub fill_if_request :
      Agent → IssueCredRep → Option CredRequest → Msg → Proc (IssueCredRep × Msg)
  unfolding fill_request
  fill_if_request agent rep none om = pure (rep, om)
  fill_if_request agent rep (some req) om = fill_request agent rep req om

  -- The InOut of HandleCredentialOffer.
  unfoldable pub offer_handler : Agent → Handler
  offer_handler agent im om = do
    offer ← lift (must (as_cred_offer im.body))
    let values = preview_to_values codec offer.credential_preview
    found ← get_issue_cred_rep env (new_state_key agent im.thread.id)
    attach ← lift (first_attachment codec.b64 offer.offers_attach)
    rep ← lift (must found)
    cred_def_id ← lift (codec.offer_cred_def_id attach)
    let known = with_cred_def_id cred_def_id (record rep { cred_offer = attach })
    let stored = store_cred_preview offer.credential_preview (record known { values = values })
    filled ← fill_if_request agent stored (as_cred_request om.body) om
    add_rep env (issue_rep filled.0)
    pure (true, filled.1)

  -- HandleCredentialOffer
  unfoldable pub handle_credential_offer : Packet → Proc (Unit {0})
  handle_credential_offer packet =
      let agent = packet.receiver in
      let key = new_state_key agent (thread_id packet.payload) in
      let next = check_auto_permission agent in
      ignoring (get_issue_cred_rep env key) >>= λ rep.
      add_if_missing key rep
      >> exec_psm env
          (transition packet next.0 next.1 "" ca_notify_user_action (offer_handler agent))

  -- The Transfer of UserActionCredential, when the user has accepted.
  unfoldable pub credential_accepted : Agent → Msg → Msg → Proc (Bool × Msg)
  credential_accepted wa im om = do
    rep ← get_issue_cred_rep env (new_state_key wa im.thread.id)
    built ← build_cred_request env indy wa rep
    add_rep env (issue_rep built.1)
    req ← lift (must (as_cred_request om.body))
    pure (
      true,
      record om {
        body = cred_request (record req { requests_attach = new_request_attach codec.b64 built.0 });
      },
    )

  -- The Transfer of UserActionCredential.
  unfoldable pub credential_transfer : Agent → Handler
  credential_transfer wa im om = if im.ready then credential_accepted wa im om else pure (false, om)

  -- UserActionCredential
  unfoldable pub user_action_credential : Agent → Msg → Proc (Unit {0})
  user_action_credential ca im = caught env (
      continue_psm env (record {
        worker_did = w_did ca;
        in_msg = im;
        send_next = issue_credential_request;
        waiting_next = issue_credential_ack;
        send_on_nack = issue_credential_nack;
        transfer = credential_transfer ca;
      }))

  -- The InOut of HandleCredentialIssue.
  unfoldable pub issue_handler : Agent → Handler
  issue_handler agent im om = do
    issue ← lift (must (as_cred_issue im.body))
    found ← get_issue_cred_rep env (new_state_key agent im.thread.id)
    cred ← lift (first_attachment codec.b64 issue.credentials_attach)
    rep ← lift (must found)
    store_cred env indy rep cred
    status ← lift (must (as_ack om.body))
    pure (true, record om { body = ack_body "OK" })

  unfoldable pub handle_credential_issue : Packet → Proc (Unit {0})
  handle_credential_issue packet =
      exec_psm env
        (transition packet issue_credential_ack terminate "" "" (issue_handler packet.receiver))
