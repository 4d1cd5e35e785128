-- ===== src/Protocol/Issue/Issuer.antt =====
-- protocol/issuecredential/issuer/handlers.go: the issuer's side.
use findy_agent.Common.{String, Bool, true, false, Option, none, some, if◌then◌else◌}
use findy_agent.Common.Exec.{pure, lift, ◌>>=◌, ◌>>◌}
use findy_agent.Pltype.{
  nothing, terminate, issue_credential_offer, issue_credential_request,
  issue_credential_user_action, issue_credential_nack, issue_credential_issue, issue_credential_ack,
  sa_issue_credential_accept_propose,
}
use findy_agent.Didcomm.{Msg}
use findy_agent.Psm.Rep.{issue_rep}
use findy_agent.Prot.World.{Env, Proc, add_rep, ask}
use findy_agent.Prot.Processor.{Handler, exec_psm, continue_psm}
use findy_agent.Std.{
  CredOffer, cred_offer, cred_issue, as_cred_offer, as_cred_propose, as_cred_request, as_cred_issue,
  new_offer_attach, new_credentials_attach, first_attachment,
}
use findy_agent.Protocol.{
  Agent, caught, w_did, Packet, Indy, Codec, must, new_state_key, transition,
}
use findy_agent.Protocol.Issue.{
  preview_to_coded_values, new_preview_credential_raw, get_issue_cred_rep, the_issue_cred_rep,
  issuer_build_cred,
}

-- The offer of a credential, as both ways to send it fill it; the representative that
-- StoreCredPreview changes afterwards is not saved.
unfoldable pub fill_offer : Codec → String → String → CredOffer → Msg → Proc Msg
fill_offer codec offered values offer om = do
  pc ← ask (new_preview_credential_raw codec values)
  pure (record om {
    body = cred_offer (record offer {
      comment = values;
      credential_preview = pc;
      offers_attach = new_offer_attach codec.b64 offered;
    });
  })

-- Only an outgoing message that is an offer is filled: `offer, autoAccept := ...`.
unfoldable pub fill_if_offer : Codec → String → String → Option CredOffer → Msg → Proc Msg
unfolding fill_offer
fill_if_offer codec offered values none om = pure om
fill_if_offer codec offered values (some offer) om = fill_offer codec offered values offer om

module _ (env : Env) (indy : Indy) (codec : Codec) where
  -- The InOut of HandleCredentialPropose.
  unfoldable pub propose_handler : Agent → Handler
  propose_handler wa im om = do
    prop ← lift (must (as_cred_propose im.body))
    let values = preview_to_coded_values codec prop.credential_proposal
    offered ← ask (λ w. indy.create_offer w prop.cred_def_id)
    add_rep env (
        issue_rep (record {
          key = record { did = wa.my_did; nonce = im.thread.id };
          cred_def_id = prop.cred_def_id;
          cred_def = "";
          cred_offer = offered;
          cred_req_meta = "";
          values = values;
          attributes = prop.credential_proposal.attributes;
        }))
    filled ← fill_if_offer codec offered values (as_cred_offer om.body) om
    pure (true, filled)

  unfoldable pub handle_credential_propose : Packet → Proc (Unit {0})
  handle_credential_propose packet =
      let auto = packet.receiver.auto_permission in
      exec_psm env (
        transition packet (if auto then issue_credential_offer else nothing)
          (if auto then issue_credential_request else issue_credential_user_action)
          issue_credential_nack sa_issue_credential_accept_propose
          (propose_handler packet.receiver))

  -- The Transfer of ContinueCredentialPropose, when the user has accepted.
  unfoldable pub offer_accepted : Agent → Msg → Msg → Proc (Bool × Msg)
  offer_accepted ca im om = do
    rep ← the_issue_cred_rep env (new_state_key ca im.thread.id)
    offer ← lift (must (as_cred_offer om.body))
    filled ← fill_offer codec rep.cred_offer rep.values offer om
    pure (true, filled)

  -- The Transfer of ContinueCredentialPropose.
  unfoldable pub propose_transfer : Agent → Handler
  propose_transfer ca im om = if im.ready then offer_accepted ca im om else pure (false, om)

  unfoldable pub continue_credential_propose : Agent → Msg → Proc (Unit {0})
  continue_credential_propose ca im = caught env (
      continue_psm env (record {
        worker_did = w_did ca;
        in_msg = im;
        send_next = issue_credential_offer;
        waiting_next = issue_credential_request;
        send_on_nack = issue_credential_nack;
        transfer = propose_transfer ca;
      }))

  -- The InOut of HandleCredentialRequest.
  unfoldable pub request_handler : Agent → Handler
  request_handler agent im om = do
    req ← lift (must (as_cred_request im.body))
    found ← get_issue_cred_rep env (new_state_key agent im.thread.id)
    attach ← lift (first_attachment codec.b64 req.requests_attach)
    rep ← lift (must found)
    cred ← issuer_build_cred env indy rep attach
    issue ← lift (must (as_cred_issue om.body))
    pure (
      true,
      record om {
        body =
            cred_issue
              (record issue { credentials_attach = new_credentials_attach codec.b64 cred });
      },
    )

  unfoldable pub handle_credential_request : Packet → Proc (Unit {0})
  handle_credential_request packet = exec_psm env (
      transition packet issue_credential_issue issue_credential_ack "" ""
        (request_handler packet.receiver))

  unfoldable pub handle_credential_ack : Packet → Proc (Unit {0})
  handle_credential_ack packet =
      exec_psm env (transition packet terminate terminate "" "" (λ im om. pure (true, om)))
