-- ===== src/Protocol/Issue.antt =====
-- protocol/issuecredential and std/issuecredential/propose.go: previews of credentials, the
-- representative, and the start of the protocol.
pub mod Issuer
pub mod Holder
pub mod Preview
pub mod Same
pub mod Request
pub mod Flow
use findy_agent.Common.{
  String, Bool, true, false, Option, none, some, List, [], ◌∷◌, map, if◌then◌else◌, ◌==◌,
}
use findy_agent.Common.Table.{Table, get, put, string_eq}
use findy_agent.Common.Exec.{Error, Outcome, ok, err, panicked, pure, lift, try_to, ◌>>=◌, ◌>>◌}
use findy_agent.Pltype.{
  issue_credential_propose, issue_credential_offer, issue_credential_request, ca_cred_offer,
  ca_cred_request, issue_credential_credential_preview,
}
use findy_agent.Didcomm.{Msg}
use findy_agent.Psm.{StateKey, Task}
use findy_agent.Psm.Rep.{Rep, IssueCredRep, issue_rep, proof_rep, message_rep, issue_cred_bucket}
use findy_agent.Prot.World.{World, Env, Proc, add_rep, get_rep, failing, ask}
use findy_agent.Prot.Processor.{start_psm}
use findy_agent.Std.{
  CredAttribute, PreviewCredential, CredOffer, CredPropose, cred_offer, cred_propose, as_cred_offer,
  as_cred_propose, new_offer_attach,
}
use findy_agent.Protocol.{Agent, caught, w_did, Indy, Codec, CredDefAttr, must}

module _ (codec : Codec) where
  -- NewPreviewCredential
  unfoldable pub new_preview_credential : String → Outcome PreviewCredential
  new_preview_credential values = elim (codec.read_attrs values) [
    | ok attrs ↦ ok (record { type = issue_credential_credential_preview; attributes = attrs })
    | err e ↦ err e
    | panicked ↦ panicked
  ]

  -- An entry of the JSON map as an attribute: the MIME type is not in it.
  abbrev pub raw_attribute : String × CredDefAttr → CredAttribute
  raw_attribute (key, value) = record { name = key; value = value.raw; mime_type = "" }

  -- NewPreviewCredentialRaw; the attributes come in the order of `range`.
  unfoldable pub new_preview_credential_raw : String → World → Outcome PreviewCredential
  new_preview_credential_raw values w = elim (codec.read_values values) [
    | ok array ↦ ok (record {
      type = issue_credential_credential_preview;
      attributes = map raw_attribute (codec.range_order w array);
    })
    | err e ↦ err e
    | panicked ↦ panicked
  ]

  -- The loop of PreviewCredentialToCodedValues.
  unfoldable pub coded_values_from :
      Table String CredDefAttr → List CredAttribute → Table String CredDefAttr
  coded_values_from r_map [] = r_map
  coded_values_from r_map (attr ∷ attrs) =
      coded_values_from
        (put r_map attr.name (record { raw = attr.value; encoded = codec.encode_value attr.value }))
        attrs

  -- PreviewCredentialToCodedValues
  unfoldable pub preview_to_coded_values : PreviewCredential → String
  unfolding coded_values_from
  preview_to_coded_values credential =
      codec.values_json (coded_values_from [] credential.attributes)

  -- PreviewCredentialToValues: the MIME type is taken away.
  unfoldable pub preview_to_values : PreviewCredential → String
  preview_to_values credential =
      codec.attrs_json
        (map (λ (a : CredAttribute). record a { mime_type = "" }) credential.attributes)

-- preview.StoreCredPreview
unfoldable pub store_cred_preview : PreviewCredential → IssueCredRep → IssueCredRep
store_cred_preview preview rep = record rep { attributes = preview.attributes }

module _ (env : Env) where
  -- The type assertion of GetIssueCredRep; nothing found is allowed.
  unfoldable pub issue_rep_of : Option Rep → Outcome (Option IssueCredRep)
  issue_rep_of none = ok none
  issue_rep_of (some (issue_rep r)) = ok (some r)
  issue_rep_of (some (proof_rep r)) = failing env.assertion
  issue_rep_of (some (message_rep r)) = failing env.assertion

  -- GetIssueCredRep
  unfoldable pub get_issue_cred_rep : StateKey → Proc (Option IssueCredRep)
  get_issue_cred_rep key = do res ← get_rep env issue_cred_bucket key; lift (issue_rep_of res)

  -- A representative whose fields are read or set at once: a nil pointer panics.
  unfoldable pub the_issue_cred_rep : StateKey → Proc IssueCredRep
  the_issue_cred_rep key = do rep ← get_issue_cred_rep key; lift (must rep)

module _ (env : Env) (indy : Indy) where
  -- IssueCredRep.BuildCredRequest: the request, and the representative that it changes in place;
  -- a nil one panics once it is read.
  unfoldable pub build_cred_request : Agent → Option IssueCredRep → Proc (String × IssueCredRep)
  build_cred_request a found = do
    master_sec_id ← ask a.master_secret
    rep ← lift (must found)
    cred_def ← ask (λ w. indy.read_cred_def w a.root_did rep.cred_def_id)
    r ← ask (λ w. indy.create_cred_req w a.root_did rep.cred_offer cred_def master_sec_id)
    pure (r.0, record rep { cred_def = cred_def; cred_req_meta = r.1 })

  -- IssueCredRep.IssuerBuildCred
  unfoldable pub issuer_build_cred : IssueCredRep → String → Proc String
  issuer_build_cred rep cred_req = ask (λ w. indy.create_cred w rep.cred_offer cred_req rep.values)

  -- IssueCredRep.StoreCred
  unfoldable pub store_cred : IssueCredRep → String → Proc (Unit {0})
  store_cred rep cred w = try_to (indy.store_cred w rep.cred_req_meta cred rep.cred_def) w

-- taskIssueCredential
pub record IssueTask : Type 0 where
  pub task : Task
  pub comment : String
  pub credential_attrs : List CredAttribute
  pub cred_def_id : String

-- The loop of startIssueCredentialByPropose that sets the missing MIME types.
unfoldable pub with_mime_types : List CredAttribute → List CredAttribute
with_mime_types [] = []
with_mime_types (attr ∷ attrs) =
    (if attr.mime_type == "" then record attr { mime_type = "text/plain" } else attr)
    ∷ with_mime_types attrs

module _ (env : Env) (indy : Indy) (codec : Codec) where
  -- The Setup of an issuer that starts with an offer.
  unfoldable pub offer_setup : IssueTask → StateKey → Msg → Proc Msg
  offer_setup cred_task key msg = do
    offered ← ask (λ w. indy.create_offer w cred_task.cred_def_id)
    pc ← lift (new_preview_credential codec (codec.attrs_json cred_task.credential_attrs))
    add_rep env (
        issue_rep (record {
          key = key;
          cred_def_id = cred_task.cred_def_id;
          cred_def = "";
          cred_offer = offered;
          cred_req_meta = "";
          values = preview_to_coded_values codec pc;
          attributes = cred_task.credential_attrs;
        }))
    offer ← lift (must (as_cred_offer msg.body))
    pure (record msg {
      body = cred_offer (record offer {
        credential_preview = pc;
        offers_attach = new_offer_attach codec.b64 offered;
      });
    })

  -- The Setup of a holder that starts with a proposal.
  unfoldable pub propose_setup : IssueTask → StateKey → Msg → Proc Msg
  propose_setup cred_task key msg = do
    pc ← lift (new_preview_credential codec (codec.attrs_json cred_task.credential_attrs))
    propose ← lift (must (as_cred_propose msg.body))
    add_rep env (
        issue_rep (record {
          key = key;
          cred_def_id = cred_task.cred_def_id;
          cred_def = "";
          cred_offer = "";
          cred_req_meta = "";
          values = preview_to_coded_values codec pc;
          attributes = cred_task.credential_attrs;
        }))
    pure (record msg {
      body = cred_propose (record propose {
        cred_def_id = cred_task.cred_def_id;
        credential_proposal = pc;
        comment = cred_task.comment;
      });
    })

  -- startIssueCredentialByPropose, once the MIME types are set; a task of another type does nothing.
  unfoldable pub start_issuing : Agent → IssueTask → Proc (Unit {0})
  start_issuing ca cred_task =
      if cred_task.task.type == ca_cred_offer
      then start_psm env (record {
        send_next = issue_credential_offer;
        waiting_next = issue_credential_request;
        worker_did = w_did ca;
        task = cred_task.task;
        setup = offer_setup cred_task;
      })
      else if cred_task.task.type == ca_cred_request
      then start_psm env (record {
        send_next = issue_credential_propose;
        waiting_next = issue_credential_offer;
        worker_did = w_did ca;
        task = cred_task.task;
        setup = propose_setup cred_task;
      })
      else pure tt

  unfoldable pub start_issue_credential : Agent → IssueTask → Proc (Unit {0})
  unfolding with_mime_types start_issuing
  start_issue_credential ca cred_task = caught env (
      start_issuing ca
        (record cred_task { credential_attrs = with_mime_types cred_task.credential_attrs }))
