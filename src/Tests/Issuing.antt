-- ===== src/Tests/Issuing.antt =====
-- The theorems on the credential protocol, at a credential with one attribute.
use mathlib.Core.List.{Perm}
use mathlib.Core.List.Perm
use findy_agent.Common.{false, String, true, ◌≡◌, refl, none, some, List, [], ◌∷◌}
use findy_agent.Common.Table.{Table, get, put, string_eq}
use findy_agent.Common.Exec.{ok}
use findy_agent.Pltype.{
  issue_credential_offer, issue_credential_request, issue_credential_propose,
  issue_credential_credential_preview,
}
use findy_agent.Didcomm.{Msg, protocol_for_type, protocol_msg_for_type, field_at_ind, field_of}
use findy_agent.Psm.{StateKey, key_eq}
use findy_agent.Psm.Rep.{bucket_id, IssueCredRep, issue_rep, place_eq, rep_place, issue_cred_bucket}
use findy_agent.Prot.World.{World, get_rep}
use findy_agent.Prot.Ends.{Ends}
use findy_agent.Prot.Path.{Trace, Last, sent_types}
use findy_agent.Std.{
  BasicMessage, basic_message, PreviewCredential, CredPropose, CredOffer, CredRequest, CredIssue,
  Body, no_body, cred_propose, cred_offer, cred_request, cred_issue, ack_body, Attachment,
  first_attachment,
}
use findy_agent.Protocol.{Agent, Packet, Indy, Codec, CredDefAttr, new_state_key}
use findy_agent.Protocol.Typed.{issue_credential_propose-IsTyped}
use findy_agent.Protocol.Issue.{
  preview_to_coded_values, coded_values_from, new_preview_credential_raw, get_issue_cred_rep,
  issue_rep_of,
}
use findy_agent.Protocol.Issue.Issuer.{propose_handler, propose_transfer, handle_credential_propose}
use findy_agent.Protocol.Issue.Holder.{offer_handler, credential_transfer, issue_handler}
use findy_agent.Protocol.Issue.Same.{HasReps, propose_same_offer}
use findy_agent.Protocol.Issue.Request.{
  MakesRequest, offered_rep, offer_same_request, stored_answer, issue_stores_requested,
}
use findy_agent.Protocol.Issue.Preview.{value_of, last_value, preview_values_kept}
use findy_agent.Protocol.Issue.Flow.{propose_subs, propose_path}
use findy_agent.Protocol.Simple.{message_handler, fill_basic_message_status}
use findy_agent.Protocol.Simple.Proofs.{message_status}
use findy_agent.Tests.{demo_pairwise, demo_env, demo_msg, empty_world}
use findy_agent.Tests.Path.{demo_env-IsHealthy}

pub demo_env-HasReps : HasReps demo_env
demo_env-HasReps = record { finds = λ w b key. refl; adds = λ w rep. refl }

abbrev pub demo_agent : Agent
demo_agent = record {
  auto_permission = true;
  my_did = "me";
  root_did = "root";
  master_secret = λ w. ok "secret";
}

abbrev demo_values : Table String CredDefAttr
demo_values = ("age", record { raw = "7"; encoded = "7" }) ∷ []

abbrev demo_codec : Codec
demo_codec = record {
  b64 = record { encode = λ s. s; decode = λ s. ok s };
  encode_value = λ s. s;
  attrs_json = λ attrs. "attributes";
  read_attrs = λ s. ok [];
  values_json = λ m. "values";
  read_values = λ s. ok demo_values;
  range_order = λ w m. m;
  offer_cred_def_id = λ s. ok (some "definition");
  offer_schema_id = λ s. ok "schema";
}

abbrev demo_indy : Indy
demo_indy = record {
  create_offer = λ w cred_def_id. ok "offer";
  create_cred_req = λ w did offer cred_def secret. ok ("request", "metadata");
  create_cred = λ w offer req values. ok "credential";
  store_cred = λ w meta cred cred_def. none;
  read_cred_def = λ w did id. ok "the definition";
}

abbrev demo_preview : PreviewCredential
demo_preview = record {
  type = issue_credential_credential_preview;
  attributes = record { name = "age"; value = "7"; mime_type = "text/plain" } ∷ [];
}

abbrev demo_propose : CredPropose
demo_propose = record {
  comment = "";
  credential_proposal = demo_preview;
  cred_def_id = "definition";
}

abbrev with_body : Body → Msg
with_body body = record demo_msg { type = issue_credential_propose; body = body }

abbrev data_attached : List Attachment
data_attached = record { id = "0"; mime_type = "application/json"; base64 = "data" } ∷ []

abbrev demo_offer : CredOffer
demo_offer = record {
  comment = "";
  credential_preview = demo_preview;
  offers_attach = data_attached;
}

abbrev demo_request : CredRequest
demo_request = record { comment = ""; requests_attach = [] }

abbrev demo_issue : CredIssue
demo_issue = record { comment = ""; credentials_attach = data_attached }

-- The state that the handler leaves when it has asked its user, some time later.
abbrev asked_world : World
asked_world =
    record (propose_handler demo_env demo_indy demo_codec demo_agent
      (with_body (cred_propose demo_propose)) (with_body no_body) empty_world).1 { clock = 9 }

propose_same_offer_example :
    (now later : CredOffer) × ((propose_handler demo_env demo_indy demo_codec demo_agent
        (with_body (cred_propose demo_propose))
        (with_body (cred_offer demo_offer))
        empty_world).0
      ≡ ok (true, with_body (cred_offer now)))
    × ((propose_transfer demo_env demo_indy demo_codec demo_agent demo_msg
          (with_body (cred_offer demo_offer))
          asked_world).0
        ≡ ok (true, with_body (cred_offer later)))
    × (later.comment ≡ now.comment)
    × (later.offers_attach ≡ now.offers_attach)
    × (later.credential_preview.type ≡ now.credential_preview.type)
    × Perm later.credential_preview.attributes now.credential_preview.attributes
propose_same_offer_example =
    propose_same_offer demo_env demo_env-HasReps demo_indy demo_codec demo_agent
      (with_body (cred_propose demo_propose)) (with_body (cred_offer demo_offer))
      (with_body no_body) demo_msg demo_propose demo_offer "offer" demo_values empty_world
      asked_world refl refl refl (λ v m. Perm.refl m) refl refl refl refl refl

abbrev thread_key : StateKey
thread_key = record { did = "me"; nonce = "thread" }

abbrev demo_rep : IssueCredRep
demo_rep = record {
  key = thread_key;
  cred_def_id = "";
  cred_def = "";
  cred_offer = "";
  cred_req_meta = "";
  values = "";
  attributes = [];
}

abbrev rep_world : World
rep_world = record empty_world {
  reps = (rep_place issue_cred_bucket thread_key, issue_rep demo_rep) ∷ [];
}

rep_found :
    get_issue_cred_rep demo_env (new_state_key demo_agent "thread") rep_world
    ≡ (ok (some demo_rep), rep_world)
unfolding get_issue_cred_rep get_rep issue_rep_of new_state_key get rep_place bucket_id
rep_found = refl

attached : first_attachment demo_codec.b64 data_attached ≡ ok "data"
unfolding first_attachment
attached = refl

rep_keyed : demo_rep.key ≡ new_state_key demo_agent "thread"
unfolding new_state_key
rep_keyed = refl

makes_request : MakesRequest demo_indy demo_agent (
    offered_rep demo_env demo_env-HasReps demo_indy demo_codec demo_agent demo_offer "data"
      (some "definition")
      demo_rep)
makes_request = record {
  secret = "secret";
  has_secret = λ w. refl;
  cred_def = "the definition";
  has_cred_def = λ w. refl;
  request = "request";
  meta = "metadata";
  has_request = λ w. refl;
}

offer_same_request_example :
    (credential_transfer demo_env demo_indy demo_codec demo_agent demo_msg
      (with_body (cred_request demo_request))
      (offer_handler demo_env demo_indy demo_codec demo_agent
        (with_body (cred_offer demo_offer))
        (with_body no_body)
        rep_world).1).0
    ≡ (offer_handler demo_env demo_indy demo_codec demo_agent
        (with_body (cred_offer demo_offer))
        (with_body (cred_request demo_request))
        rep_world).0
offer_same_request_example =
    offer_same_request demo_env demo_env-HasReps demo_indy demo_codec demo_agent
      (with_body (cred_offer demo_offer)) (with_body (cred_request demo_request))
      (with_body no_body) demo_msg demo_offer "data" (some "definition") demo_rep demo_request
      rep_world refl rep_found rep_keyed attached refl makes_request refl refl refl refl

issue_stores_requested_example :
    let accepted =
      (offer_handler demo_env demo_indy demo_codec demo_agent
        (with_body (cred_offer demo_offer))
        (with_body (cred_request demo_request))
        rep_world).1 in
    (issue_handler demo_env demo_indy demo_codec demo_agent
      (with_body (cred_issue demo_issue))
      (with_body (ack_body ""))
      accepted).0
    ≡ stored_answer demo_env demo_env-HasReps demo_indy demo_codec demo_agent
        (demo_indy.store_cred accepted "metadata" "data" "the definition")
        (with_body (ack_body ""))
issue_stores_requested_example =
    issue_stores_requested demo_env demo_env-HasReps demo_indy demo_codec demo_agent
      (with_body (cred_offer demo_offer)) (with_body (cred_request demo_request))
      (with_body (cred_issue demo_issue)) (with_body (ack_body "")) demo_offer "data"
      (some "definition") demo_rep demo_request demo_issue "data" "" rep_world refl rep_found
      rep_keyed attached refl makes_request refl refl refl attached refl

demo_coded : coded_values_from demo_codec [] demo_preview.attributes ≡ demo_values
unfolding coded_values_from put
demo_coded = refl

preview_values_kept_example :
    (q : PreviewCredential) × (new_preview_credential_raw demo_codec
        (preview_to_coded_values demo_codec demo_preview)
        empty_world
      ≡ ok q)
    × ((name : String) → value_of q.attributes name ≡ last_value none demo_preview.attributes name)
preview_values_kept_example =
    preview_values_kept demo_codec demo_preview demo_values empty_world refl
      (λ name. rw demo_coded refl)

abbrev demo_packet : Packet
demo_packet = record {
  payload = with_body (cred_propose demo_propose);
  conn_id = "conn";
  receiver = demo_agent;
}

propose_path_example :
    Ends (handle_credential_propose demo_env demo_indy demo_codec demo_packet) empty_world (λ _ w'.
      Trace thread_key (propose_subs true) issue_credential_propose w'
      × Last thread_key issue_credential_request w'
      × (sent_types w'.posted ≡ (issue_credential_offer, true) ∷ []))
unfolding get findy_agent.Didcomm.thread_id
propose_path_example =
    propose_path demo_env demo_env-IsHealthy demo_env-HasReps demo_indy demo_codec demo_packet
      demo_propose (λ w. "offer") demo_values empty_world issue_credential_propose-IsTyped refl
      (λ w. refl) refl refl

abbrev demo_message : BasicMessage
demo_message = record { content = "hello"; sent_time = 5 }

message_status_example :
    let after =
      message_handler demo_env demo_packet
        (with_body (basic_message demo_message))
        demo_msg
        empty_world in
    (after.0 ≡ ok (true, demo_msg))
    × ((fill_basic_message_status demo_env "me" "thread" after.1).0
        ≡ ok (
            some (record {
              content = "hello";
              sent_by_me = false;
              delivered = true;
              sent_timestamp = 5;
            })))
message_status_example =
    message_status demo_env demo_env-HasReps demo_packet (with_body (basic_message demo_message))
      demo_msg demo_message demo_pairwise empty_world refl refl
