-- ===== src/Protocol/Proof/Verifier.antt =====
-- protocol/presentproof/verifier/handlers.go: the verifier's side.
use findy_agent.Common.{
  String, Bool, true, false, Option, none, some, List, [], ◌∷◌, map, if◌then◌else◌,
}
use findy_agent.Common.Table.{Table, get, string_eq}
use findy_agent.Common.Exec.{pure, lift, gets, ◌>>=◌, ◌>>◌}
use findy_agent.Pltype.{
  nothing, terminate, present_proof_request, present_proof_presentation, present_proof_user_action,
  present_proof_nack, present_proof_ack, sa_present_proof_accept_propose,
  sa_present_proof_accept_values, libindy_request_presentation_id,
}
use findy_agent.Didcomm.{Msg}
use findy_agent.Psm.Rep.{PresentProofRep, proof_rep}
use findy_agent.Prot.World.{Env, Proc, add_rep}
use findy_agent.Prot.Processor.{Handler, exec_psm, continue_psm}
use findy_agent.Std.{
  ProofAttribute, PresentAttribute, ProofRequestMsg, proof_request, ack_body, as_proof_propose,
  as_proof_request, as_presentation, as_ack, first_attachment, new_request_presentation,
}
use findy_agent.Protocol.{Agent, caught, w_did, Packet, must, new_state_key, transition}
use findy_agent.Protocol.Proof.{Proofs, ProofCodec, get_present_proof_rep, the_proof_rep}
use findy_agent.Protocol.Proof.Request.{request_of_proposal, store_proof_data}
use findy_agent.Protocol.Proof.Create.{verify_proof}

-- The proof request, in the outgoing message.
unfoldable pub with_request : ProofCodec → String → ProofRequestMsg → Msg → Msg
with_request codec proof_req req om = record om {
  body = proof_request (record req {
    request_presentations =
        new_request_presentation codec.b64 libindy_request_presentation_id proof_req;
  });
}

-- Only an outgoing request is filled: `req, autoAccept := ...`.
unfoldable pub request_if_auto : ProofCodec → String → Option ProofRequestMsg → Msg → Msg
unfolding with_request
request_if_auto codec proof_req none om = om
request_if_auto codec proof_req (some req) om = with_request codec proof_req req om

-- Only an outgoing ACK is filled: `ackMsg, autoAccept := ...`.
unfoldable pub ack_if_auto : Option String → Msg → Msg
ack_if_auto none om = om
ack_if_auto (some status) om = record om { body = ack_body "OK" }

-- An attribute of a proposal as the representative keeps it.
abbrev kept_attribute : PresentAttribute → ProofAttribute
kept_attribute attr = record {
  id = "";
  name = attr.name;
  cred_def_id = attr.cred_def_id;
  value = "";
}

-- `proof.RequestedProof.RevealedAttrs[attr.ID].Raw`: a missing key gives the empty text.
abbrev pub raw_or_empty : Option String → String
raw_or_empty none = ""
raw_or_empty (some raw) = raw

-- The loop of HandlePresentation that sets the values.
unfoldable pub with_values : Table String String → List ProofAttribute → List ProofAttribute
with_values revealed [] = []
with_values revealed (attr ∷ attrs) =
    record attr { value = raw_or_empty (get revealed attr.id) } ∷ with_values revealed attrs

module _ {Search : Type 0} (env : Env) (lib : Proofs Search) (codec : ProofCodec) where
  -- The InOut of HandleProposePresentation.
  unfoldable pub propose_presentation_handler : Agent → Handler
  propose_presentation_handler agent im om = do
    propose ← lift (must (as_proof_propose im.body))
    proposal ← lift (must propose.presentation_proposal)
    nonce ← gets lib.nonce
    let req_str = codec.request_json (request_of_proposal nonce proposal)
    add_rep env (
        proof_rep (record {
          key = record { did = agent.my_did; nonce = im.thread.id };
          proof_req = req_str;
          proof = "";
          we_proposed = false;
          attributes = map kept_attribute proposal.attributes;
        }))
    pure (true, request_if_auto codec req_str (as_proof_request om.body) om)

  unfoldable pub handle_propose_presentation : Packet → Proc (Unit {0})
  handle_propose_presentation packet =
      let auto = packet.receiver.auto_permission in
      exec_psm env (
        transition packet (if auto then present_proof_request else nothing)
          (if auto then present_proof_presentation else present_proof_user_action)
          present_proof_nack sa_present_proof_accept_propose
          (propose_presentation_handler packet.receiver))

  -- The Transfer of ContinueProposePresentation, when the user has accepted.
  unfoldable pub proposal_accepted : Agent → Msg → Msg → Proc (Bool × Msg)
  proposal_accepted ca im om = do
    rep ← the_proof_rep env (new_state_key ca im.thread.id)
    req ← lift (must (as_proof_request om.body))
    pure (true, with_request codec rep.proof_req req om)

  unfoldable pub propose_presentation_transfer : Agent → Handler
  propose_presentation_transfer ca im om =
      if im.ready then proposal_accepted ca im om else pure (false, om)

  unfoldable pub continue_propose_presentation : Agent → Msg → Proc (Unit {0})
  continue_propose_presentation ca im = caught env (
      continue_psm env (record {
        worker_did = w_did ca;
        in_msg = im;
        send_next = present_proof_request;
        waiting_next = present_proof_presentation;
        send_on_nack = present_proof_nack;
        transfer = propose_presentation_transfer ca;
      }))

  -- The InOut of HandlePresentation once the proof is verified.
  unfoldable pub presentation_verified : PresentProofRep → String → Msg → Proc (Bool × Msg)
  presentation_verified rep text om = do
    proof_req ← lift (codec.read_request rep.proof_req)
    proof ← lift (codec.read_proof text)
    let stored = store_proof_data proof_req rep
    add_rep env
        (proof_rep (record stored { attributes = with_values proof.revealed stored.attributes }))
    pure (true, ack_if_auto (as_ack om.body) om)

  -- The InOut of HandlePresentation.
  unfoldable pub presentation_handler : Agent → Handler
  presentation_handler agent im om = do
    found ← get_present_proof_rep env (new_state_key agent im.thread.id)
    pres ← lift (must (as_presentation im.body))
    text ← lift (first_attachment codec.b64 pres.presentation_attaches)
    rep ← lift (must found)
    verified ← verify_proof lib codec agent (record rep { proof = text })
    (if verified
        then presentation_verified (record rep { proof = text }) text om
        else pure (false, om))

  unfoldable pub handle_presentation : Packet → Proc (Unit {0})
  handle_presentation packet =
      let auto = packet.receiver.auto_permission in
      exec_psm env (
        transition packet (if auto then present_proof_ack else nothing)
          (if auto then terminate else present_proof_user_action) present_proof_nack
          sa_present_proof_accept_values (presentation_handler packet.receiver))

  -- The Transfer of ContinueHandlePresentation, when the user has accepted.
  unfoldable pub values_accepted : Msg → Proc (Bool × Msg)
  values_accepted om = do
    status ← lift (must (as_ack om.body))
    pure (true, record om { body = ack_body "OK" })

  unfoldable pub values_transfer : Handler
  values_transfer im om = if im.ready then values_accepted om else pure (false, om)

  unfoldable pub continue_handle_presentation : Agent → Msg → Proc (Unit {0})
  continue_handle_presentation ca im = caught env (
      continue_psm env (record {
        worker_did = w_did ca;
        in_msg = im;
        send_next = present_proof_ack;
        waiting_next = terminate;
        send_on_nack = present_proof_nack;
        transfer = values_transfer;
      }))
