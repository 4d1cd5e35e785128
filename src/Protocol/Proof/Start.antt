-- ===== src/Protocol/Proof/Start.antt =====
-- protocol/presentproof/processor.go: how a proof protocol is started.
use findy_agent.Common.{true, false, some, List, [], map, if◌then◌else◌, ◌==◌}
use findy_agent.Common.Exec.{pure, lift, gets, ◌>>=◌, ◌>>◌}
use findy_agent.Pltype.{
  present_proof_propose, present_proof_request, present_proof_presentation, ca_proof_propose,
  ca_proof_request, presentation_preview_obj, terminate,
}
use findy_agent.Didcomm.{Msg}
use findy_agent.Psm.{StateKey}
use findy_agent.Psm.Rep.{proof_rep}
use findy_agent.Prot.World.{Env, Proc, add_rep}
use findy_agent.Prot.Processor.{start_psm, exec_psm}
use findy_agent.Std.{
  ProofAttribute, PresentAttribute, proof_propose, as_proof_propose, as_proof_request, Preview,
}
use findy_agent.Protocol.{Agent, caught, w_did, Packet, must, transition}
use findy_agent.Protocol.Proof.{Proofs, ProofCodec}
use findy_agent.Protocol.Proof.Request.{ProofTask, request_of_task}
use findy_agent.Protocol.Proof.Verifier.{with_request}

abbrev proposed_attribute : ProofAttribute → PresentAttribute
proposed_attribute attr = record { name = attr.name; cred_def_id = attr.cred_def_id }

-- NewPreviewWithAttributes
abbrev new_preview_with_attributes : List PresentAttribute → Preview
new_preview_with_attributes attrs = record {
  type = presentation_preview_obj;
  attributes = attrs;
  predicates = [];
}

module _ {Search : Type 0} (env : Env) (lib : Proofs Search) (codec : ProofCodec) where
  -- The Setup of a prover that starts with a proposal.
  unfoldable pub proof_propose_setup : ProofTask → StateKey → Msg → Proc Msg
  proof_propose_setup proof_task key msg = do
    propose ← lift (must (as_proof_propose msg.body))
    add_rep env (
        proof_rep
          (record { key = key; proof_req = ""; proof = ""; we_proposed = true; attributes = [] }))
    pure (record msg {
      body = proof_propose (record propose {
        presentation_proposal =
            some (new_preview_with_attributes (map proposed_attribute proof_task.proof_attrs));
        comment = proof_task.comment;
      });
    })

  -- The Setup of a verifier that starts with a request.
  unfoldable pub proof_request_setup : ProofTask → StateKey → Msg → Proc Msg
  proof_request_setup proof_task key msg = do
    nonce ← gets lib.nonce
    let proof_req_str = codec.request_json (request_of_task nonce proof_task)
    req ← lift (must (as_proof_request msg.body))
    add_rep env (
        proof_rep (record {
          key = key;
          proof_req = proof_req_str;
          proof = "";
          we_proposed = false;
          attributes = [];
        }))
    pure (with_request codec proof_req_str req msg)

  -- The cases of startProofProtocol; a task of another type does nothing.
  unfoldable pub start_proving : Agent → ProofTask → Proc (Unit {0})
  start_proving ca proof_task =
      if proof_task.task.type == ca_proof_propose
      then start_psm env (record {
        send_next = present_proof_propose;
        waiting_next = present_proof_request;
        worker_did = w_did ca;
        task = proof_task.task;
        setup = proof_propose_setup proof_task;
      })
      else if proof_task.task.type == ca_proof_request
      then start_psm env (record {
        send_next = present_proof_request;
        waiting_next = present_proof_presentation;
        worker_did = w_did ca;
        task = proof_task.task;
        setup = proof_request_setup proof_task;
      })
      else pure tt

  unfoldable pub start_proof_protocol : Agent → ProofTask → Proc (Unit {0})
  start_proof_protocol ca proof_task = caught env (start_proving ca proof_task)

module _ (env : Env) where
  unfoldable pub handle_proof_ack : Packet → Proc (Unit {0})
  handle_proof_ack packet =
      exec_psm env (transition packet terminate terminate "" "" (λ im om. pure (true, om)))

  unfoldable pub handle_proof_nack : Packet → Proc (Unit {0})
  handle_proof_nack packet =
      exec_psm env (transition packet terminate terminate "" "" (λ im om. pure (false, om)))
