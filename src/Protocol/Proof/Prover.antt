-- ===== src/Protocol/Proof/Prover.antt =====
-- protocol/presentproof/prover/handlers.go: the prover's side.
use findy_agent.Common.{String, ℕ, Bool, true, false, Option, none, some, [], if◌then◌else◌}
use findy_agent.Common.Exec.{pure, lift, ◌>>=◌, ◌>>◌}
use findy_agent.Pltype.{
  nothing, present_proof_presentation, present_proof_ack, present_proof_user_action,
  present_proof_nack, ca_notify_user_action, libindy_presentation_id,
}
use findy_agent.Didcomm.{Msg, thread_id}
use findy_agent.Psm.{StateKey}
use findy_agent.Psm.Rep.{PresentProofRep, proof_rep}
use findy_agent.Prot.World.{Env, Proc, add_rep}
use findy_agent.Prot.Processor.{Handler, exec_psm, continue_psm}
use findy_agent.Std.{
  Presentation, presentation, as_presentation, as_proof_request, first_attachment,
  new_presentation_attach,
}
use findy_agent.Protocol.{Agent, caught, w_did, Packet, must, new_state_key, transition, ignoring}
use findy_agent.Protocol.Proof.{Proofs, ProofCodec, get_present_proof_rep, the_proof_rep}
use findy_agent.Protocol.Proof.Request.{store_proof_data}
use findy_agent.Protocol.Proof.Create.{create_proof}

-- A new representative of a thread that the other end has started.
abbrev pub new_proof_rep : StateKey → PresentProofRep
new_proof_rep key = record {
  key = key;
  proof_req = "";
  proof = "";
  we_proposed = false;
  attributes = [];
}

-- checkAutoPermission
unfoldable pub prover_permission : Agent → String × String
prover_permission agent =
    if agent.auto_permission
    then (present_proof_presentation, present_proof_ack)
    else (nothing, present_proof_user_action)

-- The proof of the representative, in the outgoing message.
unfoldable pub with_proof : ProofCodec → PresentProofRep → Presentation → Msg → Msg
with_proof codec rep pres om = record om {
  body = presentation (record pres {
    presentation_attaches = new_presentation_attach codec.b64 libindy_presentation_id rep.proof;
  });
}

module _ {Search : Type 0} (env : Env) (lib : Proofs Search) (codec : ProofCodec) (fuel : ℕ) where
  -- `if rep == nil { try.To(psm.AddRep(rep)) }`
  unfoldable pub add_proof_rep_if_missing : StateKey → Option PresentProofRep → Proc (Unit {0})
  add_proof_rep_if_missing key none = add_rep env (proof_rep (new_proof_rep key))
  add_proof_rep_if_missing key (some rep) = pure tt

  -- Only an outgoing presentation is filled: `pres, autoAccept := ...`.
  unfoldable pub prove_if_presentation :
      Agent → StateKey → PresentProofRep → Option Presentation → Msg → Proc (PresentProofRep × Msg)
  prove_if_presentation agent key rep none om = pure (rep, om)
  prove_if_presentation agent key rep (some pres) om = do
    proved ← create_proof lib codec fuel agent rep key.did
    pure (proved, with_proof codec proved pres om)

  -- The InOut of HandleRequestPresentation.
  unfoldable pub proof_request_handler : Agent → Handler
  proof_request_handler agent im om = do
    found ← get_present_proof_rep env (new_state_key agent im.thread.id)
    req ← lift (must (as_proof_request im.body))
    text ← lift (first_attachment codec.b64 req.request_presentations)
    rep ← lift (must found)
    proof_req ← lift (codec.read_request text)
    filled ←
        prove_if_presentation agent (new_state_key agent im.thread.id)
          (store_proof_data proof_req (record rep { proof_req = text })) (as_presentation om.body)
          om
    add_rep env (proof_rep filled.0)
    pure (true, filled.1)

  unfoldable pub handle_request_presentation : Packet → Proc (Unit {0})
  handle_request_presentation packet =
      let agent = packet.receiver in
      let key = new_state_key agent (thread_id packet.payload) in
      let next = prover_permission agent in
      ignoring (get_present_proof_rep env key) >>= λ rep.
      add_proof_rep_if_missing key rep
      >> exec_psm env
          (transition packet next.0 next.1 "" ca_notify_user_action (proof_request_handler agent))

  -- The Transfer of UserActionProofPresentation, when the user has accepted.
  unfoldable pub proof_accepted : Agent → Msg → Msg → Proc (Bool × Msg)
  proof_accepted wa im om = do
    rep ← the_proof_rep env (new_state_key wa im.thread.id)
    proved ← create_proof lib codec fuel wa rep (new_state_key wa im.thread.id).did
    add_rep env (proof_rep proved)
    pres ← lift (must (as_presentation om.body))
    pure (true, with_proof codec proved pres om)

  -- The Transfer of UserActionProofPresentation.
  unfoldable pub proof_transfer : Agent → Handler
  proof_transfer wa im om = if im.ready then proof_accepted wa im om else pure (false, om)

  unfoldable pub user_action_proof_presentation : Agent → Msg → Proc (Unit {0})
  user_action_proof_presentation ca im = caught env (
      continue_psm env (record {
        worker_did = w_did ca;
        in_msg = im;
        send_next = present_proof_presentation;
        waiting_next = present_proof_ack;
        send_on_nack = present_proof_nack;
        transfer = proof_transfer ca;
      }))
