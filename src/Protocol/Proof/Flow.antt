-- ===== src/Protocol/Proof/Flow.antt =====
-- The verifier's machine when a presentation arrives, and nothing outside fails (verifier/handlers.go).
use mathlib.Core.List.{append-nil}
use findy_agent.Common.{
  String, Bool, true, false, ◌≡◌, refl, sym, ap, ◌∙◌, some, List, [], ◌∷◌, ◌++◌, last?,
  if◌then◌else◌,
}
use findy_agent.Common.Table.{get, string_eq}
use findy_agent.Common.Exec.{ok}
use findy_agent.Pltype.{
  nothing, terminate, present_proof_ack, present_proof_nack, present_proof_user_action,
  sa_present_proof_accept_values,
}
use findy_agent.Didcomm.{Msg, thread_id, new_msg}
use findy_agent.Psm.{StateKey, key_eq}
use findy_agent.Psm.Sub.{
  SubState, accepts, received, decrypted, sending, waiting, ready_ack, ready_nack,
}
use findy_agent.Psm.Rep.{place_eq, rep_place, PresentProofRep, proof_rep, present_proof_bucket}
use findy_agent.Prot.World.{World, Env, get_rep}
use findy_agent.Prot.Processor.{Transition, judge, exec_verdict, exec_psm, exec_task}
use findy_agent.Prot.Ends.{Ends, Ends-weaken}
use findy_agent.Prot.Path.{
  IsTyped, IsHealthy, Trace, Last, sent_types, exec_in, exec_out, exec_after,
}
use findy_agent.Prot.Path.Exec.{HasTypes, Settled}
use findy_agent.Prot.Path.Run.{verdict_of, exec_log, exec_again}
use findy_agent.Std.{Body, Presentation, as_presentation, as_ack, first_attachment}
use findy_agent.Protocol.{Agent, Packet, transition, new_state_key}
use findy_agent.Protocol.Typed.{
  none-IsTyped, present_proof_ack-IsTyped, present_proof_nack-IsTyped,
  present_proof_user_action-IsTyped,
}
use findy_agent.Protocol.Proof.{
  Proofs, ProofCodec, ProofRequest, ProofDoc, get_present_proof_rep, proof_rep_of,
}
use findy_agent.Protocol.Proof.Create.{verify_proof}
use findy_agent.Protocol.Proof.Verifier.{presentation_handler, handle_presentation, ack_if_auto}
use findy_agent.Protocol.Proof.Verdicts.{handler_lem, verified_lem}
use findy_agent.Protocol.Issue.Same.{HasReps}

-- The sub states that a presentation adds: the verdict, and whether the verifier accepts by itself.
abbrev pub presented : List SubState → Bool → Bool → List SubState
presented before auto false =
    (((before ++ received ∷ []) ++ decrypted ∷ []) ++ sending ∷ []) ++ ready_nack ∷ []
presented before true true =
    (((before ++ received ∷ []) ++ decrypted ∷ []) ++ sending ∷ []) ++ ready_ack ∷ []
presented before false true = ((before ++ received ∷ []) ++ decrypted ∷ []) ++ waiting ∷ []

-- The type of the last payload: the message that was sent, or what the machine waits for.
abbrev pub presented_type : Bool → Bool → String
presented_type auto false = present_proof_nack
presented_type true true = present_proof_ack
presented_type false true = present_proof_user_action

-- The types of the messages that are sent, each of them delivered.
abbrev pub presented_sent : Bool → Bool → List (String × Bool)
presented_sent auto false = (present_proof_nack, true) ∷ []
presented_sent true true = (present_proof_ack, true) ∷ []
presented_sent false true = []

-- What the handler needs of the message and of the thread's representative: a readable proof and a readable
-- request, and the library's verdict in every state.
pub record HasVerdict {Search : Type 0} (lib : Proofs Search) (codec : ProofCodec) (agent : Agent)
    (body : Body) (rep : PresentProofRep) (b : Bool) : Type 0 where
  pub pres : Presentation
  pub has_pres : as_presentation body ≡ some pres
  pub text : String
  pub has_text : first_attachment codec.b64 pres.presentation_attaches ≡ ok text
  pub request : ProofRequest
  pub has_request : codec.read_request rep.proof_req ≡ ok request
  pub proof : ProofDoc
  pub has_proof : codec.read_proof text ≡ ok proof
  pub verdict :
      (w : World) → verify_proof lib codec agent (record rep { proof = text }) w ≡ (ok b, w)

module _ {Search : Type 0} (env : Env) (healthy : IsHealthy env) (reps : HasReps env)
    (lib : Proofs Search) (codec : ProofCodec) (packet : Packet) where
  abbrev key : StateKey
  key = record { did = packet.receiver.my_did; nonce = thread_id packet.payload }

  found_rep :
      (at : StateKey) (rep : PresentProofRep) (w : World)
      → get w.reps (rep_place present_proof_bucket at) ≡ some (proof_rep rep)
      → get_present_proof_rep env at w ≡ (ok (some rep), w)
  unfolding get_present_proof_rep get_rep proof_rep_of
  found_rep at rep w e =
      rw (get_present_proof_rep, get_rep, reps.finds w present_proof_bucket at, e) refl

  presentation-Answers :
      (im om : Msg) (rep : PresentProofRep) (b : Bool)
      → HasVerdict lib codec packet.receiver im.body rep b
      → (w : World)
      → get_present_proof_rep env (new_state_key packet.receiver im.thread.id) w
        ≡ (ok (some rep), w)
      → Ends
          (presentation_handler env lib codec packet.receiver im om)
          w
          (λ (r : Bool × Msg) w'. (r.0 ≡ b) × (w'.psms ≡ w.psms) × (w'.posted ≡ w.posted))
  presentation-Answers im om rep false h w g = record {
    value = (false, om);
    returns =
        ap (λ r. r.0)
          (handler_lem env reps lib codec packet.receiver im om h.pres h.text rep false w h.has_pres
            g h.has_text (h.verdict w));
    post =
        rw
          (handler_lem env reps lib codec packet.receiver im om h.pres h.text rep false w h.has_pres
            g h.has_text (h.verdict w))
          (refl, refl, refl);
  }
  presentation-Answers im om rep true h w g =
      let runs =
        handler_lem env reps lib codec packet.receiver im om h.pres h.text rep true w h.has_pres g
          h.has_text (h.verdict w)
        ∙ verified_lem env reps lib codec packet.receiver om (record rep { proof = h.text }) h.text
            h.request h.proof w h.has_request h.has_proof in
      record {
        value = (true, ack_if_auto (as_ack om.body) om);
        returns = ap (λ r. r.0) runs;
        post = rw runs (refl, refl, refl);
      }

  abbrev presentation_ts : Bool → Transition
  presentation_ts auto =
      transition packet (if auto then present_proof_ack else nothing)
        (if auto then terminate else present_proof_user_action) present_proof_nack
        sa_present_proof_accept_values (presentation_handler env lib codec packet.receiver)

  presentation-HasTypes :
      (auto : Bool) → IsTyped packet.payload.type → HasTypes (presentation_ts auto)
  presentation-HasTypes true t = record {
    payload = t;
    send_next = present_proof_ack-IsTyped;
    waiting_next = none-IsTyped;
    send_on_nack = present_proof_nack-IsTyped;
  }
  presentation-HasTypes false t = record {
    payload = t;
    send_next = none-IsTyped;
    waiting_next = present_proof_user_action-IsTyped;
    send_on_nack = present_proof_nack-IsTyped;
  }

  module _ (before : List SubState) (from : SubState) (type : String) (rep : PresentProofRep)
      (w : World) where
    run_any :
        (auto b : Bool)
        → IsTyped packet.payload.type
        → IsTyped type
        → get w.reps (
            rep_place present_proof_bucket (new_state_key packet.receiver packet.payload.thread.id))
          ≡ some (proof_rep rep)
        → HasVerdict lib codec packet.receiver packet.payload.body rep b
        → Trace key before type w
        → last? before ≡ some from
        → accepts from received ≡ true
        → Ends (exec_psm env (presentation_ts auto)) w (λ _ w'.
          Trace key (exec_after before (presentation_ts auto) b) type w'
          × Settled key
              (verdict_of (presentation_ts auto) b)
              (presentation_ts auto).waiting_next
              (exec_log (presentation_ts auto) b (some (sent_types w.posted)))
              w')
    unfolding new_msg exec_task
    run_any auto b t ty g h tr l acc =
        let place =
          rep_place present_proof_bucket (new_state_key packet.receiver packet.payload.thread.id) in
        let im = exec_in env (presentation_ts auto) in
        let om = exec_out env (presentation_ts auto) in
        exec_again env healthy (presentation_ts auto) (presentation-HasTypes auto t) before type ty
          (some (sent_types w.posted)) (presentation_handler env lib codec packet.receiver) b from w
          refl
          (λ w' same log.
            Ends-weaken (presentation_handler env lib codec packet.receiver im om) w'
              (presentation-Answers im om rep b h w' (
                found_rep (new_state_key packet.receiver packet.payload.thread.id) rep w'
                  (ap (λ r. get r place) same ∙ g)))
              (λ _ w2 q. (q.0, q.1, ap sent_types q.2 ∙ log)))
          refl tr l acc

    abbrev Presented : Bool → Bool → World → Type 0
    Presented auto b w' =
        Trace (record { did = packet.receiver.my_did; nonce = thread_id packet.payload })
          (presented before auto b) type w'
        × Last (record { did = packet.receiver.my_did; nonce = thread_id packet.payload })
            (presented_type auto b) w'
        × (sent_types w'.posted ≡ sent_types w.posted ++ presented_sent auto b)

    run_as :
        (auto b : Bool)
        → IsTyped packet.payload.type
        → IsTyped type
        → get w.reps (
            rep_place present_proof_bucket (new_state_key packet.receiver packet.payload.thread.id))
          ≡ some (proof_rep rep)
        → HasVerdict lib codec packet.receiver packet.payload.body rep b
        → Trace key before type w
        → last? before ≡ some from
        → accepts from received ≡ true
        → Ends (exec_psm env (presentation_ts auto)) w (λ _ w'. Presented auto b w')
    unfolding judge exec_verdict
    run_as true true t ty g h tr l acc =
        Ends-weaken (exec_psm env (presentation_ts true)) w (run_any true true t ty g h tr l acc)
          (λ _ _ q. (q.0, q.1.0, q.1.1))
    run_as true false t ty g h tr l acc =
        Ends-weaken (exec_psm env (presentation_ts true)) w (run_any true false t ty g h tr l acc)
          (λ _ _ q. (q.0, q.1.0, q.1.1))
    run_as false true t ty g h tr l acc =
        Ends-weaken (exec_psm env (presentation_ts false)) w (run_any false true t ty g h tr l acc)
          (λ _ _ q. (q.0, q.1.0, q.1.1 ∙ sym (append-nil (sent_types w.posted))))
    run_as false false t ty g h tr l acc =
        Ends-weaken (exec_psm env (presentation_ts false)) w (run_any false false t ty g h tr l acc)
          (λ _ _ q. (q.0, q.1.0, q.1.1))

    -- A presentation in a thread whose machine accepts it and whose representative is stored, with the
    -- library's verdict, when nothing outside fails: the handler returns. If the proof is not verified, the
    -- machine has ended with a NACK, whether or not the verifier accepts by itself, and the one message that
    -- was sent is the present-proof NACK. If it is verified and the verifier accepts by itself, the machine
    -- has ended with an ACK, and the one message that was sent is the present-proof ACK. Otherwise the
    -- machine waits for its user's action, and nothing was sent.
    pub presentation_path :
        (b : Bool)
        → IsTyped packet.payload.type
        → IsTyped type
        → get w.reps (
            rep_place present_proof_bucket (new_state_key packet.receiver packet.payload.thread.id))
          ≡ some (proof_rep rep)
        → HasVerdict lib codec packet.receiver packet.payload.body rep b
        → Trace
            (record { did = packet.receiver.my_did; nonce = thread_id packet.payload })
            before
            type
            w
        → last? before ≡ some from
        → accepts from received ≡ true
        → Ends (handle_presentation env lib codec packet) w (λ _ w'.
          Trace
            (record { did = packet.receiver.my_did; nonce = thread_id packet.payload })
            (presented before packet.receiver.auto_permission b)
            type
            w'
          × Last
              (record { did = packet.receiver.my_did; nonce = thread_id packet.payload })
              (presented_type packet.receiver.auto_permission b)
              w'
          × (sent_types w'.posted
              ≡ sent_types w.posted ++ presented_sent packet.receiver.auto_permission b))
    unfolding handle_presentation
    presentation_path = run_as packet.receiver.auto_permission
