-- ===== src/Tests/Proving.antt =====
-- The theorems on the proof protocol, at a proof of one attribute, and a handler that fails.
use findy_agent.Common.{
  String, ℕ, zero, suc, ◌≤◌, true, false, ◌≡◌, refl, none, some, List, [], ◌∷◌, arith, length,
}
use findy_agent.Common.Table.{get, string_eq}
use findy_agent.Common.Exec.{external, ok, err}
use findy_agent.Pltype.{present_proof_presentation, present_proof_nack, trust_ping_ping}
use findy_agent.Didcomm.{Msg}
use findy_agent.Psm.{StateKey, key_eq, Psm, State}
use findy_agent.Psm.Sub.{waiting, received, decrypted, failure, accepts}
use findy_agent.Psm.Rep.{
  PresentProofRep, proof_rep, place_eq, rep_place, present_proof_bucket, bucket_id,
}
use findy_agent.Prot.World.{World, get_rep}
use findy_agent.Prot.Processor.{Handler, Transition, exec_psm, exec_task}
use findy_agent.Prot.Update.Step.{task_key}
use findy_agent.Prot.Ends.{Ends}
use findy_agent.Prot.Path.{Trace, Last, sent_types}
use findy_agent.Prot.Path.Exec.{HasTypes}
use findy_agent.Prot.Path.Fails.{Fails, exec_refused}
use findy_agent.Std.{as_ack, Presentation, presentation, Attachment, first_attachment}
use findy_agent.Protocol.{Packet, new_state_key}
use findy_agent.Protocol.Typed.{present_proof_presentation-IsTyped}
use findy_agent.Protocol.Proof.{
  CredInfo, Proofs, ProofCodec, ProofRequest, ProofDoc, get_present_proof_rep, proof_rep_of,
}
use findy_agent.Protocol.Proof.Fetch.{Gathered, Found, process_attributes}
use findy_agent.Protocol.Proof.Create.{
  verify_proof, schemas, cred_defs, collect, get_schema_ids, get_cred_def_ids,
}
use findy_agent.Protocol.Proof.Verifier.{ack_if_auto, presentation_handler, handle_presentation}
use findy_agent.Protocol.Proof.Loop.{
  take, drop, Pages, LoopEnd, fetch_loop_ends, process_attributes_ends,
}
use findy_agent.Protocol.Proof.Verdicts.{Kept, presentation_verdict}
use findy_agent.Protocol.Proof.Flow.{HasVerdict, presented, presentation_path}
use findy_agent.Tests.{demo_env, demo_msg, demo_task, demo_transition, empty_world}
use findy_agent.Tests.Path.{demo_env-IsHealthy, demo-HasTypes}
use findy_agent.Tests.Issuing.{demo_agent, demo_env-HasReps}

-- A search is what is left of every referent.
abbrev Search : Type 0
Search = List CredInfo

abbrev demo_lib : Proofs Search
demo_lib = record {
  search = λ w req. ok [];
  fetch = λ s ref n. (ok (take n s), drop n s);
  close_search = λ s. none;
  create_proof = λ w req creds secret schemas defs. ok "proof";
  verify_proof = λ w req proof schemas defs. ok false;
  schema = λ w did id. ok "schema";
  cred_def = λ w did id. ok "definition";
  nonce = λ w. 7;
}

drop_le : (n : ℕ) (s : List CredInfo) → length (drop n s) ≤ length s
drop_le zero s = omega arith
drop_le (suc n) [] = omega arith
drop_le (suc n) (x ∷ s) = omega (arith, drop_le n s)

abbrev demo_pages : Pages demo_lib
demo_pages = record {
  left = λ s ref. s;
  gives = λ s ref n. refl;
  goes = λ s ref n. refl;
  shrinks = λ s ref other n. drop_le n s;
}

abbrev info : String → CredInfo
info referent = record { referent = referent; schema_id = "schema"; cred_def_id = "definition" }

abbrev three_infos : Search
three_infos = info "a" ∷ info "b" ∷ info "c" ∷ []

abbrev nothing_gathered : Gathered
nothing_gathered = record { infos = []; chosen = none }

fetch_loop_ends_example :
    LoopEnd demo_lib demo_pages 2 "attr_referent_1" nothing_gathered three_infos
fetch_loop_ends_example =
    fetch_loop_ends demo_lib demo_pages 2 "attr_referent_1" nothing_gathered three_infos
      (omega arith)

abbrev demo_proof_request : ProofRequest
demo_proof_request = record {
  name = "ProofReq";
  version = "0.1";
  nonce = "7";
  requested_attributes =
      ("attr_referent_1", record { name = "age"; names = []; restrictions = [] }) ∷ [];
  requested_predicates = [];
}

process_attributes_ends_example :
    (found : Found) × (process_attributes demo_lib 2 demo_proof_request three_infos
      ≡ some (ok found))
process_attributes_ends_example =
    process_attributes_ends demo_lib demo_pages 2 demo_proof_request three_infos
      (λ ref. omega arith) (λ s. refl)

abbrev demo_proof : ProofDoc
demo_proof = record { identifiers = []; revealed = ("attr_referent_1", "7") ∷ [] }

abbrev demo_codec : ProofCodec
demo_codec = record {
  b64 = record { encode = λ s. s; decode = λ s. ok s };
  request_json = λ r. "request";
  read_request = λ s. ok demo_proof_request;
  credentials_json = λ c. "credentials";
  read_proof = λ s. ok demo_proof;
  read_object = λ s. ok s;
  objects_json = λ objects. "objects";
}

abbrev thread_key : StateKey
thread_key = record { did = "me"; nonce = "thread" }

abbrev demo_rep : PresentProofRep
demo_rep = record {
  key = thread_key;
  proof_req = "request";
  proof = "";
  we_proposed = false;
  attributes = [];
}

abbrev presented_attachment : List Attachment
presented_attachment = record { id = "0"; mime_type = "application/json"; base64 = "proof" } ∷ []

abbrev demo_presentation : Presentation
demo_presentation = record { comment = ""; presentation_attaches = presented_attachment }

abbrev presentation_msg : Msg
presentation_msg = record demo_msg {
  type = present_proof_presentation;
  body = presentation demo_presentation;
}

abbrev sent_state : State
sent_state = record {
  timestamp = 1;
  task = some demo_task;
  pl_type = present_proof_presentation;
  sub = waiting;
}

abbrev waiting_machine : Psm
waiting_machine = record {
  key = thread_key;
  started_by_us = true;
  role = findy_agent.Pltype.initiator;
  conn_id = "conn";
  states = sent_state ∷ [];
}

abbrev verifier_world : World
verifier_world = record {
  psms = (thread_key, waiting_machine) ∷ [];
  reps = (rep_place present_proof_bucket thread_key, proof_rep demo_rep) ∷ [];
  clock = 2;
  posted = [];
  spawned = [];
}

rep_at :
    get verifier_world.reps
      (rep_place present_proof_bucket (new_state_key demo_agent presentation_msg.thread.id))
    ≡ some (proof_rep demo_rep)
unfolding get rep_place bucket_id new_state_key
rep_at = refl

rep_found :
    get_present_proof_rep demo_env (new_state_key demo_agent "thread") verifier_world
    ≡ (ok (some demo_rep), verifier_world)
unfolding get_present_proof_rep get_rep proof_rep_of new_state_key get rep_place bucket_id
rep_found = refl

proof_attached : first_attachment demo_codec.b64 presented_attachment ≡ ok "proof"
unfolding first_attachment
proof_attached = refl

refuted :
    (w : World)
    → verify_proof demo_lib demo_codec demo_agent (record demo_rep { proof = "proof" }) w
      ≡ (ok false, w)
unfolding verify_proof schemas cred_defs collect get_schema_ids get_cred_def_ids
refuted w = refl

-- The library that verifies.
abbrev sure_lib : Proofs Search
sure_lib = record demo_lib { verify_proof = λ w req proof schemas defs. ok true }

verified_proof :
    (w : World)
    → verify_proof sure_lib demo_codec demo_agent (record demo_rep { proof = "proof" }) w
      ≡ (ok true, w)
unfolding verify_proof schemas cred_defs collect get_schema_ids get_cred_def_ids
verified_proof w = refl

presentation_verdict_example :
    ((presentation_handler demo_env sure_lib demo_codec demo_agent presentation_msg demo_msg
        verifier_world).0
      ≡ ok (true, ack_if_auto (as_ack demo_msg.body) demo_msg))
    × Kept true "proof" demo_proof_request demo_proof.revealed demo_rep verifier_world
        (presentation_handler demo_env sure_lib demo_codec demo_agent presentation_msg demo_msg
          verifier_world).1
presentation_verdict_example =
    presentation_verdict demo_env demo_env-HasReps sure_lib demo_codec demo_agent presentation_msg
      demo_msg demo_presentation "proof" demo_rep demo_proof_request demo_proof true verifier_world
      refl rep_found proof_attached refl refl (verified_proof verifier_world)

demo-HasVerdict :
    HasVerdict demo_lib demo_codec demo_agent (presentation demo_presentation) demo_rep false
demo-HasVerdict = record {
  pres = demo_presentation;
  has_pres = refl;
  text = "proof";
  has_text = proof_attached;
  request = demo_proof_request;
  has_request = refl;
  proof = demo_proof;
  has_proof = refl;
  verdict = refuted;
}

abbrev demo_packet : Packet
demo_packet = record { payload = presentation_msg; conn_id = "conn"; receiver = demo_agent }

machine_at : get verifier_world.psms thread_key ≡ some waiting_machine
unfolding get
machine_at = refl

presentation_path_example :
    Ends (handle_presentation demo_env demo_lib demo_codec demo_packet) verifier_world (λ _ w'.
      Trace thread_key (presented (waiting ∷ []) true false) present_proof_presentation w'
      × Last thread_key present_proof_nack w'
      × (sent_types w'.posted ≡ (present_proof_nack, true) ∷ []))
unfolding findy_agent.Didcomm.thread_id accepts
presentation_path_example =
    presentation_path demo_env demo_env-IsHealthy demo_env-HasReps demo_lib demo_codec demo_packet
      (waiting ∷ []) waiting present_proof_presentation demo_rep verifier_world false
      present_proof_presentation-IsTyped present_proof_presentation-IsTyped rep_at demo-HasVerdict
      (record {
        machine = waiting_machine;
        at = machine_at;
        keyed = refl;
        first = sent_state;
        is_first = refl;
        typed = refl;
        through = refl;
      })
      refl refl

abbrev refusing : Handler
refusing im om w = (err (external "refused"), w)

abbrev refused_transition : Transition
refused_transition = record demo_transition { in_out = some refusing }

refused-HasTypes : HasTypes refused_transition
refused-HasTypes = record {
  payload = demo-HasTypes.payload;
  send_next = demo-HasTypes.send_next;
  waiting_next = demo-HasTypes.waiting_next;
  send_on_nack = demo-HasTypes.send_on_nack;
}

exec_refused_example :
    Fails (exec_psm demo_env refused_transition) (external "refused") empty_world (
      Trace
        (task_key "me" (exec_task demo_env refused_transition))
        (received ∷ decrypted ∷ failure ∷ [])
        trust_ping_ping)
unfolding get
exec_refused_example =
    exec_refused demo_env refused_transition refusing (external "refused") empty_world
      demo_env-IsHealthy refused-HasTypes refl (λ w same. record { returns = refl; post = refl })
      refl
