-- ===== src/Protocol/Tasks.antt =====
-- The tasks that the protocols create from what the client of the gRPC interface asks for: the Creator of
-- each protocol (protocol/*/…processor.go). The messages of the interface are records of their fields.
use findy_agent.Common.{
  String, Bool, true, false, not, Option, none, some, List, [], map, if◌then◌else◌, ◌==◌,
}
use findy_agent.Common.Exec.{Outcome, ok, err, panicked}
use findy_agent.Pltype.{Role, unknown, initiator, addressee, resumer}
use findy_agent.Psm.{Task}
use findy_agent.Prot.World.{Fault, failing}
use findy_agent.Std.{CredAttribute, ProofAttribute}
use findy_agent.Protocol.Simple.{MessageTask}
use findy_agent.Protocol.Issue.{IssueTask}
use findy_agent.Protocol.Proof.Request.{ProofPredicate, ProofTask}

-- pb.Protocol_IssueCredentialMsg: an attribute is its name and its value.
pub record IssueArgs : Type 0 where
  pub cred_def_id : String
  pub attributes_json : String
  pub attributes : Option (List (String × String))

-- pb.Protocol_PresentProofMsg
pub record ProofArgs : Type 0 where
  pub attributes_json : String
  pub attributes : Option (List ProofAttribute)
  pub predicates_json : String
  pub predicates : Option (List ProofPredicate)

-- pb.Protocol: the role, and the message of each protocol if it is the one that is asked for.
pub record ProtocolArgs : Type 0 where
  pub role : Role
  pub issue_credential : Option IssueArgs
  pub present_proof : Option ProofArgs
  pub basic_message : Option String

-- What dto.FromJSONStr reads for the tasks.
pub record TaskCodec : Type 0 where
  pub read_cred_attrs : String → Outcome (List CredAttribute)
  pub read_proof_attrs : String → Outcome (List ProofAttribute)
  pub read_predicates : String → Outcome (List ProofPredicate)

abbrev then_with : {A B : Type 0} → Outcome A → (A → Outcome B) → Outcome B
then_with (ok a) f = f a
then_with (err e) f = err e
then_with panicked f = panicked

abbrev has_role : Role → Bool
has_role initiator = true
has_role addressee = true
has_role unknown = false
has_role resumer = false

-- assert.That
abbrev asserted : {A : Type 0} → Fault → Bool → Outcome A → Outcome A
asserted fault true r = r
asserted fault false r = failing fault

-- The value of a pointer, after the assertion that it is not nil.
abbrev asserted_some : {A B : Type 0} → Fault → Option A → (A → Outcome B) → Outcome B
asserted_some fault none f = failing fault
asserted_some fault (some a) f = f a

abbrev cred_attribute : String × String → CredAttribute
cred_attribute (name, value) = record { name = name; value = value; mime_type = "" }

abbrev sent_attribute : ProofAttribute → ProofAttribute
sent_attribute a = record a { value = "" }

module _ (fault : Fault) (codec : TaskCodec) where
  -- The attributes of a credential: from the JSON text if there is one.
  unfoldable pub issue_attributes : IssueArgs → Outcome (List CredAttribute)
  issue_attributes cred =
      if not (cred.attributes_json == "")
      then codec.read_cred_attrs cred.attributes_json
      else asserted_some fault cred.attributes (λ attrs. ok (map cred_attribute attrs))

  abbrev issue_task : Task → List CredAttribute → String → IssueTask
  issue_task header attrs cred_def_id = record {
    task = header;
    comment = "";
    credential_attrs = attrs;
    cred_def_id = cred_def_id;
  }

  -- createIssueCredentialTask; a received message comes with no protocol.
  unfoldable pub create_issue_credential_task : Task → Option ProtocolArgs → Outcome IssueTask
  unfolding issue_attributes
  create_issue_credential_task header none = ok (issue_task header [] "")
  create_issue_credential_task header (some protocol) =
      asserted_some fault protocol.issue_credential (λ cred.
        asserted fault (has_role protocol.role) (
          then_with (issue_attributes cred)
            (λ attrs. ok (issue_task header attrs cred.cred_def_id))))

  unfoldable pub proof_attributes : ProofArgs → Outcome (List ProofAttribute)
  proof_attributes proof =
      if not (proof.attributes_json == "")
      then codec.read_proof_attrs proof.attributes_json
      else asserted_some fault proof.attributes (λ attrs. ok (map sent_attribute attrs))

  -- The predicates are optional.
  unfoldable pub proof_predicates : ProofArgs → Outcome (List ProofPredicate)
  proof_predicates proof =
      if not (proof.predicates_json == "")
      then codec.read_predicates proof.predicates_json
      else ok (elim proof.predicates [ none ↦ [] | some predicates ↦ predicates ])

  abbrev proof_task : Task → List ProofAttribute → List ProofPredicate → ProofTask
  proof_task header attrs predicates = record {
    task = header;
    comment = "";
    proof_attrs = attrs;
    proof_predicates = predicates;
  }

  -- createPresentProofTask
  unfoldable pub create_present_proof_task : Task → Option ProtocolArgs → Outcome ProofTask
  unfolding proof_attributes proof_predicates
  create_present_proof_task header none = ok (proof_task header [] [])
  create_present_proof_task header (some protocol) =
      asserted_some fault protocol.present_proof (λ proof. asserted fault (has_role protocol.role) (
        then_with (proof_attributes proof) (λ attrs.
          then_with (proof_predicates proof)
            (λ predicates. ok (proof_task header attrs predicates)))))

  -- createBasicMessageTask
  unfoldable pub create_basic_message_task : Task → Option ProtocolArgs → Outcome MessageTask
  create_basic_message_task header none = ok (record { task = header; content = "" })
  create_basic_message_task header (some protocol) =
      asserted_some fault protocol.basic_message
        (λ content. ok (record { task = header; content = content }))

-- createTrustPingTask: the header alone
unfoldable pub create_trust_ping_task : Task → Option ProtocolArgs → Outcome Task
create_trust_ping_task header protocol = ok header
