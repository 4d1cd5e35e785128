-- ===== src/Protocol/Proof/Request.antt =====
-- The proof request that a verifier makes of a task or of a proposal, and the attributes that both sides
-- keep of it (protocol/presentproof/processor.go, verifier/handlers.go and preview/store.go).
use findy_agent.Common.{String, ℕ, ◌+◌, List, [], ◌∷◌, ◌++◌, if◌then◌else◌, ◌==◌}
use findy_agent.Common.Numbers.{ℤ, itoa, parse_int}
use findy_agent.Common.Table.{Table, put, string_eq}
use findy_agent.Psm.{Task}
use findy_agent.Psm.Rep.{PresentProofRep}
use findy_agent.Std.{ProofAttribute, PresentAttribute, Predicate, Preview}
use findy_agent.Protocol.Proof.{AttrInfo, PredicateInfo, ProofRequest}
use Prim.Native.String.{◌++◌ as append}

-- didcomm.ProofPredicate
pub record ProofPredicate : Type 0 where
  pub id : String
  pub name : String
  pub p_type : String
  pub p_value : ℤ

-- taskPresentProof
pub record ProofTask : Type 0 where
  pub task : Task
  pub comment : String
  pub proof_attrs : List ProofAttribute
  pub proof_predicates : List ProofPredicate

-- `restrictions`: at most one filter.
abbrev pub restrictions_of : String → List String
restrictions_of cred_def_id = if cred_def_id == "" then [] else cred_def_id ∷ []

abbrev pub attr_info : String → String → AttrInfo
attr_info name cred_def_id = record {
  name = name;
  names = [];
  restrictions = restrictions_of cred_def_id;
}

abbrev pub attr_referent : ℕ → String
attr_referent index = append "attr_referent_" (itoa (index + 1))

abbrev pub predicate_referent : ℕ → String
predicate_referent index = append "predicate_" (itoa (index + 1))

-- The identifier of the attribute or the predicate, or the one made of its index.
abbrev own_or : String → String → String
own_or id made = if id == "" then made else id

-- The loops of generateProofRequest in processor.go, from an index on.
unfoldable pub task_attributes :
    ℕ → List ProofAttribute → Table String AttrInfo → Table String AttrInfo
task_attributes index [] req_attrs = req_attrs
task_attributes index (attr ∷ attrs) req_attrs =
    task_attributes (index + 1) attrs
      (put req_attrs (own_or attr.id (attr_referent index)) (attr_info attr.name attr.cred_def_id))

unfoldable pub task_predicates :
    ℕ → List ProofPredicate → Table String PredicateInfo → Table String PredicateInfo
task_predicates index [] req_predicates = req_predicates
task_predicates index (p ∷ predicates) req_predicates = task_predicates (index + 1) predicates (
    put req_predicates (own_or p.id (predicate_referent index))
      (record { name = p.name; p_type = p.p_type; p_value = p.p_value }))

-- generateProofRequest of processor.go, with a nonce
unfoldable pub request_of_task : ℕ → ProofTask → ProofRequest
unfolding task_attributes task_predicates
request_of_task nonce proof_task = record {
  name = "ProofReq";
  version = "0.1";
  nonce = itoa nonce;
  requested_attributes = task_attributes 0 proof_task.proof_attrs [];
  requested_predicates = task_predicates 0 proof_task.proof_predicates [];
}

-- The loops of generateProofRequest in verifier/handlers.go.
unfoldable pub proposed_attributes :
    ℕ → List PresentAttribute → Table String AttrInfo → Table String AttrInfo
proposed_attributes index [] req_attrs = req_attrs
proposed_attributes index (attr ∷ attrs) req_attrs =
    proposed_attributes (index + 1) attrs
      (put req_attrs (attr_referent index) (attr_info attr.name attr.cred_def_id))

unfoldable pub proposed_predicates :
    ℕ → List Predicate → Table String PredicateInfo → Table String PredicateInfo
proposed_predicates index [] req_predicates = req_predicates
proposed_predicates index (p ∷ predicates) req_predicates =
    proposed_predicates (index + 1) predicates (
      put req_predicates (predicate_referent index)
        (record { name = p.name; p_type = p.predicate; p_value = parse_int p.threshold }))

-- generateProofRequest of verifier/handlers.go, with a nonce
unfoldable pub request_of_proposal : ℕ → Preview → ProofRequest
unfolding proposed_attributes proposed_predicates
request_of_proposal nonce proposal = record {
  name = "ProofReq";
  version = "0.1";
  nonce = itoa nonce;
  requested_attributes = proposed_attributes 0 proposal.attributes [];
  requested_predicates = proposed_predicates 0 proposal.predicates [];
}

abbrev pub first_restriction : List String → String
first_restriction [] = ""
first_restriction (r ∷ rs) = r

-- The inner loop of StoreProofData: `fmt.Sprintf("%s_%d", id, index)`.
unfoldable pub names_of : String → String → ℕ → List String → List ProofAttribute
names_of id cred_def_id index [] = []
names_of id cred_def_id index (name ∷ names) =
    record {
      id = append id (append "_" (itoa index));
      name = name;
      cred_def_id = cred_def_id;
      value = "";
    }
    ∷ names_of id cred_def_id (index + 1) names

-- The attributes of one entry of the request.
unfoldable pub entry_attributes : String × AttrInfo → List ProofAttribute
unfolding names_of
entry_attributes (id, attr) =
    if attr.name == ""
    then names_of id (first_restriction attr.restrictions) 0 attr.names
    else record {
      id = id;
      name = attr.name;
      cred_def_id = first_restriction attr.restrictions;
      value = "";
    }
      ∷ []

-- The outer loop of StoreProofData.
unfoldable pub requested : Table String AttrInfo → List ProofAttribute
unfolding entry_attributes
requested [] = []
requested (entry ∷ entries) = entry_attributes entry ++ requested entries

-- StoreProofData, of a request that has been read
unfoldable pub store_proof_data : ProofRequest → PresentProofRep → PresentProofRep
unfolding requested
store_proof_data proof_req rep = record rep {
  attributes = requested proof_req.requested_attributes;
}
