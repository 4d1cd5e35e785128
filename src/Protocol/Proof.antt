-- ===== src/Protocol/Proof.antt =====
-- protocol/presentproof/data/present_proof_rep.go: the representative, and what the handlers of the
-- present proof protocol are given.
pub mod Request
pub mod Fetch
pub mod Create
pub mod Prover
pub mod Verifier
pub mod Start
pub mod Loop
pub mod Verdicts
pub mod Flow
use findy_agent.Common.{String, ℕ, Bool, Option, none, some, List}
use findy_agent.Common.Numbers.{ℤ}
use findy_agent.Common.Table.{Table, string_eq}
use findy_agent.Common.Exec.{Error, Outcome, ok, lift, ◌>>=◌}
use findy_agent.Psm.{StateKey}
use findy_agent.Psm.Rep.{
  Rep, PresentProofRep, issue_rep, proof_rep, message_rep, present_proof_bucket,
}
use findy_agent.Prot.World.{World, Env, Proc, get_rep, failing}
use findy_agent.Std.{Base64}
use findy_agent.Protocol.{must}

-- anoncreds.AttrInfo; a restriction is the credential definition of a filter.
pub record AttrInfo : Type 0 where
  pub name : String
  pub names : List String
  pub restrictions : List String

pub record PredicateInfo : Type 0 where
  pub name : String
  pub p_type : String
  pub p_value : ℤ

pub record ProofRequest : Type 0 where
  pub name : String
  pub version : String
  pub nonce : String
  pub requested_attributes : Table String AttrInfo
  pub requested_predicates : Table String PredicateInfo

-- anoncreds.Credentials: what is read of the information on a credential.
pub record CredInfo : Type 0 where
  pub referent : String
  pub schema_id : String
  pub cred_def_id : String

-- anoncreds.RequestedCredentials: the self-attested values, and the credentials chosen for attributes
-- (all revealed) and for predicates.
pub record RequestedCredentials : Type 0 where
  pub self_attested : Table String String
  pub attributes : Table String String
  pub predicates : Table String String

-- anoncreds.Proof: its identifiers, as pairs of a schema and a credential definition, and the raw values
-- of the revealed attributes.
pub record ProofDoc : Type 0 where
  pub identifiers : List (String × String)
  pub revealed : Table String String

-- The calls of findy-wrapper-go and of the ledger for proofs, over searches of type `Search`.
pub record Proofs (Search : Type 0) : Type 0 where
  pub search : World → String → Outcome Search
  -- ProverFetchCredentialsForProofReq of a referent and a count
  pub fetch : Search → String → ℕ → Outcome (List CredInfo) × Search
  pub close_search : Search → Option Error
  -- ProverCreateProof of the request, the credentials, the master secret, schemas and definitions
  pub create_proof : World → String → String → String → String → String → Outcome String
  -- VerifierVerifyProof of the request, the proof, schemas and definitions
  pub verify_proof : World → String → String → String → String → Outcome Bool
  -- Schema.FromLedger and LazySchema, and CredDefFromLedger, of a DID and an identifier
  pub schema : World → String → String → Outcome String
  pub cred_def : World → String → String → Outcome String
  -- NewNonce
  pub nonce : World → ℕ

-- The JSON texts of the protocol.
pub record ProofCodec : Type 0 where
  pub b64 : Base64
  pub request_json : ProofRequest → String
  pub read_request : String → Outcome ProofRequest
  pub credentials_json : RequestedCredentials → String
  pub read_proof : String → Outcome ProofDoc
  -- Objects by their identifiers, each read from its own text first.
  pub read_object : String → Outcome String
  pub objects_json : Table String String → String

module _ (env : Env) where
  -- The type assertion of GetPresentProofRep; nothing found is allowed.
  unfoldable pub proof_rep_of : Option Rep → Outcome (Option PresentProofRep)
  proof_rep_of none = ok none
  proof_rep_of (some (proof_rep r)) = ok (some r)
  proof_rep_of (some (issue_rep r)) = failing env.assertion
  proof_rep_of (some (message_rep r)) = failing env.assertion

  -- GetPresentProofRep
  unfoldable pub get_present_proof_rep : StateKey → Proc (Option PresentProofRep)
  get_present_proof_rep key = do res ← get_rep env present_proof_bucket key; lift (proof_rep_of res)

  -- A representative whose fields are read or set at once: a nil pointer panics.
  unfoldable pub the_proof_rep : StateKey → Proc PresentProofRep
  the_proof_rep key = do rep ← get_present_proof_rep key; lift (must rep)
