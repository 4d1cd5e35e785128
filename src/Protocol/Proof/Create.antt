-- ===== src/Protocol/Proof/Create.antt =====
-- protocol/presentproof/data/present_proof_rep.go: a proof made by the prover, and verified by the
-- verifier.
use findy_agent.Common.{String, ℕ, Bool, Option, none, some, List, [], ◌∷◌}
use findy_agent.Common.Table.{Table, put, string_eq}
use findy_agent.Common.Exec.{Outcome, panicked, pure, lift, ◌>>=◌}
use findy_agent.Psm.Rep.{PresentProofRep}
use findy_agent.Prot.World.{World, Proc, ask}
use findy_agent.Protocol.{Agent}
use findy_agent.Protocol.Proof.{CredInfo, Proofs, ProofCodec}
use findy_agent.Protocol.Proof.Fetch.{process_attributes}

-- A `map[string]struct{}`.
abbrev pub Ids : Type 0
Ids = Table String (Unit {0})

-- The loop of CreateProof over the credentials that were found.
unfoldable pub found_schemas : Ids → List CredInfo → Ids
found_schemas ids [] = ids
found_schemas ids (v ∷ infos) = found_schemas (put ids v.schema_id tt) infos

unfoldable pub found_cred_defs : Ids → List CredInfo → Ids
found_cred_defs ids [] = ids
found_cred_defs ids (v ∷ infos) = found_cred_defs (put ids v.cred_def_id tt) infos

-- getSchemaIDs
unfoldable pub get_schema_ids : Ids → List (String × String) → Ids
get_schema_ids ids [] = ids
get_schema_ids ids (v ∷ identifiers) = get_schema_ids (put ids v.0 tt) identifiers

-- getCredDefIDs
unfoldable pub get_cred_def_ids : Ids → List (String × String) → Ids
get_cred_def_ids ids [] = ids
get_cred_def_ids ids (v ∷ identifiers) = get_cred_def_ids (put ids v.1 tt) identifiers

-- The loop of schemas and of credDefs: each object is read from the ledger.
unfoldable pub collect :
    (String → Outcome String)
    → (World → String → Outcome String)
    → Ids
    → Table String String
    → Proc (Table String String)
collect read_object from_ledger [] objects = pure objects
collect read_object from_ledger ((id, _) ∷ ids) objects = do
  text ← ask (λ w. from_ledger w id)
  object ← lift (read_object text)
  collect read_object from_ledger ids (put objects id object)

-- A run that has used up its fuel.
abbrev pub finished : {A : Type 0} → Option (Outcome A) → Outcome A
finished none = panicked
finished (some r) = r

module _ {Search : Type 0} (lib : Proofs Search) (codec : ProofCodec) where
  unfoldable pub schemas : String → Ids → Proc String
  unfolding collect
  schemas did ids = do
    objects ← collect codec.read_object (λ w id. lib.schema w did id) ids []
    pure (codec.objects_json objects)

  unfoldable pub cred_defs : String → Ids → Proc String
  unfolding collect
  cred_defs did ids = do
    objects ← collect codec.read_object (λ w id. lib.cred_def w did id) ids []
    pure (codec.objects_json objects)

  -- CreateProof, with fuel for the search
  unfoldable pub create_proof : ℕ → Agent → PresentProofRep → String → Proc PresentProofRep
  create_proof fuel receiver rep root_did = do
    proof_req ← lift (codec.read_request rep.proof_req)
    search ← ask (λ w. lib.search w rep.proof_req)
    found ← lift (finished (process_attributes lib fuel proof_req search))
    schemas_json ← schemas root_did (found_schemas [] found.1)
    cred_defs_json ← cred_defs root_did (found_cred_defs [] found.1)
    master_sec ← ask receiver.master_secret
    proof ← ask (λ w.
        lib.create_proof w rep.proof_req (codec.credentials_json found.0) master_sec schemas_json
          cred_defs_json)
    pure (record rep { proof = proof })

  -- VerifyProof
  unfoldable pub verify_proof : Agent → PresentProofRep → Proc Bool
  verify_proof receiver rep = do
    proof ← lift (codec.read_proof rep.proof)
    schemas_json ← schemas receiver.root_did (get_schema_ids [] proof.identifiers)
    cred_defs_json ← cred_defs receiver.root_did (get_cred_def_ids [] proof.identifiers)
    ask (λ w. lib.verify_proof w rep.proof_req rep.proof schemas_json cred_defs_json)
