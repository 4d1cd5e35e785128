-- ===== src/Protocol/Proof/Verdicts.antt =====
-- The verifier's answer to a presentation (protocol/presentproof/verifier/handlers.go): what it
-- acknowledges and what it stores.
use findy_agent.Common.{
  ℕ, ◌+◌, String, Bool, true, false, ◌≡◌, refl, ap, ◌∙◌, inl, inr, some, List, [], ◌∷◌, ◌++◌, map,
  map-append, if◌then◌else◌, ◌==◌, Bool-cases, All,
}
use Prim.Native.String.{◌++◌ as append}
use findy_agent.Common.Numbers.{itoa}
use findy_agent.Common.Table.{Table, get, string_eq, get-put_self}
use findy_agent.Common.Exec.{ok}
use findy_agent.Didcomm.{Msg}
use findy_agent.Psm.Rep.{
  rep_type, rep_key, PresentProofRep, proof_rep, place_eq, rep_place, present_proof_bucket,
}
use findy_agent.Prot.World.{World, Env}
use findy_agent.Std.{ProofAttribute, Presentation, as_presentation, as_ack, first_attachment}
use findy_agent.Protocol.{Agent, new_state_key}
use findy_agent.Protocol.Proof.{
  AttrInfo, Proofs, ProofCodec, ProofRequest, ProofDoc, get_present_proof_rep,
}
use findy_agent.Protocol.Proof.Request.{
  store_proof_data, requested, entry_attributes, names_of, first_restriction,
}
use findy_agent.Protocol.Proof.Create.{verify_proof}
use findy_agent.Protocol.Proof.Verifier.{
  presentation_handler, presentation_verified, with_values, ack_if_auto, raw_or_empty,
}
use findy_agent.Protocol.Issue.Same.{HasReps, with_rep, add_rep_lem}

-- The attribute has the value that the proof reveals under its identifier, or none.
abbrev pub HasRevealed : Table String String → ProofAttribute → Type 0
HasRevealed revealed a = a.value ≡ raw_or_empty (get revealed a.id)

with_values-HasRevealed :
    (revealed : Table String String) (attrs : List ProofAttribute)
    → All (HasRevealed revealed) (with_values revealed attrs)
unfolding with_values
with_values-HasRevealed revealed [] = tt
with_values-HasRevealed revealed (a ∷ attrs) = (refl, with_values-HasRevealed revealed attrs)

-- What a representative keeps of an attribute of the request: its identifier, its name and its
-- credential definition.
abbrev pub identity_of : ProofAttribute → String × String × String
identity_of a = (a.id, a.name, a.cred_def_id)

-- What an entry of a request asks for: the one attribute that it names, under its referent, or each of its
-- names, under the referent and the name's number.
abbrev pub numbered : String → String → ℕ → List String → List (String × String × String)
numbered ref cred_def_id index [] = []
numbered ref cred_def_id index (name ∷ names) =
    (append ref (append "_" (itoa index)), name, cred_def_id)
    ∷ numbered ref cred_def_id (index + 1) names

abbrev pub asked_by : String × AttrInfo → List (String × String × String)
asked_by (ref, info) =
    if info.name == ""
    then numbered ref (first_restriction info.restrictions) 0 info.names
    else (ref, info.name, first_restriction info.restrictions) ∷ []

abbrev pub asked : Table String AttrInfo → List (String × String × String)
asked [] = []
asked (entry ∷ entries) = asked_by entry ++ asked entries

numbered_lem :
    (ref cred_def_id : String) (index : ℕ) (names : List String)
    → map identity_of (names_of ref cred_def_id index names) ≡ numbered ref cred_def_id index names
unfolding names_of
numbered_lem ref cred_def_id index [] = refl
numbered_lem ref cred_def_id index (name ∷ names) =
    ap (λ xs. (append ref (append "_" (itoa index)), name, cred_def_id) ∷ xs)
      (numbered_lem ref cred_def_id (index + 1) names)

asked_by_lem :
    (entry : String × AttrInfo) → map identity_of (entry_attributes entry) ≡ asked_by entry
unfolding entry_attributes
asked_by_lem (ref, info) = elim (Bool-cases (info.name == "")) [
  | inl none_named ↦
      rw (entry_attributes, none_named)
        (numbered_lem ref (first_restriction info.restrictions) 0 info.names)
  | inr named ↦ rw (entry_attributes, named) refl
]

asked_lem : (entries : Table String AttrInfo) → map identity_of (requested entries) ≡ asked entries
unfolding requested
asked_lem [] = refl
asked_lem (entry ∷ entries) =
    map-append identity_of (entry_attributes entry) (requested entries)
    ∙ ap (λ xs. xs ++ map identity_of (requested entries)) (asked_by_lem entry)
    ∙ ap (λ xs. asked_by entry ++ xs) (asked_lem entries)

with_values-identity :
    (revealed : Table String String) (attrs : List ProofAttribute)
    → map identity_of (with_values revealed attrs) ≡ map identity_of attrs
unfolding with_values
with_values-identity revealed [] = refl
with_values-identity revealed (a ∷ attrs) =
    ap (λ xs. identity_of a ∷ xs) (with_values-identity revealed attrs)

-- What the handler leaves: on a proof that is not verified the representatives as they were, else one
-- with the attributes that the request asks for, each with its revealed value.
abbrev pub Kept :
    Bool → String → ProofRequest → Table String String → PresentProofRep → World → World → Type 0
Kept false text proof_req revealed rep w w' = w'.reps ≡ w.reps
Kept true text proof_req revealed rep w w' =
    (new : PresentProofRep) × (get w'.reps (rep_place present_proof_bucket rep.key)
      ≡ some (proof_rep new))
    × (new.proof ≡ text)
    × (new.proof_req ≡ rep.proof_req)
    × (map identity_of new.attributes ≡ asked proof_req.requested_attributes)
    × All (HasRevealed revealed) new.attributes

module _ {Search : Type 0} (env : Env) (healthy : HasReps env) (lib : Proofs Search)
    (codec : ProofCodec) (agent : Agent) where
  abbrev pub received_rep : PresentProofRep → String → PresentProofRep
  received_rep rep text = record rep { proof = text }

  abbrev pub valued : ProofRequest → ProofDoc → PresentProofRep → PresentProofRep
  unfolding store_proof_data
  valued proof_req proof rep =
      let stored = store_proof_data proof_req rep in
      record stored { attributes = with_values proof.revealed stored.attributes }

  pub verified_lem :
      (om : Msg) (rep : PresentProofRep) (text : String) (proof_req : ProofRequest)
      (proof : ProofDoc) (w : World)
      → codec.read_request rep.proof_req ≡ ok proof_req
      → codec.read_proof text ≡ ok proof
      → presentation_verified env lib codec rep text om w ≡ (
        ok (true, ack_if_auto (as_ack om.body) om),
        with_rep (proof_rep (valued proof_req proof rep)) w,
      )
  unfolding presentation_verified store_proof_data valued
  verified_lem om rep text proof_req proof w q p =
      rw
        (
          presentation_verified,
          q,
          p,
          add_rep_lem env healthy (proof_rep (valued proof_req proof rep)) w,
        )
        refl

  pub handler_lem :
      (im om : Msg) (pres : Presentation) (text : String) (rep : PresentProofRep) (b : Bool)
      (w : World)
      → as_presentation im.body ≡ some pres
      → get_present_proof_rep env (new_state_key agent im.thread.id) w ≡ (ok (some rep), w)
      → first_attachment codec.b64 pres.presentation_attaches ≡ ok text
      → verify_proof lib codec agent (received_rep rep text) w ≡ (ok b, w)
      → presentation_handler env lib codec agent im om w
        ≡ (if b
              then presentation_verified env lib codec (received_rep rep text) text om
              else (λ w'. (ok (false, om), w')))
            w
  unfolding presentation_handler
  handler_lem im om pres text rep b w i g f v = rw (presentation_handler, i, g, f, v) refl

  -- A presentation with a readable proof, in a thread whose representative has a readable request, when
  -- the library answers whether the proof is verified and the ledger leaves the state alone: the handler
  -- acknowledges exactly what is verified. Then it has stored the proof and exactly the attributes that the
  -- request asks for, in the order in which its map is gone through, each with the value revealed under its
  -- identifier or with the empty one; otherwise no representative has changed.
  pub presentation_verdict :
      (im om : Msg) (pres : Presentation) (text : String) (rep : PresentProofRep)
      (proof_req : ProofRequest) (proof : ProofDoc) (b : Bool) (w : World)
      → as_presentation im.body ≡ some pres
      → get_present_proof_rep env (new_state_key agent im.thread.id) w ≡ (ok (some rep), w)
      → first_attachment codec.b64 pres.presentation_attaches ≡ ok text
      → codec.read_request rep.proof_req ≡ ok proof_req
      → codec.read_proof text ≡ ok proof
      → verify_proof lib codec agent (received_rep rep text) w ≡ (ok b, w)
      → ((presentation_handler env lib codec agent im om w).0
          ≡ ok (b, if b then ack_if_auto (as_ack om.body) om else om))
        × Kept b text proof_req proof.revealed rep w
            (presentation_handler env lib codec agent im om w).1
  unfolding store_proof_data valued rep_type rep_key
  presentation_verdict im om pres text rep proof_req proof false w i g f q p v =
      rw (handler_lem im om pres text rep false w i g f v) (refl, refl)
  presentation_verdict im om pres text rep proof_req proof true w i g f q p v =
      let new = valued proof_req proof (received_rep rep text) in
      rw
        (
          handler_lem im om pres text rep true w i g f v,
          verified_lem om (received_rep rep text) text proof_req proof w q p,
        )
        (
          refl,
          (
            new,
            get-put_self w.reps (rep_place present_proof_bucket rep.key) (proof_rep new),
            refl,
            refl,
            with_values-identity proof.revealed (requested proof_req.requested_attributes)
                ∙ asked_lem proof_req.requested_attributes,
            with_values-HasRevealed proof.revealed (requested proof_req.requested_attributes),
          ),
        )
