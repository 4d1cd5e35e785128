-- ===== src/Protocol/Proof/Fetch.antt =====
-- protocol/presentproof/data/present_proof_rep.go, processAttributes: the search of the wallet for the
-- credentials of each requested attribute and predicate. A loop has fuel; `none` is a loop that has run
-- out of it.
use findy_agent.Common.{
  String, ℕ, zero, suc, Bool, true, false, ◌&&◌, Option, none, some, List, [], ◌∷◌, ◌++◌, length,
  eqb, if◌then◌else◌,
}
use findy_agent.Common.Table.{Table, put, string_eq}
use findy_agent.Common.Exec.{Error, Outcome, ok, err, panicked}
use findy_agent.Protocol.Proof.{
  CredInfo, RequestedCredentials, Proofs, AttrInfo, PredicateInfo, ProofRequest,
}

abbrev pub fetch_max : ℕ
fetch_max = 2

-- What a loop has gathered: the credentials in order, and the one that was chosen last.
pub record Gathered : Type 0 where
  pub infos : List CredInfo
  pub chosen : Option String

-- The first credential of a batch is chosen, and takes the place of an earlier one.
unfoldable pub gather : Gathered → List CredInfo → Gathered
gather g [] = g
gather g (info ∷ infos) = record { infos = g.infos ++ info ∷ infos; chosen = some info.referent }

module _ {Search : Type 0} (lib : Proofs Search) where
  -- The `for` loop of one referent.
  unfoldable pub fetch_loop : ℕ → String → Gathered → Search → Option (Outcome Gathered × Search)
  fetch_loop zero ref g s = none
  fetch_loop (suc fuel) ref g s =
      let (r, s') = lib.fetch s ref fetch_max in
      elim r [
        | ok infos ↦
            (let rest = fetch_loop fuel ref (gather g infos) s' in
              if eqb (length infos) fetch_max then rest else some (ok (gather g infos), s'))
        | err e ↦ some (err e, s')
        | panicked ↦ some (panicked, s')
      ]

-- An entry of a map of referents, where one was chosen.
abbrev pub put_chosen : Table String String → String → Option String → Table String String
put_chosen m ref none = m
put_chosen m ref (some cred) = put m ref cred

abbrev is_none : Option String → Bool
is_none none = true
is_none (some c) = false

abbrev is_empty : List String → Bool
is_empty [] = true
is_empty (x ∷ xs) = false

abbrev self_attested_if : Bool → Table String String → String → Table String String
self_attested_if needed m ref = if needed then put m ref "my self-attested value" else m

-- What an attribute's search adds to the requested credentials.
unfoldable pub with_attribute :
    RequestedCredentials → String → AttrInfo → Option String → RequestedCredentials
with_attribute req ref info chosen = record req {
  self_attested =
      self_attested_if (is_none chosen && is_empty info.restrictions) req.self_attested ref;
  attributes = put_chosen req.attributes ref chosen;
}

-- What processAttributes gathers: the requested credentials and all the credentials found.
abbrev pub Found : Type 0
Found = RequestedCredentials × List CredInfo

-- What closing the search leaves of the result.
abbrev pub on_close : Option Error → Found → Outcome Found
on_close none found = ok found
on_close (some e) found = err e

module _ {Search : Type 0} (lib : Proofs Search) (fuel : ℕ) where
  -- The loop over the requested attributes.
  unfoldable pub search_attributes :
      Table String AttrInfo → Found → Search → Option (Outcome Found × Search)
  search_attributes [] found s = some (ok found, s)
  search_attributes ((ref, info) ∷ attrs) found s =
      elim (fetch_loop lib fuel ref (record { infos = found.1; chosen = none }) s) [
        | none ↦ none
        | some (ok g, s') ↦
            search_attributes attrs (with_attribute found.0 ref info g.chosen, g.infos) s'
        | some (err e, s') ↦ some (err e, s')
        | some (panicked, s') ↦ some (panicked, s')
      ]

  -- The loop over the requested predicates.
  unfoldable pub search_predicates :
      Table String PredicateInfo → Found → Search → Option (Outcome Found × Search)
  search_predicates [] found s = some (ok found, s)
  search_predicates ((ref, info) ∷ predicates) found s =
      elim (fetch_loop lib fuel ref (record { infos = found.1; chosen = none }) s) [
        | none ↦ none
        | some (ok g, s') ↦
            search_predicates predicates
              (record found.0 { predicates = put_chosen found.0.predicates ref g.chosen }, g.infos)
              s'
        | some (err e, s') ↦ some (err e, s')
        | some (panicked, s') ↦ some (panicked, s')
      ]

  -- processAttributes, of a search that has been opened
  unfoldable pub process_attributes : ProofRequest → Search → Option (Outcome Found)
  process_attributes proof_req s =
      elim (search_attributes proof_req.requested_attributes
        (record { self_attested = []; attributes = []; predicates = [] }, []) s) [
          | none ↦ none
          | some (ok found, s') ↦ elim (search_predicates proof_req.requested_predicates found s') [
            | none ↦ none
            | some (ok found', s'') ↦ some (on_close (lib.close_search s'') found')
            | some (err e, s'') ↦ some (err e)
            | some (panicked, s'') ↦ some panicked
          ]
          | some (err e, s') ↦ some (err e)
          | some (panicked, s') ↦ some panicked
        ]
