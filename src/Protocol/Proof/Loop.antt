-- ===== src/Protocol/Proof/Loop.antt =====
-- The search loops of processAttributes (protocol/presentproof/data/present_proof_rep.go) end, and find
-- every credential.
use findy_agent.Common.{
  String, ℕ, zero, suc, ◌*◌, ◌≤◌, ◌<◌, ◌≡◌, refl, ap, ◌∙◌, Option, none, some, List, [], ◌∷◌, ◌++◌,
  length, arith,
}
use findy_agent.Common.Table.{Table, string_eq}
use findy_agent.Common.Exec.{Outcome, ok}
use findy_agent.Protocol.Proof.{CredInfo, Proofs, AttrInfo, PredicateInfo, ProofRequest}
use findy_agent.Protocol.Proof.Fetch.{
  fetch_max, Gathered, gather, fetch_loop, with_attribute, put_chosen, on_close, Found,
  search_attributes, search_predicates, process_attributes,
}

abbrev pub take : {A : Type 0} → ℕ → List A → List A
take zero xs = []
take (suc n) [] = []
take (suc n) (x ∷ xs) = x ∷ take n xs

abbrev pub drop : {A : Type 0} → ℕ → List A → List A
drop zero xs = xs
drop (suc n) [] = []
drop (suc n) (x ∷ xs) = drop n xs

-- A search hands out the credentials of each referent in order, at most `count` at a time; a fetch for one
-- referent adds nothing to what is left of another.
pub record Pages {Search : Type 0} (lib : Proofs Search) : Type 0 where
  pub left : Search → String → List CredInfo
  pub gives : (s : Search) (ref : String) (n : ℕ) → (lib.fetch s ref n).0 ≡ ok (take n (left s ref))
  pub goes :
      (s : Search) (ref : String) (n : ℕ) → left (lib.fetch s ref n).1 ref ≡ drop n (left s ref)
  pub shrinks :
      (s : Search) (ref other : String) (n : ℕ)
      → length (left (lib.fetch s ref n).1 other) ≤ length (left s other)

-- The credential that is chosen from these, two at a time: the first of the last batch that is not empty.
abbrev pub pick : Option String → List CredInfo → Option String
pick chosen [] = chosen
pick chosen (x ∷ []) = some x.referent
pick chosen (x ∷ y ∷ infos) = pick (some x.referent) infos

append-nil : {A : Type 0} (xs : List A) → xs ++ [] ≡ xs
append-nil [] = refl
append-nil (x ∷ xs) = ap (λ t. x ∷ t) (append-nil xs)

append_assoc : {A : Type 0} (xs ys zs : List A) → (xs ++ ys) ++ zs ≡ xs ++ (ys ++ zs)
append_assoc [] ys zs = refl
append_assoc (x ∷ xs) ys zs = ap (λ t. x ∷ t) (append_assoc xs ys zs)

module _ {Search : Type 0} (lib : Proofs Search) (pages : Pages lib) where
  -- Nothing is left of any referent that these rounds of fetching do not reach.
  abbrev pub Within : ℕ → Search → Type 0
  Within fuel s = (ref : String) → length (pages.left s ref) < 2 * fuel

  -- The loop's end: what it gathers, in a state that has not more left than the one it started in.
  pub record LoopEnd (fuel : ℕ) (ref : String) (g : Gathered) (s : Search) : Type 0 where
    pub last : Search
    pub ends :
        fetch_loop lib fuel ref g s
        ≡ some (
          ok (record {
            infos = g.infos ++ pages.left s ref;
            chosen = pick g.chosen (pages.left s ref);
          }),
          last,
        )
    pub less : (other : String) → length (pages.left last other) ≤ length (pages.left s other)

  loop_from :
      (fuel : ℕ) (ref : String) (g : Gathered) (s : Search) (infos : List CredInfo)
      → pages.left s ref ≡ infos
      → length infos < 2 * fuel
      → LoopEnd fuel ref g s
  unfolding fetch_loop gather
  loop_from zero ref g s infos e small = absurd (omega arith)
  loop_from (suc fuel) ref g s [] e small = record {
    last = (lib.fetch s ref fetch_max).1;
    ends = rw (fetch_loop, pages.gives s ref fetch_max, e, append-nil g.infos) refl;
    less = λ other. pages.shrinks s ref other fetch_max;
  }
  loop_from (suc fuel) ref g s (x ∷ []) e small = record {
    last = (lib.fetch s ref fetch_max).1;
    ends = rw (fetch_loop, pages.gives s ref fetch_max, e) refl;
    less = λ other. pages.shrinks s ref other fetch_max;
  }
  loop_from (suc fuel) ref g s (x ∷ y ∷ infos) e small =
      let s' = (lib.fetch s ref fetch_max).1 in
      let g' : Gathered = record { infos = g.infos ++ x ∷ y ∷ []; chosen = some x.referent } in
      let here : pages.left s' ref ≡ infos = pages.goes s ref fetch_max ∙ ap (drop fetch_max) e in
      let rest = loop_from fuel ref g' s' infos here (omega (arith, small)) in
      record {
        last = rest.last;
        ends =
            rw (fetch_loop, pages.gives s ref fetch_max, e)
              (rest.ends ∙ rw (here, append_assoc g.infos (x ∷ y ∷ []) infos) refl);
        less = λ other. omega (arith, rest.less other, pages.shrinks s ref other fetch_max);
      }

  -- The loop of one referent, with a round of fuel for every two credentials that are left and one more,
  -- ends without an error: it has added all the credentials of the referent in their order, and has
  -- chosen the first of the last batch of two that was not empty.
  pub fetch_loop_ends :
      (fuel : ℕ) (ref : String) (g : Gathered) (s : Search)
      → length (pages.left s ref) < 2 * fuel
      → LoopEnd fuel ref g s
  fetch_loop_ends fuel ref g s small = loop_from fuel ref g s (pages.left s ref) refl small

  -- A search through all the entries: what is found, and a state that has not more left.
  record FoundEnd (r : Option (Outcome Found × Search)) (s : Search) : Type 0 where
    found : Found
    last : Search
    ends : r ≡ some (ok found, last)
    less : (other : String) → length (pages.left last other) ≤ length (pages.left s other)

  attributes_end :
      (fuel : ℕ) (attrs : Table String AttrInfo) (found : Found) (s : Search)
      → Within fuel s
      → FoundEnd (search_attributes lib fuel attrs found s) s
  unfolding search_attributes
  attributes_end fuel [] found s within = record {
    found = found;
    last = s;
    ends = refl;
    less = λ other. omega arith;
  }
  attributes_end fuel ((ref, info) ∷ attrs) found s within =
      let g : Gathered = record { infos = found.1; chosen = none } in
      let one = fetch_loop_ends fuel ref g s (within ref) in
      let rest =
        attributes_end fuel attrs
          (
            with_attribute found.0 ref info (pick none (pages.left s ref)),
            found.1 ++ pages.left s ref,
          )
          one.last (λ other. omega (arith, within other, one.less other)) in
      record {
        found = rest.found;
        last = rest.last;
        ends = rw (search_attributes, one.ends) (rest.ends);
        less = λ other. omega (arith, rest.less other, one.less other);
      }

  predicates_end :
      (fuel : ℕ) (predicates : Table String PredicateInfo) (found : Found) (s : Search)
      → Within fuel s
      → FoundEnd (search_predicates lib fuel predicates found s) s
  unfolding search_predicates
  predicates_end fuel [] found s within = record {
    found = found;
    last = s;
    ends = refl;
    less = λ other. omega arith;
  }
  predicates_end fuel ((ref, info) ∷ predicates) found s within =
      let g : Gathered = record { infos = found.1; chosen = none } in
      let one = fetch_loop_ends fuel ref g s (within ref) in
      let rest =
        predicates_end fuel predicates
          (
            record found.0 {
              predicates = put_chosen found.0.predicates ref (pick none (pages.left s ref));
            },
            found.1 ++ pages.left s ref,
          )
          one.last (λ other. omega (arith, within other, one.less other)) in
      record {
        found = rest.found;
        last = rest.last;
        ends = rw (search_predicates, one.ends) (rest.ends);
        less = λ other. omega (arith, rest.less other, one.less other);
      }

  processed :
      (fuel : ℕ) (proof_req : ProofRequest) (s s' s'' : Search) (found found' : Found)
      → search_attributes lib fuel proof_req.requested_attributes
          (record { self_attested = []; attributes = []; predicates = [] }, [])
          s
        ≡ some (ok found, s')
      → search_predicates lib fuel proof_req.requested_predicates found s' ≡ some (ok found', s'')
      → lib.close_search s'' ≡ none
      → process_attributes lib fuel proof_req s ≡ some (ok found')
  unfolding process_attributes
  processed fuel proof_req s s' s'' found found' a p c =
      rw (process_attributes, a, p) (ap (λ o. some (on_close o found')) c)

  -- With fuel for every referent, and a search that is closed without an error, all the loops of
  -- processAttributes end and something is returned.
  pub process_attributes_ends :
      (fuel : ℕ) (proof_req : ProofRequest) (s : Search)
      → Within fuel s
      → ((s' : Search) → lib.close_search s' ≡ none)
      → (found : Found) × (process_attributes lib fuel proof_req s ≡ some (ok found))
  process_attributes_ends fuel proof_req s within closes =
      let first =
        attributes_end fuel proof_req.requested_attributes
          (record { self_attested = []; attributes = []; predicates = [] }, []) s within in
      let second =
        predicates_end fuel proof_req.requested_predicates first.found first.last
          (λ other. omega (arith, within other, first.less other)) in
      (
        second.found,
        processed fuel proof_req s first.last second.last first.found second.found first.ends
            second.ends (closes second.last),
      )
