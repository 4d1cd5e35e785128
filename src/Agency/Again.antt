-- ===== src/Agency/Again.antt =====
-- agent/agency/handlers.go: an agent that was found is found again.
use findy_agent.Common.{
  ◌+◌, String, true, false, ◌≡◌, refl, ◌∙◌, ap, Option, none, some, inl, inr, ◌⊎◌, Bool-cases, sym,
  Option-cases,
}
use findy_agent.Common.Table.{Table, string_eq, get, put, remove, get-remove, beq_refl}
use findy_agent.Common.Exec.{Error, Outcome, ok, err, panicked}
use findy_agent.Endp.{is_in_endpoints}
use findy_agent.Agency.{
  Agency, Seeding, handler, build_prepared, build_seed, build_handler_from_seed,
  is_handler_in_this_agency, checked_receiver, ca,
}

fails_not :
    {A B S : Type 0} {x : Error} {a : A} {s t : S} → Path (Outcome A × S) (err x, s) (ok a, t) → B
fails_not {A} {x = x} {a} e = let clash : Path (Outcome A) (err x) (ok a) = ap (λ p. p.0) e in cc

panics_not : {A B S : Type 0} {a : A} {s t : S} → Path (Outcome A × S) (panicked, s) (ok a, t) → B
panics_not {A} {a} e = let clash : Path (Outcome A) panicked (ok a) = ap (λ p. p.0) e in cc

module _ {Handler Seed Receiver : Type 0} (lib : Seeding Handler Seed Receiver) (did : String) where
  abbrev In : Type 0
  In = Agency Handler Seed

  -- The answer of `ca` to what the map of the agents has.
  abbrev answer : Option Handler → Outcome Receiver
  answer none = err (Error.external "handler is not in this agency")
  answer (some h) = checked_receiver lib (some h)

  get-remove_self : (m : Table String Seed) → get (remove m did) did ≡ none
  get-remove_self m = rw (get-remove m did did, beq_refl did) refl

  module _ (out : is_in_endpoints did ≡ false) where
    -- With no seed nothing is built, and the maps say whether there is an agent.
    ca-no_seed : (s : In) → get s.seeds did ≡ none → ca lib did s ≡ (answer (get s.handlers did), s)
    unfolding ca is_handler_in_this_agency handler
    ca-no_seed s e = elim (Option-cases (get s.handlers did)) [
      | inl none_here ↦ rw (ca, is_handler_in_this_agency, out, e, none_here) refl
      | inr (h, here) ↦
          rw (ca, is_handler_in_this_agency, handler, out, e, here)
            (ap (λ h'. (checked_receiver lib h', s)) here)
    ]

    -- With a seed that was tried, the maps say what is found.
    ca-built :
        (s s1 : In) (seed : Seed)
        → get s.seeds did ≡ some seed
        → build_handler_from_seed lib did s ≡ (ok tt, s1)
        → ca lib did s ≡ (answer (get s1.handlers did), s1)
    unfolding ca is_handler_in_this_agency handler
    ca-built s s1 seed e b = elim (Option-cases (get s1.handlers did)) [
      | inl none_here ↦ rw (ca, is_handler_in_this_agency, out, e, b, none_here) refl
      | inr (h, here) ↦
          rw (ca, is_handler_in_this_agency, handler, out, e, b, here)
            (ap (λ h'. (checked_receiver lib h', s1)) here)
    ]

    ca-build_panics :
        (s s1 : In) (seed : Seed)
        → get s.seeds did ≡ some seed
        → build_handler_from_seed lib did s ≡ (panicked, s1)
        → ca lib did s ≡ (panicked, s1)
    unfolding ca is_handler_in_this_agency
    ca-build_panics s s1 seed e b = rw (ca, is_handler_in_this_agency, out, e, b) refl

    -- The seed is tried once more.
    abbrev tried : In → In
    tried s = record s { prepared = s.prepared + 1 }

    build_lem :
        (s : In) (seed : Seed)
        → get s.seeds did ≡ some seed
        → build_handler_from_seed lib did s
          ≡ build_prepared lib did (lib.prepare s.prepared seed) (tried s)
    unfolding build_handler_from_seed build_seed
    build_lem s seed e = rw (build_handler_from_seed, e, build_seed) refl

    -- A call whose own end state answers the same is repeated by the next one.
    repeated :
        (s s1 s' : In) (a : Outcome Receiver) (r : Receiver)
        → ca lib did s ≡ (a, s1)
        → ca lib did s1 ≡ (a, s1)
        → ca lib did s ≡ (ok r, s')
        → ca lib did s' ≡ (ok r, s')
    repeated s s1 s' a r e e1 c =
        let same : (a, s1) ≡ (ok r, s') = sym e ∙ c in
        ap (λ p. ca lib did p.1) (sym same) ∙ e1 ∙ same

    abbrev grown : In → Handler → In
    grown s h = record {
      seeds = remove s.seeds did;
      handlers = put s.handlers did h;
      prepared = s.prepared + 1;
    }

    again_seed :
        (s s' : In) (seed : Seed) (r : Receiver) (p : Outcome Handler)
        → get s.seeds did ≡ some seed
        → get s.handlers did ≡ none
        → lib.prepare s.prepared seed ≡ p
        → ca lib did s ≡ (ok r, s')
        → ca lib did s' ≡ (ok r, s')
    unfolding build_prepared
    again_seed s s' seed r (ok h) e n p c =
        repeated s (grown s h) s' (answer (get (grown s h).handlers did)) r
          (ca-built s (grown s h) seed e (build_lem s seed e ∙ rw p refl))
          (ca-no_seed (grown s h) (get-remove_self s.seeds)) c
    again_seed s s' seed r (err x) e n p c = fails_not (
        sym (
          ca-built s (tried s) seed e (build_lem s seed e ∙ rw p refl)
          ∙ ap (λ h. (answer h, tried s)) n)
        ∙ c)
    again_seed s s' seed r panicked e n p c =
        panics_not (sym (ca-build_panics s (tried s) seed e (build_lem s seed e ∙ rw p refl)) ∙ c)

  ca-static : (s : In) → is_in_endpoints did ≡ true → ca lib did s ≡ (checked_receiver lib none, s)
  unfolding ca is_handler_in_this_agency handler
  ca-static s h = rw (ca, is_handler_in_this_agency, handler, h) refl

  -- Where no DID is at once that of a seed and that of an agent, `ca` that has found an agent finds the
  -- same one when it is asked again, and changes nothing: a seed becomes an agent once.
  pub ca_again :
      (s s' : Agency Handler Seed) (r : Receiver)
      → (get s.seeds did ≡ none) ⊎ (get s.handlers did ≡ none)
      → ca lib did s ≡ (ok r, s')
      → ca lib did s' ≡ (ok r, s')
  unfolding checked_receiver
  ca_again s s' r apart c = elim (Bool-cases (is_in_endpoints did)) [
    | inl static ↦ fails_not (sym (ca-static s static) ∙ c)
    | inr out ↦ elim (Option-cases (get s.seeds did)) [
      | inl no_seed ↦
          repeated out s s s' (answer (get s.handlers did)) r (ca-no_seed out s no_seed)
            (ca-no_seed out s no_seed) c
      | inr (seed, e) ↦
          again_seed out s s' seed r (lib.prepare s.prepared seed) e
            (elim apart [ inl n ↦ (let clash : none ≡ some seed = sym n ∙ e in cc) | inr n ↦ n ])
            refl c
    ]
  ]
