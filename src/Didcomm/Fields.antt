-- ===== src/Didcomm/Fields.antt =====
-- `FieldAtInd` on the types that are built from parts (agent/didcomm/payload.go).
use Prim.Native.String.{◌++◌ as append}
use text.Mathlib.Text.{starts_with}
use text.Mathlib.TextLemmas.{append-ne-nil_of_right_ne-nil, cons-ne-nil}
use findy_agent.Common.{
  ℕ, ◌+◌, Char, String, ◌≡◌, refl, ◌≢◌, true, false, List, [], ◌∷◌, length, get_elem?, All, Without,
  split, split-append, split_one, arith, ◌==◌, eq_iff, some, ◌∙◌,
}
use findy_agent.Common.Exec.{ok, panicked}
use findy_agent.Didcomm.{field_at_ind, field_of}

abbrev slash : Char
slash = "/"

-- The parts with slashes between them.
abbrev pub slashed : String → List String → String
slashed p [] = p
slashed p (q ∷ ps) = append p (String.◌∷◌ slash (slashed q ps))

-- Splitting takes the slashes out again.
pub split-slashed :
    (p : String) (ps : List String)
    → All (Without b'/') (p ∷ ps)
    → split b'/' (slashed p ps) ≡ p ∷ ps
split-slashed p [] h = split_one b'/' p h.0
split-slashed p (q ∷ ps) h =
    rw (split-append b'/' slash p (slashed q ps) refl h.0, split-slashed q ps h.1) refl

slashed_ne_empty : (p q : String) (ps : List String) → (slashed p (q ∷ ps) == "") ≡ false
slashed_ne_empty p q ps = ground (
  arith,
  eq_iff (slashed p (q ∷ ps)) "",
  append-ne-nil_of_right_ne-nil p (cons-ne-nil slash (slashed q ps)),
)

field_of-slashed :
    (p : String) (ps : List String) (n at : ℕ) {f : String}
    → All (Without b'/') (p ∷ ps)
    → length (p ∷ ps) ≡ n
    → get_elem? (p ∷ ps) at ≡ some f
    → field_of (slashed p ps) n at ≡ ok f
unfolding field_of
field_of-slashed p ps n at h l e = rw (split-slashed p ps h) (ground arith)

field_at_ind_plain :
    (s : String) (at : ℕ)
    → (s == "") ≡ false
    → starts_with s "https://" ≡ false
    → field_at_ind s at ≡ field_of s 4 at
unfolding field_at_ind
field_at_ind_plain s at h u = rw (h, u) refl

field_at_ind_url :
    (s : String) (at : ℕ)
    → (s == "") ≡ false
    → starts_with s "https://" ≡ true
    → field_at_ind s at ≡ field_of s 6 (at + 2)
unfolding field_at_ind
field_at_ind_url s at h u = rw (h, u) refl

-- Of a type of four parts without slashes that is no URL, `FieldAtInd` gives each part.
pub field_at_ind-slashed :
    (ns family version msg : String)
    → All (Without b'/') (ns ∷ family ∷ version ∷ msg ∷ [])
    → starts_with (slashed ns (family ∷ version ∷ msg ∷ [])) "https://" ≡ false
    → let s = slashed ns (family ∷ version ∷ msg ∷ []) in
      (field_at_ind s 0 ≡ ok ns)
      × (field_at_ind s 1 ≡ ok family)
      × (field_at_ind s 2 ≡ ok version)
      × (field_at_ind s 3 ≡ ok msg)
field_at_ind-slashed ns family version msg h u =
    let ps = family ∷ version ∷ msg ∷ [] in
    let s = slashed ns ps in
    let n = slashed_ne_empty ns family (version ∷ msg ∷ []) in
    (
      field_at_ind_plain s 0 n u ∙ field_of-slashed ns ps 4 0 h refl refl,
      field_at_ind_plain s 1 n u ∙ field_of-slashed ns ps 4 1 h refl refl,
      field_at_ind_plain s 2 n u ∙ field_of-slashed ns ps 4 2 h refl refl,
      field_at_ind_plain s 3 n u ∙ field_of-slashed ns ps 4 3 h refl refl,
    )

-- Of a URL type `FieldAtInd` skips the scheme: its namespace is the host alone, and the family and
-- the message are where they are in a plain type.
pub field_at_ind-slashed_url :
    (host family version msg : String)
    → All (Without b'/') (host ∷ family ∷ version ∷ msg ∷ [])
    → starts_with (slashed "https:" ("" ∷ host ∷ family ∷ version ∷ msg ∷ [])) "https://" ≡ true
    → let s = slashed "https:" ("" ∷ host ∷ family ∷ version ∷ msg ∷ []) in
      (field_at_ind s 0 ≡ ok host)
      × (field_at_ind s 1 ≡ ok family)
      × (field_at_ind s 2 ≡ ok version)
      × (field_at_ind s 3 ≡ ok msg)
field_at_ind-slashed_url host family version msg h u =
    let ps = "" ∷ host ∷ family ∷ version ∷ msg ∷ [] in
    let s = slashed "https:" ps in
    let n = slashed_ne_empty "https:" "" (host ∷ family ∷ version ∷ msg ∷ []) in
    let scheme : Without b'/' "https:" = ground arith in
    let all : All (Without b'/') ("https:" ∷ ps) = (scheme, (tt, h)) in
    (
      field_at_ind_url s 0 n u ∙ field_of-slashed "https:" ps 6 2 all refl refl,
      field_at_ind_url s 1 n u ∙ field_of-slashed "https:" ps 6 3 all refl refl,
      field_at_ind_url s 2 n u ∙ field_of-slashed "https:" ps 6 4 all refl refl,
      field_at_ind_url s 3 n u ∙ field_of-slashed "https:" ps 6 5 all refl refl,
    )

-- A type that is not empty, no URL and not of exactly four parts makes `FieldAtInd` panic.
pub field_at_ind_panics :
    (p : String) (q : String) (ps : List String) (at : ℕ)
    → All (Without b'/') (p ∷ q ∷ ps)
    → starts_with (slashed p (q ∷ ps)) "https://" ≡ false
    → length ps ≢ 2
    → field_at_ind (slashed p (q ∷ ps)) at ≡ panicked
unfolding field_of
field_at_ind_panics p q ps at h u l =
    field_at_ind_plain (slashed p (q ∷ ps)) at (slashed_ne_empty p q ps) u
    ∙ rw (split-slashed p (q ∷ ps) h) (ground arith)
