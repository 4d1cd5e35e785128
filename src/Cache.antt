-- ===== src/Cache.antt =====
-- agent/ssi/cache.go: the DIDs that an agent keeps in memory. A DID is a reference; whether its key has
-- arrived is read from the DID.
use findy_agent.Common.{
  ℕ, String, Bool, true, false, ◌≡◌, Option, none, some, [], ◌∷◌, if◌then◌else◌, arith, inl, inr,
  eq_iff, ◌==◌, Bool-cases, ap, ◌∙◌,
}
use findy_agent.Common.Table.{Table, string_eq, get, put, get-put}
use findy_agent.Common.Exec.{Outcome, ok, panicked}

-- A nil map is one without entries.
abbrev pub Cache : Type 0
Cache = Table String ℕ

-- LazyAdd's test: there is a DID that has its key.
unfoldable pub keeps_old : (ℕ → Bool) → Cache → String → Bool
keeps_old has_key_data c s = elim (get c s) [ none ↦ false | some old ↦ has_key_data old ]

unfoldable pub lazy_add : (ℕ → Bool) → Cache → String → ℕ → Cache
lazy_add has_key_data c s d = if keeps_old has_key_data c s then c else put c s d

-- Add, of a DID that has this name.
unfoldable pub add : (ℕ → Bool) → (ℕ → String) → Cache → ℕ → Cache
unfolding lazy_add
add has_key_data did c d = lazy_add has_key_data c (did d) d

-- Get: without `sure` a missing DID panics, and with it the answer is nil.
unfoldable pub cache_get : Cache → String → Bool → Outcome (Option ℕ)
cache_get c s sure = elim (get c s) [
  | some v ↦ ok (some v)
  | none ↦ (if sure then ok none else panicked)
]

-- The loop of cloneMap.
unfoldable pub clone_map : Cache → Cache → Cache
clone_map tgt [] = tgt
clone_map tgt ((k, v) ∷ src) = clone_map (put tgt k v) src

unfoldable pub clone : Cache → Cache
clone c = clone_map [] c

-- After LazyAdd the cache has a DID of that name: the old one where it had its key, and the new one
-- otherwise; every other name has what it had.
pub get-lazy_add :
    (has_key_data : ℕ → Bool) (c : Cache) (s t : String) (d : ℕ)
    → get (lazy_add has_key_data c s d) t
      ≡ (if s == t then (if keeps_old has_key_data c s then get c s else some d) else get c t)
unfolding lazy_add
get-lazy_add has_key_data c s t d = ground (arith, get-put c s t d, eq_iff s t)

-- A DID that has its key stays under its name, whatever is added.
pub lazy_add_keeps :
    (has_key_data : ℕ → Bool) (c : Cache) (s t : String) (d old : ℕ)
    → get c t ≡ some old
    → has_key_data old ≡ true
    → get (lazy_add has_key_data c s d) t ≡ some old
unfolding lazy_add keeps_old
lazy_add_keeps has_key_data c s t d old e k = elim (Bool-cases (s == t)) [
  | inl same ↦
      (let here : get c s ≡ some old = ap (λ x. get c x) ((eq_iff s t).0 same) ∙ e in
        let kept : keeps_old has_key_data c s ≡ true = rw (keeps_old, here) k in
        rw (lazy_add, kept) e)
  | inr other ↦ get-lazy_add has_key_data c s t d ∙ rw other e
]
