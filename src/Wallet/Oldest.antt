-- ===== src/Wallet/Oldest.antt =====
-- The choice of the wallet to close (agent/ssi/walletmgr.go).
use findy_agent.Common.{
  ℕ, zero, suc, ◌+◌, ◌-◌, ◌≤◌, String, ◌&&◌, ◌≡◌, refl, sym, ap, ◌∙◌, ◌⊎◌, inl, inr, some, List, [],
  ◌∷◌, ltb, leb, All, arith, Bool-cases, some_inj, get_elem?,
}
use mathlib.Core.Path.{subst}
use findy_agent.Common.Table.{Table}
use findy_agent.Common.Exec.{ok}
use findy_agent.Wallet.{Mgr, Indy, Handle, handle_at, find_oldest_from, find_oldest, read_clock}

-- What is open refers to a handle that was used in the past.
abbrev pub IsOpened : List Handle → ℕ → ℕ → Type 0
IsOpened hs now r = (h : Handle) × (handle_at hs r ≡ some h) × (h.ts ≤ now)

abbrev pub AllOpened : List Handle → ℕ → Table String ℕ → Type 0
AllOpened hs now opened = All (λ (p : String × ℕ). IsOpened hs now p.1) opened

-- A wallet that is open under this name and is `age - 1` old.
pub record HasAge (opened : Table String ℕ) (hs : List Handle) (now : ℕ) (id : String) (age : ℕ)
    : Type 0 where
  pub at : ℕ
  pub ref : ℕ
  pub wallet : Handle
  pub is_open : get_elem? opened at ≡ some (id, ref)
  pub refers : handle_at hs ref ≡ some wallet
  pub aged : now - wallet.ts + 1 ≡ age

abbrev pub NotOlder : List Handle → ℕ → ℕ → ℕ → Type 0
NotOlder hs now age r = (h : Handle) → handle_at hs r ≡ some h → now - h.ts + 1 ≤ age

-- The loop gives a name and an age that nothing exceeds.
pub record Chosen (opened : Table String ℕ) (hs : List Handle) (now : ℕ) (id : String)
    (max_delta : ℕ) : Type 0 where
  pub name : String
  pub age : ℕ
  pub returns : find_oldest_from opened hs now id max_delta ≡ ok name
  pub at_least : max_delta ≤ age
  pub oldest : All (λ (p : String × ℕ). NotOlder hs now age p.1) opened
  pub chosen : ((name ≡ id) × (age ≡ max_delta)) ⊎ HasAge opened hs now name age

HasAge-later :
    (p : String × ℕ) (opened : Table String ℕ) (hs : List Handle) (now : ℕ) (id : String) (age : ℕ)
    → HasAge opened hs now id age
    → HasAge (p ∷ opened) hs now id age
HasAge-later p opened hs now id age a = record {
  at = suc a.at;
  ref = a.ref;
  wallet = a.wallet;
  is_open = a.is_open;
  refers = a.refers;
  aged = a.aged;
}

not_older :
    (hs : List Handle) (now age r : ℕ) (wallet : Handle)
    → handle_at hs r ≡ some wallet
    → now - wallet.ts + 1 ≤ age
    → NotOlder hs now age r
not_older hs now age r wallet e le h eh =
    subst (λ x. now - x.ts + 1 ≤ age) (some_inj (sym e ∙ eh)) le

pub find_oldest_from-Chosen :
    (opened : Table String ℕ) (hs : List Handle) (now : ℕ) (id : String) (max_delta : ℕ)
    → AllOpened hs now opened
    → Chosen opened hs now id max_delta
unfolding find_oldest_from
find_oldest_from-Chosen [] hs now id max_delta a = record {
  name = id;
  age = max_delta;
  returns = refl;
  at_least = omega arith;
  oldest = tt;
  chosen = inl (refl, refl);
}
find_oldest_from-Chosen ((s, r) ∷ opened) hs now id max_delta a =
    let (wallet, e, past) = a.0 in
    let age = now - wallet.ts + 1 in
    elim (Bool-cases (leb wallet.ts now && ltb max_delta age)) [
      | inl older ↦
          (let c = find_oldest_from-Chosen opened hs now s age a.1 in
            record {
              name = c.name;
              age = c.age;
              returns = rw (find_oldest_from, e, older) c.returns;
              at_least = ground (arith, c.at_least);
              oldest = (not_older hs now c.age r wallet e (omega (arith, c.at_least)), c.oldest);
              chosen = elim c.chosen [
                | inl (n, g) ↦ inr (record {
                  at = 0;
                  ref = r;
                  wallet = wallet;
                  is_open = rw n refl;
                  refers = e;
                  aged = sym g;
                })
                | inr has ↦ inr (HasAge-later (s, r) opened hs now c.name c.age has)
              ];
            })
      | inr newer ↦
          (let c = find_oldest_from-Chosen opened hs now id max_delta a.1 in
            record {
              name = c.name;
              age = c.age;
              returns = rw (find_oldest_from, e, newer) c.returns;
              at_least = c.at_least;
              oldest = (
                not_older hs now c.age r wallet e (ground (arith, c.at_least, newer, past)),
                c.oldest,
              );
              chosen = elim c.chosen [
                | inl same ↦ inl same
                | inr has ↦ inr (HasAge-later (s, r) opened hs now c.name c.age has)
              ];
            })
    ]

-- Of wallets that were used in the past, the loop of findOldest gives the name of one that is open, and
-- none has been used less recently.
find_oldest_from-HasAge :
    (p : String × ℕ) (ps : Table String ℕ) (hs : List Handle) (now : ℕ)
    → AllOpened hs now (p ∷ ps)
    → (name : String) × (age : ℕ) × (find_oldest_from (p ∷ ps) hs now "" 0 ≡ ok name)
      × HasAge (p ∷ ps) hs now name age
      × All (λ (q : String × ℕ). NotOlder hs now age q.1) (p ∷ ps)
find_oldest_from-HasAge p ps hs now a =
    let c = find_oldest_from-Chosen (p ∷ ps) hs now "" 0 a in
    elim c.chosen [
      | inl (same, zero_age) ↦ absurd (omega (arith, c.oldest.0 a.0.0 a.0.1, zero_age))
      | inr has ↦ (c.name, c.age, c.returns, has, c.oldest)
    ]

All-get_elem :
    {A : Type 0} (P : A → Type 0) (xs : List A) (at : ℕ) (x : A)
    → All P xs
    → get_elem? xs at ≡ some x
    → P x
All-get_elem P [] at x a e = absurd (ground (arith, e))
All-get_elem P (y ∷ ys) zero x a e = subst P (some_inj e) a.0
All-get_elem P (y ∷ ys) (suc at) x a e = All-get_elem P ys at x a.1 e

-- A wallet that is open, and was last used no later than this one.
pub record IsEvicted (opened : Table String ℕ) (hs : List Handle) (ts : ℕ) (name : String)
    : Type 0 where
  pub at : ℕ
  pub ref : ℕ
  pub wallet : Handle
  pub is_open : get_elem? opened at ≡ some (name, ref)
  pub refers : handle_at hs ref ≡ some wallet
  pub no_later : wallet.ts ≤ ts

oldest_of :
    (opened : Table String ℕ) (hs : List Handle) (now at r : ℕ) (id : String) (h : Handle)
    → AllOpened hs now opened
    → get_elem? opened at ≡ some (id, r)
    → handle_at hs r ≡ some h
    → (name : String) × (find_oldest_from opened hs now "" 0 ≡ ok name)
      × IsEvicted opened hs h.ts name
oldest_of [] hs now at r id h a e eh = absurd (ground (arith, e))
oldest_of (p ∷ ps) hs now at r id h a e eh =
    let (name, age, returns, has, oldest) = find_oldest_from-HasAge p ps hs now a in
    let past =
      All-get_elem (λ (q : String × ℕ). IsOpened hs now q.1) (p ∷ ps) has.at (name, has.ref) a
        has.is_open in
    let same = ap (λ (x : Handle). x.ts) (some_inj (sym past.1 ∙ has.refers)) in
    let older =
      All-get_elem (λ (q : String × ℕ). NotOlder hs now age q.1) (p ∷ ps) at (id, r) oldest e h
        eh in
    let past_h = All-get_elem (λ (q : String × ℕ). IsOpened hs now q.1) (p ∷ ps) at (id, r) a e in
    let same_h = ap (λ (x : Handle). x.ts) (some_inj (sym past_h.1 ∙ eh)) in
    (
      name,
      returns,
      record {
        at = has.at;
        ref = has.ref;
        wallet = has.wallet;
        is_open = has.is_open;
        refers = has.refers;
        no_later = omega (arith, has.aged, older, past.2, same, past_h.2, same_h);
      },
    )

-- Where every wallet that is open refers to a handle that was last used in the past, and whichever of them is
-- taken: findOldest answers with the name of one that is open and was last used no later than it, and only the
-- clock goes on.
pub find_oldest_lem :
    (indy : Indy) (s : Mgr) (at r : ℕ) (id : String) (h : Handle)
    → AllOpened s.handles (s.clock + indy.elapse s) s.opened
    → get_elem? s.opened at ≡ some (id, r)
    → handle_at s.handles r ≡ some h
    → (name : String) × (find_oldest indy s
        ≡ (ok name, record s { clock = s.clock + indy.elapse s }))
      × IsEvicted s.opened s.handles h.ts name
unfolding find_oldest read_clock
find_oldest_lem indy s at r id h a e eh =
    let (name, returns, evicted) =
      oldest_of s.opened s.handles (s.clock + indy.elapse s) at r id h a e eh in
    (name, rw (find_oldest, read_clock, returns) refl, evicted)
