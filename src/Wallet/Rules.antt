-- ===== src/Wallet/Rules.antt =====
-- Rules for calls that change the size of the manager's table.
use mathlib.Core.Path.{subst}
use findy_agent.Common.{
  ℕ, ◌+◌, ◌≤◌, ◌<◌, String, Bool, true, false, ◌≡◌, some, [], ◌∷◌, length, ltb, arith,
  if◌then◌else◌,
}
use findy_agent.Common.Table.{Table, string_eq, get, remove}
use findy_agent.Common.Exec.{Outcome, ok, err, panicked, ◌>>=◌, proceed}
use findy_agent.Wallet.{Mgr, Step}

pub ltb_sound : (a b : ℕ) → ltb a b ≡ true → a < b
ltb_sound a b h = ground arith

-- A deleted key leaves room.
length-remove : {V : Type 0} (t : Table String V) (k : String) → length (remove t k) ≤ length t
unfolding remove
length-remove [] k = omega arith
length-remove ((j, w) ∷ t) k = ground (arith, length-remove t k)

pub length-remove_lt :
    {V : Type 0} (t : Table String V) (k : String) (v : V)
    → get t k ≡ some v
    → length (remove t k) < length t
unfolding get remove
length-remove_lt [] k v e = absurd (ground arith)
length-remove_lt ((j, w) ∷ t) k v e = ground (arith, length-remove t k, length-remove_lt t k v)

-- At most `n` wallets are open, before and after.
pub record Bounded {A : Type 0} (n : ℕ) (m : Step A) : Type 0 where
  pub at : (s : Mgr) → length s.opened ≤ n → length (m s).1.opened ≤ n

-- The call changes no wallet's place in the manager.
pub record Leaves {A : Type 0} (m : Step A) : Type 0 where
  pub at : (s : Mgr) → (m s).1.opened ≡ s.opened

-- The call opens one wallet at most.
pub record Adds {A : Type 0} (m : Step A) : Type 0 where
  pub at : (s : Mgr) → length (m s).1.opened ≤ length s.opened + 1

module _ {A B : Type 0} where
  pub Leaves-proceed :
      (r : Outcome A) (f : A → Step B) (s : Mgr)
      → ((a : A) → Adds (f a))
      → length (proceed r f s).1.opened ≤ length s.opened + 1
  Leaves-proceed (ok a) f s h = (h a).at s
  Leaves-proceed (err e) f s h = omega arith
  Leaves-proceed panicked f s h = omega arith

  pub Leaves-Adds :
      (m : Step A) (f : A → Step B) → Leaves m → ((a : A) → Adds (f a)) → Adds (m >>= f)
  Leaves-Adds m f l h = record {
    at = λ s.
        subst (λ t. length ((m >>= f) s).1.opened ≤ length t + 1) (l.at s)
          (Leaves-proceed (m s).0 f (m s).1 h);
  }

  pub Bounded-proceed :
      (n : ℕ) (r : Outcome A) (f : A → Step B) (s : Mgr)
      → ((a : A) → Bounded n (f a))
      → length s.opened ≤ n
      → length (proceed r f s).1.opened ≤ n
  Bounded-proceed n (ok a) f s h l = (h a).at s l
  Bounded-proceed n (err e) f s h l = l
  Bounded-proceed n panicked f s h l = l

  pub Bounded-bind :
      (n : ℕ) (m : Step A) (f : A → Step B)
      → Bounded n m
      → ((a : A) → Bounded n (f a))
      → Bounded n (m >>= f)
  Bounded-bind n m f b h = record { at = λ s l. Bounded-proceed n (m s).0 f (m s).1 h (b.at s l) }

pub Leaves-Bounded : {A : Type 0} (n : ℕ) (m : Step A) → Leaves m → Bounded n m
Leaves-Bounded n m l = record { at = λ s h. rw (l.at s) h }

pub Bounded-if :
    {A : Type 0} (n : ℕ) (b : Bool) (m k : Step A)
    → Bounded n m
    → Bounded n k
    → Bounded n (if b then m else k)
Bounded-if n true m k hm hk = hm
Bounded-if n false m k hm hk = hk
