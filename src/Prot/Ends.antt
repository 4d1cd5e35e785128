-- ===== src/Prot/Ends.antt =====
-- Procedures that return: a rule for each way to build one. A call that fails or panics does not
-- satisfy `Ends`.
use findy_agent.Common.{◌≡◌, refl, Bool, true, false, if◌then◌else◌}
use findy_agent.Common.Exec.{Error, Outcome, ok, pure, lift, ◌>>=◌, on_error}
use findy_agent.Prot.World.{World, Proc}

-- `m` returns a value from `w`, and `P` holds of the value and of the state that it leaves.
pub record Ends {A : Type 0} (m : Proc A) (w : World) (P : A → World → Type 0) : Type 0 where
  pub value : A
  pub returns : (m w).0 ≡ ok value
  pub post : P value (m w).1

module _ {A : Type 0} {P : A → World → Type 0} where
  pub Ends-pure : (a : A) (w : World) → P a w → Ends (pure a) w P
  Ends-pure a w p = record { value = a; returns = refl; post = p }

  pub Ends-lift : (r : Outcome A) (a : A) (w : World) → r ≡ ok a → P a w → Ends (lift r) w P
  Ends-lift r a w e p = record { value = a; returns = e; post = p }

  pub Ends-if :
      (b : Bool) (m n : Proc A) (w : World)
      → (b ≡ true → Ends m w P)
      → (b ≡ false → Ends n w P)
      → Ends (if b then m else n) w P
  Ends-if true m n w em en = em refl
  Ends-if false m n w em en = en refl

  pub Ends-on_error :
      (h : Error → Proc (Unit {0})) (m : Proc A) (w : World) → Ends m w P → Ends (on_error h m) w P
  Ends-on_error h m w e = record {
    value = e.value;
    returns = rw e.returns refl;
    post = rw e.returns e.post;
  }

  -- A fact on the state that is left, beside what is known.
  pub Ends-also :
      {Q : World → Type 0} (m : Proc A) (w : World)
      → Ends m w P
      → Q (m w).1
      → Ends m w (λ a w'. P a w' × Q w')
  Ends-also m w e q = record { value = e.value; returns = e.returns; post = (e.post, q) }

  pub Ends-weaken :
      {Q : A → World → Type 0} (m : Proc A) (w : World)
      → Ends m w P
      → ((a : A) (w' : World) → P a w' → Q a w')
      → Ends m w Q
  Ends-weaken m w e k = record {
    value = e.value;
    returns = e.returns;
    post = k e.value (m w).1 e.post;
  }

module _ {A B : Type 0} {P : A → World → Type 0} {Q : B → World → Type 0} where
  pub Ends-bind :
      (m : Proc A) (f : A → Proc B) (w : World)
      → Ends m w P
      → ((a : A) (w' : World) → P a w' → Ends (f a) w' Q)
      → Ends (m >>= f) w Q
  Ends-bind m f w e k =
      let rest = k e.value (m w).1 e.post in
      record {
        value = rest.value;
        returns = rw e.returns rest.returns;
        post = rw e.returns rest.post;
      }
