-- ===== src/Prot/Keeps.antt =====
-- Invariants of the processor's procedures: a rule for each way to build one.
use findy_agent.Common.{Bool, true, false, if◌then◌else◌}
use findy_agent.Common.Exec.{
  Error, Outcome, ok, err, panicked, pure, lift, gets, ◌>>=◌, ◌>>◌, proceed, handled, on_error,
}
use findy_agent.Prot.World.{World, Proc, ask}

-- `m` keeps `P` of the state, however it ends.
pub record Keeps {A : Type 0} (P : World → Type 0) (m : Proc A) : Type 0 where
  pub at : (w : World) → P w → P (m w).1

module _ {A : Type 0} {P : World → Type 0} where
  pub Keeps-pure : (a : A) → Keeps P (pure a)
  Keeps-pure a = record { at = λ w h. h }

  pub Keeps-lift : (r : Outcome A) → Keeps P (lift r)
  Keeps-lift r = record { at = λ w h. h }

  pub Keeps-gets : (f : World → A) → Keeps P (gets f)
  Keeps-gets f = record { at = λ w h. h }

  pub Keeps-ask : (f : World → Outcome A) → Keeps P (ask f)
  Keeps-ask f = record { at = λ w h. h }

  pub Keeps-if : (b : Bool) (m n : Proc A) → Keeps P m → Keeps P n → Keeps P (if b then m else n)
  Keeps-if true m n km kn = km
  Keeps-if false m n km kn = kn

  Keeps-handled :
      (r : Outcome A) (h : Error → Proc (Unit {0}))
      → ((e : Error) → Keeps P (h e))
      → Keeps P (handled r h)
  Keeps-handled (ok a) h k = record { at = λ w p. p }
  Keeps-handled (err e) h k = record { at = λ w p. (k e).at w p }
  Keeps-handled panicked h k = record { at = λ w p. p }

  pub Keeps-on_error :
      (h : Error → Proc (Unit {0})) (m : Proc A)
      → ((e : Error) → Keeps P (h e))
      → Keeps P m
      → Keeps P (on_error h m)
  Keeps-on_error h m kh km = record {
    at = λ w p. let (r, w') = m w in (Keeps-handled r h kh).at w' (km.at w p);
  }

module _ {A B : Type 0} {P : World → Type 0} where
  pub Keeps-proceed :
      (r : Outcome A) (f : A → Proc B) → ((a : A) → Keeps P (f a)) → Keeps P (proceed r f)
  Keeps-proceed (ok a) f k = k a
  Keeps-proceed (err e) f k = record { at = λ w p. p }
  Keeps-proceed panicked f k = record { at = λ w p. p }

  pub Keeps-bind :
      (m : Proc A) (f : A → Proc B) → Keeps P m → ((a : A) → Keeps P (f a)) → Keeps P (m >>= f)
  Keeps-bind m f km kf = record {
    at = λ w p. let (r, w') = m w in (Keeps-proceed r f kf).at w' (km.at w p);
  }

module _ {B : Type 0} {P : World → Type 0} where
  pub Keeps-then : (m : Proc (Unit {0})) (f : Proc B) → Keeps P m → Keeps P f → Keeps P (m >> f)
  Keeps-then m f km kf = Keeps-bind m (λ _. f) km (λ _. kf)

pub ruleset keeps_rules = (
  Keeps-pure, Keeps-lift, Keeps-gets, Keeps-ask, Keeps-if, Keeps-on_error, Keeps-bind, Keeps-then,
)
