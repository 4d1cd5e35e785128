-- ===== src/Common/Exec.antt =====
-- Code that reads and writes a state of type `S`, and that returns, fails with an error or panics.
-- `err2.Handle` sees errors; a panic passes it by.
use mathlib.Core.Option.{Option, none, some}
use Prim.Native.String.{String}

pub data Error : Type 0 where
  external : String → Error
  psm_not_found no_creator no_pairwise : Error

pub data Outcome {ℓ} (A : Type ℓ) : Type ℓ where
  ok : A → Outcome A
  err : Error → Outcome A
  panicked : Outcome A

abbrev pub Exec : Type 0 → Type 0 → Type 0
Exec S A = S → Outcome A × S

-- The outcome of a cleanup is dropped, but for a panic.
abbrev pub after_cleanup : {A : Type 0} → Error → Outcome (Unit {0}) → Outcome A
after_cleanup e panicked = panicked
after_cleanup e _ = err e

module _ {S : Type 0} where
  abbrev pub pure : {A : Type 0} → A → Exec S A
  pure a s = (ok a, s)

  -- A step that does not touch the state: `try.To1` of it, or a call that may panic.
  abbrev pub lift : {A : Type 0} → Outcome A → Exec S A
  lift r s = (r, s)

  -- `try.To` of a call that returns only an error.
  abbrev pub try_to : Option Error → Exec S (Unit {0})
  try_to none s = (ok tt, s)
  try_to (some e) s = (err e, s)

  abbrev pub gets : {A : Type 0} → (S → A) → Exec S A
  gets f s = (ok (f s), s)

  abbrev pub modify : (S → S) → Exec S (Unit {0})
  modify f s = (ok tt, f s)

  -- What runs after a step that ended with this outcome.
  abbrev pub proceed : {A B : Type 0} → Outcome A → (A → Exec S B) → Exec S B
  proceed (ok a) f s = f a s
  proceed (err e) f s = (err e, s)
  proceed panicked f s = (panicked, s)

  infixl 5 ◌>>=◌ ◌>>◌
  abbrev pub ◌>>=◌ : {A B : Type 0} → Exec S A → (A → Exec S B) → Exec S B
  ◌>>=◌ m f s = let (r, s') = m s in proceed r f s'

  abbrev pub ◌>>◌ : {B : Type 0} → Exec S (Unit {0}) → Exec S B → Exec S B
  m >> k = m >>= λ _. k

  abbrev pub handled : {A : Type 0} → Outcome A → (Error → Exec S (Unit {0})) → Exec S A
  handled (ok a) h s = (ok a, s)
  handled (err e) h s = let (r, s') = h e s in (after_cleanup e r, s')
  handled panicked h s = (panicked, s)

  -- `defer err2.Handle(&err, func(err error) error { _ = h(err); return err })` above the body.
  abbrev pub on_error : {A : Type 0} → (Error → Exec S (Unit {0})) → Exec S A → Exec S A
  on_error h m s = let (r, s') = m s in handled r h s'
