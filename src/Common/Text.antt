-- ===== src/Common/Text.antt =====
-- What the source uses of Go's `strings`, over the native texts.
use Prim.Native.Nat.{ℕ}
use Prim.Native.Char.{Char, code}
use Prim.Native.String.{String, ◌++◌ as append}
use mathlib.Core.Path.{◌≡◌, refl}
use mathlib.Core.Bool.{true, false}
use mathlib.Core.List.{List, [], ◌∷◌}
use text.Mathlib.TextLemmas.{nil-append, cons-append}
use findy_agent.Common.Tests.{eqb, if◌then◌else◌}

abbrev pub cons_head : Char → List String → List String
cons_head c [] = String.◌∷◌ c String.[] ∷ []
cons_head c (p ∷ ps) = String.◌∷◌ c p ∷ ps

-- `strings.Split(s, sep)` for a separator of one character: there is always one part.
unfoldable pub split : ℕ → String → List String
split sep String.[] = String.[] ∷ []
split sep (String.◌∷◌ c s) =
    let rest = split sep s in if eqb (code c) sep then String.[] ∷ rest else cons_head c rest

-- The text has no character `sep`.
abbrev pub Without : ℕ → String → Type 0
Without sep String.[] = Unit
Without sep (String.◌∷◌ c s) = (eqb (code c) sep ≡ false) × Without sep s

pub split-append :
    (sep : ℕ) (c : Char) (p s : String)
    → eqb (code c) sep ≡ true
    → Without sep p
    → split sep (append p (String.◌∷◌ c s)) ≡ p ∷ split sep s
unfolding split
split-append sep c String.[] s h w = rw (nil-append, h)
split-append sep c (String.◌∷◌ d p) s h w = rw (cons-append, w.0, split-append sep c p s h w.1) refl

pub split_one : (sep : ℕ) (p : String) → Without sep p → split sep p ≡ p ∷ []
unfolding split
split_one sep String.[] w = refl
split_one sep (String.◌∷◌ d p) w = rw (w.0, split_one sep p w.1) refl
