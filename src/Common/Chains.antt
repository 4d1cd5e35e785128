-- ===== src/Common/Chains.antt =====
-- Lists whose neighbours are related.
use findy_agent.Common.Lists.{last?}
use mathlib.Core.Path.{◌≡◌, refl}
use mathlib.Core.List.{List, [], ◌∷◌, ◌++◌}
use mathlib.Core.Option.{some}

abbrev pub Chain {ℓ κ} : {A : Type ℓ} → (A → A → Type κ) → List A → Type κ
Chain R [] = Unit
Chain R (x ∷ []) = Unit
Chain R (x ∷ y ∷ xs) = R x y × Chain R (y ∷ xs)

pub Chain-append_one {ℓ κ} :
    {A : Type ℓ} (R : A → A → Type κ) (xs : List A) (x : A)
    → Chain R xs
    → ((y : A) → last? xs ≡ some y → R y x)
    → Chain R (xs ++ x ∷ [])
Chain-append_one R [] x h l = tt
Chain-append_one R (y ∷ []) x h l = (l y refl, tt)
Chain-append_one R (y ∷ z ∷ xs) x h l = (h.0, Chain-append_one R (z ∷ xs) x h.1 l)
