-- ===== src/Base/Every.antt =====
-- What holds of each element of a list, where lists are joined.
use mathlib.Core.List.{List, [], ◌∷◌, ◌++◌}
use plampshade.Base.Lists.{All}

module _ {ℓ κ} {A : Type ℓ} (P : A → Type κ) where
  pub All-append : (xs ys : List A) → All P xs → All P ys → All P (xs ++ ys)
  All-append [] ys h k = k
  All-append (x ∷ xs) ys h k = (h.0, All-append xs ys h.1 k)

  pub All-snoc : (xs : List A) (x : A) → All P xs → P x → All P (xs ++ (x ∷ []))
  All-snoc xs x h p = All-append xs (x ∷ []) h (p, tt)
