-- ===== src/Base/Lists.antt =====
-- Lists measured by native numbers, under the library's names, and Go's slice operations on them.
use Prim.Native.Nat.{ℕ, zero, suc, ◌+◌, ◌-◌, ◌≤◌, min}
use mathlib.Core.Path.{◌≡◌, refl, sym, ap, ap₂, ◌∙◌}
use mathlib.Core.List.{List, [], ◌∷◌, ◌++◌, append_assoc}
use native.Mathlib.Omega.{arith}

module _ {ℓ} {A : Type ℓ} where
  abbrev pub length : List A → ℕ
  length [] = 0
  length (x ∷ xs) = suc (length xs)

  abbrev pub take : ℕ → List A → List A
  take zero xs = []
  take (suc n) [] = []
  take (suc n) (x ∷ xs) = x ∷ take n xs

  abbrev pub drop : ℕ → List A → List A
  drop zero xs = xs
  drop (suc n) [] = []
  drop (suc n) (x ∷ xs) = drop n xs

  abbrev pub replicate : ℕ → A → List A
  replicate zero a = []
  replicate (suc n) a = a ∷ replicate n a

  abbrev pub All {κ} : (A → Type κ) → List A → Type κ
  All P [] = Unit {κ}
  All P (x ∷ xs) = P x × All P xs

  pub length-append : (xs ys : List A) → length (xs ++ ys) ≡ length xs + length ys
  length-append [] ys = omega arith
  length-append (x ∷ xs) ys = omega (arith, length-append xs ys)

  pub length-take : (n : ℕ) (xs : List A) → length (take n xs) ≡ min n (length xs)
  length-take zero xs = omega arith
  length-take (suc n) [] = omega arith
  length-take (suc n) (x ∷ xs) = omega (arith, length-take n xs)

  pub length-drop : (n : ℕ) (xs : List A) → length (drop n xs) ≡ length xs - n
  length-drop zero xs = omega arith
  length-drop (suc n) [] = omega arith
  length-drop (suc n) (x ∷ xs) = omega (arith, length-drop n xs)

  pub length-replicate : (n : ℕ) (a : A) → length (replicate n a) ≡ n
  length-replicate zero a = refl
  length-replicate (suc n) a = ap suc (length-replicate n a)

  pub take-append-drop : (n : ℕ) (xs : List A) → take n xs ++ drop n xs ≡ xs
  take-append-drop zero xs = refl
  take-append-drop (suc n) [] = refl
  take-append-drop (suc n) (x ∷ xs) = rw (take-append-drop n xs)

  -- A prefix of known length is split off again.
  pub take-append : (n : ℕ) (xs ys : List A) → length xs ≡ n → take n (xs ++ ys) ≡ xs
  take-append zero [] ys h = refl
  take-append zero (x ∷ xs) ys h = absurd (omega arith)
  take-append (suc n) [] ys h = absurd (omega arith)
  take-append (suc n) (x ∷ xs) ys h = ap (◌∷◌ x) (take-append n xs ys (omega arith))

  pub drop-append : (n : ℕ) (xs ys : List A) → length xs ≡ n → drop n (xs ++ ys) ≡ ys
  drop-append zero [] ys h = refl
  drop-append zero (x ∷ xs) ys h = absurd (omega arith)
  drop-append (suc n) [] ys h = absurd (omega arith)
  drop-append (suc n) (x ∷ xs) ys h = drop-append n xs ys (omega arith)

  pub take-all : (n : ℕ) (xs : List A) → length xs ≤ n → take n xs ≡ xs
  take-all zero [] h = refl
  take-all zero (x ∷ xs) h = absurd (omega arith)
  take-all (suc n) [] h = refl
  take-all (suc n) (x ∷ xs) h = ap (◌∷◌ x) (take-all n xs (omega arith))

  -- `copy(dst, src)`: the elements of `dst` afterwards.
  abbrev pub copy : List A → List A → List A
  copy [] src = []
  copy (d ∷ dst) [] = d ∷ dst
  copy (d ∷ dst) (s ∷ src) = s ∷ copy dst src

  -- `copy(dst[off:], src)`, for an `off` within `dst`.
  abbrev pub copy_at : ℕ → List A → List A → List A
  copy_at zero dst src = copy dst src
  copy_at (suc off) [] src = []
  copy_at (suc off) (d ∷ dst) src = d ∷ copy_at off dst src

module _ {ℓ} {A : Type ℓ} where
  take-nil : (n : ℕ) → take n (let e : List A = [] in e) ≡ []
  take-nil zero = refl
  take-nil (suc n) = refl

  pub length-copy_at : (off : ℕ) (dst src : List A) → length (copy_at off dst src) ≡ length dst
  length-copy_at zero [] src = refl
  length-copy_at zero (d ∷ dst) [] = refl
  length-copy_at zero (d ∷ dst) (s ∷ src) = ap suc (length-copy_at zero dst src)
  length-copy_at (suc off) [] src = refl
  length-copy_at (suc off) (d ∷ dst) src = ap suc (length-copy_at off dst src)

  pub copy-eq-append :
      (dst src : List A) → length src ≤ length dst → copy dst src ≡ src ++ drop (length src) dst
  copy-eq-append [] [] h = refl
  copy-eq-append [] (s ∷ src) h = absurd (omega arith)
  copy-eq-append (d ∷ dst) [] h = refl
  copy-eq-append (d ∷ dst) (s ∷ src) h = ap (◌∷◌ s) (copy-eq-append dst src (omega arith))

  -- What fits is written whole, and the elements in front of it are kept.
  pub take-copy_at :
      (off : ℕ) (dst src : List A)
      → off + length src ≤ length dst
      → take (off + length src) (copy_at off dst src) ≡ take off dst ++ src
  take-copy_at zero dst src h =
      rw (copy-eq-append dst src (omega arith)) (take-append _ src _ (omega arith))
  take-copy_at (suc off) [] src h = absurd (omega arith)
  take-copy_at (suc off) (d ∷ dst) src h =
      let e : suc off + length src ≡ suc (off + length src) = omega arith in
      rw e (ap (◌∷◌ d) (take-copy_at off dst src (omega arith)))

  pub drop-append_of_le :
      (n : ℕ) (xs ys : List A) → n ≤ length xs → drop n (xs ++ ys) ≡ drop n xs ++ ys
  drop-append_of_le zero xs ys h = refl
  drop-append_of_le (suc n) [] ys h = absurd (omega arith)
  drop-append_of_le (suc n) (x ∷ xs) ys h = drop-append_of_le n xs ys (omega arith)

  pub take-append_of_le : (n : ℕ) (xs ys : List A) → n ≤ length xs → take n (xs ++ ys) ≡ take n xs
  take-append_of_le zero xs ys h = refl
  take-append_of_le (suc n) [] ys h = absurd (omega arith)
  take-append_of_le (suc n) (x ∷ xs) ys h = ap (◌∷◌ x) (take-append_of_le n xs ys (omega arith))

  pub take-take : (m n : ℕ) (xs : List A) → m ≤ n → take m (take n xs) ≡ take m xs
  take-take zero n xs h = refl
  take-take (suc m) zero xs h = absurd (omega arith)
  take-take (suc m) (suc n) [] h = refl
  take-take (suc m) (suc n) (x ∷ xs) h = ap (◌∷◌ x) (take-take m n xs (omega arith))

  pub copy_at-eq-append :
      (off : ℕ) (dst src : List A)
      → off + length src ≤ length dst
      → copy_at off dst src ≡ take off dst ++ (src ++ drop (off + length src) dst)
  copy_at-eq-append zero dst src h =
      let e : 0 + length src ≡ length src = omega arith in
      rw e (copy-eq-append dst src (omega arith))
  copy_at-eq-append (suc off) [] src h = absurd (omega arith)
  copy_at-eq-append (suc off) (d ∷ dst) src h =
      let e : suc off + length src ≡ suc (off + length src) = omega arith in
      rw e (ap (◌∷◌ d) (copy_at-eq-append off dst src (omega arith)))

  pub copy_at-nil : (off : ℕ) (dst : List A) → copy_at off dst [] ≡ dst
  copy_at-nil zero [] = refl
  copy_at-nil zero (d ∷ dst) = refl
  copy_at-nil (suc off) [] = refl
  copy_at-nil (suc off) (d ∷ dst) = ap (◌∷◌ d) (copy_at-nil off dst)

  -- A write leaves what stands in front of it.
  pub take-copy_at_of_le :
      (off k : ℕ) (dst src : List A) → k ≤ off → take k (copy_at off dst src) ≡ take k dst
  take-copy_at_of_le off zero dst src h = refl
  take-copy_at_of_le zero (suc k) dst src h = absurd (omega arith)
  take-copy_at_of_le (suc off) (suc k) [] src h = refl
  take-copy_at_of_le (suc off) (suc k) (d ∷ dst) src h =
      ap (◌∷◌ d) (take-copy_at_of_le off k dst src (omega arith))

  drop-copy_at_behind :
      (off : ℕ) (dst src : List A)
      → off + length src ≤ length dst
      → drop (off + length src) (copy_at off dst src) ≡ drop (off + length src) dst
  drop-copy_at_behind zero dst src h =
      let e : 0 + length src ≡ length src = omega arith in
      rw (e, copy-eq-append dst src (omega arith)) (drop-append (length src) src _ refl)
  drop-copy_at_behind (suc off) [] src h = absurd (omega arith)
  drop-copy_at_behind (suc off) (d ∷ dst) src h =
      let e : suc off + length src ≡ suc (off + length src) = omega arith in
      rw e (drop-copy_at_behind off dst src (omega arith))

  -- The part of `dst` that a write covers, and what stands behind it.
  pub drop-copy_at :
      (off : ℕ) (dst src : List A)
      → off + length src ≤ length dst
      → drop off (copy_at off dst src) ≡ src ++ drop (off + length src) dst
  drop-copy_at off dst src h =
      rw (copy_at-eq-append off dst src h)
        (drop-append off (take off dst) _ (omega (arith, length-take off dst)))

  pub take-add : (m n : ℕ) (xs : List A) → take (m + n) xs ≡ take m xs ++ take n (drop m xs)
  take-add zero n xs = let e : 0 + n ≡ n = omega arith in rw e
  take-add (suc m) n [] = let e : suc m + n ≡ suc (m + n) = omega arith in rw e (sym (take-nil n))
  take-add (suc m) n (x ∷ xs) =
      let e : suc m + n ≡ suc (m + n) = omega arith in rw e (ap (◌∷◌ x) (take-add m n xs))

  -- Two writes, the second one just in front of the first.
  pub take-copy_at-copy_at :
      (k : ℕ) (b first second : List A)
      → k + length first + length second ≤ length b
      → take
          (k + length first + length second)
          (copy_at k (copy_at (k + length first) b second) first)
        ≡ take k b ++ (first ++ second)
  take-copy_at-copy_at k b first second h =
      let s = k + length first in
      let whole = copy_at s b second in
      let size : length whole ≡ length b = length-copy_at s b second in
      take-add s (length second) (copy_at k whole first)
      ∙ ap₂ ◌++◌
          (take-copy_at k whole first (omega arith)
            ∙ ap (λ (t : List A). t ++ first) (take-copy_at_of_le s k b second (omega arith)))
          (ap (take (length second)) (
              drop-copy_at_behind k whole first (omega arith)
              ∙ drop-copy_at s b second (omega arith))
            ∙ take-append (length second) second _ refl)
      ∙ append_assoc (take k b) first second
