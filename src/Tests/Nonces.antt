-- ===== src/Tests/Nonces.antt =====
-- crypto.go at concrete inputs: nonces and packets, with exclusive or digit by digit, and in
-- place of the AEADs one that puts a tag of one byte in front.
use Prim.Native.Nat.{bit_xor, bit_xor-bitwise, differ, digits}
use plampshade.Base.{
  ℕ, zero, suc, ◌+◌, ◌*◌, ◌/◌, ◌%◌, ◌≤◌, ◌<◌, ◌≡◌, ◌≢◌, refl, ap, ◌∙◌, List, [], ◌∷◌, All, arith,
  replicate,
}
use plampshade.Wire.Laws.{IsByte}
use plampshade.Crypto.{returned}
use plampshade.Crypto.Nonce.{
  Cancels, Generator, nonce_generator, nonce_number, nonce_number-distinct,
}

abbrev xor_digits : ℕ → ℕ → ℕ → ℕ
xor_digits n a b = digits (λ y. y) differ n a b

xor_digits_fuel : (n m a b : ℕ) → a ≤ n → a ≤ m → xor_digits n a b ≡ xor_digits m a b
xor_digits_fuel zero zero a b p q = refl
xor_digits_fuel zero (suc m) zero b p q = refl
xor_digits_fuel zero (suc m) (suc a) b p q = absurd (omega arith)
xor_digits_fuel (suc n) zero zero b p q = refl
xor_digits_fuel (suc n) zero (suc a) b p q = absurd (omega arith)
xor_digits_fuel (suc n) (suc m) zero b p q = refl
xor_digits_fuel (suc n) (suc m) (suc a) b p q =
    omega (arith, xor_digits_fuel n m (suc a / 2) (b / 2) (omega arith) (omega arith))

differ-lt : (x y : ℕ) → x < 2 → y < 2 → differ x y < 2
differ-lt zero y h k = k
differ-lt (suc zero) zero h k = omega arith
differ-lt (suc zero) (suc y) h k = omega arith
differ-lt (suc (suc x)) y h k = absurd (omega arith)

differ-differ : (x y : ℕ) → x < 2 → y < 2 → differ x (differ x y) ≡ y
differ-differ zero y h k = refl
differ-differ (suc zero) zero h k = refl
differ-differ (suc zero) (suc zero) h k = refl
differ-differ (suc zero) (suc (suc y)) h k = absurd (omega arith)
differ-differ (suc (suc x)) y h k = absurd (omega arith)

bit_xor_step : (a b : ℕ) → bit_xor a b ≡ bit_xor (a / 2) (b / 2) * 2 + differ (a % 2) (b % 2)
bit_xor_step zero b = omega (arith, bit_xor-bitwise 0 b, bit_xor-bitwise 0 (b / 2))
bit_xor_step (suc a) b = omega (
  arith,
  bit_xor-bitwise (suc a) b,
  bit_xor-bitwise (suc a / 2) (b / 2),
  xor_digits_fuel a (suc a / 2) (suc a / 2) (b / 2) (omega arith) (omega arith),
)

bit_xor_twice : (n a b : ℕ) → a ≤ n → bit_xor a (bit_xor a b) ≡ b
bit_xor_twice zero zero b h = bit_xor-bitwise 0 (bit_xor 0 b) ∙ bit_xor-bitwise 0 b
bit_xor_twice zero (suc a) b h = absurd (omega arith)
bit_xor_twice (suc n) zero b h = bit_xor-bitwise 0 (bit_xor 0 b) ∙ bit_xor-bitwise 0 b
bit_xor_twice (suc n) (suc a) b h =
    let a' = suc a / 2 in
    let x = bit_xor (suc a) b in
    let step = bit_xor_step (suc a) b in
    let last = differ-lt (suc a % 2) (b % 2) (omega arith) (omega arith) in
    let front : x / 2 ≡ bit_xor a' (b / 2) = omega (arith, step, last) in
    let back : x % 2 ≡ differ (suc a % 2) (b % 2) = omega (arith, step, last) in
    let again : bit_xor a' (x / 2) ≡ b / 2 =
      ap (bit_xor a') front ∙ bit_xor_twice n a' (b / 2) (omega arith) in
    let digit : differ (suc a % 2) (x % 2) ≡ b % 2 =
      ap (differ (suc a % 2)) back
      ∙ differ-differ (suc a % 2) (b % 2) (omega arith) (omega arith) in
    omega (arith, bit_xor_step (suc a) x, again, digit)

abbrev pub xor_all : List ℕ → List ℕ → List ℕ
xor_all [] b = []
xor_all (x ∷ a) [] = []
xor_all (x ∷ a) (y ∷ b) = bit_xor x y ∷ xor_all a b

xor_all-Cancels : Cancels xor_all
xor_all-Cancels [] [] ha hb h = refl
xor_all-Cancels [] (y ∷ b) ha hb h = absurd (omega arith)
xor_all-Cancels (x ∷ a) [] ha hb h = absurd (omega arith)
xor_all-Cancels (x ∷ a) (y ∷ b) ha hb h =
    λ i. bit_xor_twice x x y (omega arith) i ∷ xor_all-Cancels a b ha.1 hb.1 (omega arith) i

twelve-IsByte : All IsByte (replicate 12 9)
twelve-IsByte = (
  omega arith,
  (
    omega arith,
    (
      omega arith,
      (
        omega arith,
        (
          omega arith,
          (
            omega arith,
            (
              omega arith,
              (omega arith, (omega arith, (omega arith, (omega arith, (omega arith, tt))))),
            ),
          ),
        ),
      ),
    ),
  ),
)

nonce_number-distinct_example :
    (g : Generator) × (nonce_generator (replicate 12 9) ≡ returned g)
    × (nonce_number xor_all 3 g ≢ nonce_number xor_all 256 g)
nonce_number-distinct_example =
    nonce_number-distinct xor_all (replicate 12 9) 3 256 xor_all-Cancels twelve-IsByte (omega arith)
      (omega arith) (omega arith)
