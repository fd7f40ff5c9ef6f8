-- ===== src/Uint/Parsing.antt =====
-- context/gotrack.go: the number that a string of digits stands for, and what parsing makes of it.
use native.Mathlib.Nat.{le-div_iff_mul-le, mul-le-mul_left}
use plampshade.Base.{
  ℕ, ◌+◌, ◌-◌, ◌*◌, ◌/◌, ◌%◌, ◌^◌, ◌≤◌, ◌<◌, ◌≡◌, refl, true, false, ◌&&◌, ◌||◌, List, [], ◌∷◌,
  none, some, ltb, leb, ◌↔◌, ◌⊎◌, if◌then◌else◌, All, arith, Bool-cases, inl, inr,
}
use plampshade.Uint.{
  Parsed, parsed, failed, range_error, cutoff64, digit, add_digit, parse_digits, max_of,
  parse_uint_bytes,
}

-- The ASCII code d of the digit with the value v: from "0" on for ten digits, and for the others
-- from "a" or from "A" on.
abbrev pub IsDigit : ℕ → ℕ × ℕ → Type 0
IsDigit base (d, v) =
    (v < base)
    × (((v < 10) × (d ≡ 48 + v)) ⊎ ((10 ≤ v) × ((d ≡ 97 + (v - 10)) ⊎ (d ≡ 65 + (v - 10)))))

digit-IsDigit : (base d v : ℕ) → base ≤ 36 → IsDigit base (d, v) → digit d ≡ some v
unfolding digit
digit-IsDigit base d v h (hv, inl (few, e)) = ground arith
digit-IsDigit base d v h (hv, inr (many, inl e)) = ground arith
digit-IsDigit base d v h (hv, inr (many, inr e)) = ground arith

-- Their value behind a number.
abbrev pub value_from : ℕ → ℕ → List (ℕ × ℕ) → ℕ
value_from base n [] = n
value_from base n ((d, v) ∷ s) = value_from base (n * base + v) s

-- The product does not overflow: neither does the test for the sum go wrong.
sum-exact :
    (p v : ℕ)
    → v < 36
    → p < 2 ^ 64
    → (if ltb ((p % 2 ^ 64 + v) % 2 ^ 64) (p % 2 ^ 64)
          || ltb (2 ^ 64 - 1) ((p % 2 ^ 64 + v) % 2 ^ 64)
        then none
        else some ((p % 2 ^ 64 + v) % 2 ^ 64))
      ≡ (if ltb (p + v) (2 ^ 64) then some (p + v) else none)
sum-exact p v hv hp =
    let e : p % 2 ^ 64 ≡ p = omega arith in
    rw e (elim (Bool-cases (ltb (p + v) (2 ^ 64))) [
      | inl h ↦ let s : (p + v) % 2 ^ 64 ≡ p + v = ground arith in rw (s, h) (ground arith)
      | inr h ↦ let s : (p + v) % 2 ^ 64 ≡ p + v - 2 ^ 64 = ground arith in rw (s, h) (ground arith)
    ])

-- Adding a digit is exact, or an error just when the result is above 2^64 - 1.
add_digit-exact :
    (base n v : ℕ)
    → 2 ≤ base
    → base ≤ 36
    → v < base
    → add_digit base (2 ^ 64 - 1) n v
      ≡ (if ltb (n * base + v) (2 ^ 64) then some (n * base + v) else none)
unfolding add_digit cutoff64
add_digit-exact base n v h2 h36 hv =
    let fits : (n ≤ (2 ^ 64 - 1) / base) ↔ (n * base ≤ 2 ^ 64 - 1) =
      le-div_iff_mul-le (omega arith) in
    let proper : ltb base 2 ≡ false = ground arith in
    rw proper (elim (Bool-cases (leb ((2 ^ 64 - 1) / base + 1) n)) [
      | inl h ↦
          let wide : ltb (n * base + v) (2 ^ 64) ≡ false =
            elim (Bool-cases (leb (n * base) (2 ^ 64 - 1))) [
              | inl small ↦
                  (let few : n ≤ (2 ^ 64 - 1) / base = fits.1 (ground arith) in ground arith)
              | inr large ↦ ground arith
            ] in
          rw (h, wide) refl
      | inr h ↦
          let narrow : n * base ≤ 2 ^ 64 - 1 = fits.0 (ground arith) in
          rw h (sum-exact (n * base) v (omega arith) (omega (arith, narrow)))
    ])

abbrev pub text : List (ℕ × ℕ) → List ℕ
text [] = []
text ((d, v) ∷ s) = d ∷ text s

value_from-ge : (base n : ℕ) (s : List (ℕ × ℕ)) → 2 ≤ base → n ≤ value_from base n s
value_from-ge base n [] h = omega arith
value_from-ge base n ((d, v) ∷ s) h =
    let grows : n * 1 ≤ n * base = mul-le-mul_left n (omega arith) in
    omega (arith, grows, value_from-ge base (n * base + v) s h)

-- The value, if it fits 64 bits.
abbrev pub in_range : ℕ → Parsed
in_range n = if ltb n (2 ^ 64) then parsed n else failed (2 ^ 64 - 1) range_error

parse_digits-value :
    (base n : ℕ) (s : List (ℕ × ℕ))
    → 2 ≤ base
    → base ≤ 36
    → n < 2 ^ 64
    → All (IsDigit base) s
    → parse_digits base (2 ^ 64 - 1) n (text s) ≡ in_range (value_from base n s)
unfolding parse_digits
parse_digits-value base n [] h2 h36 hn ds =
    let fits : ltb n (2 ^ 64) ≡ true = ground arith in rw fits refl
parse_digits-value base n ((d, v) ∷ s) h2 h36 hn ((hv, at), ds) =
    let e = digit-IsDigit base d v h36 (hv, at) in
    let small : leb base v ≡ false = ground arith in
    let exact = add_digit-exact base n v h2 h36 hv in
    rw (e, parse_digits, small, exact)
      (elim (Bool-cases (ltb (n * base + v) (2 ^ 64))) [
        | inl fits ↦ rw fits (parse_digits-value base (n * base + v) s h2 h36 (ground arith) ds)
        | inr wide ↦
            let more = value_from-ge base (n * base + v) s h2 in
            let out : ltb (value_from base (n * base + v) s) (2 ^ 64) ≡ false =
              ground (arith, more) in
            rw (wide, out) refl
      ])

-- With a base from 2 to 36 and 64 bits, a non-empty string of digits of that base, 0 to 9 and
-- behind them A to Z or a to z, is parsed as its value when that is below 2^64, and is a range error
-- otherwise: the checks for overflow are exact.
pub parse_uint_bytes-value :
    (base : ℕ) (first : ℕ × ℕ) (s : List (ℕ × ℕ))
    → 2 ≤ base
    → base ≤ 36
    → All (IsDigit base) (first ∷ s)
    → parse_uint_bytes (text (first ∷ s)) base 64 ≡ in_range (value_from base 0 (first ∷ s))
unfolding parse_uint_bytes max_of
parse_uint_bytes-value base (d, v) s h2 h36 ds =
    let known : (leb 2 base && leb base 36) ≡ true = ground arith in
    rw known (parse_digits-value base 0 ((d, v) ∷ s) h2 h36 (omega arith) ds)
