-- ===== src/Uint/Trace.antt =====
-- context/gotrack.go: the id that the Go runtime writes is the one that `curGoroutineID` reads.
use plampshade.Base.{
  ℕ, zero, suc, ◌+◌, ◌-◌, ◌*◌, ◌/◌, ◌%◌, ◌^◌, ◌≤◌, ◌<◌, ◌≡◌, refl, ap, ◌∙◌, Bool-cases, inl, inr,
  true, false, List, [], ◌∷◌, ◌++◌, some, ltb, ◌==◌, if◌then◌else◌, if_rule, length, take,
  take-append, All, arith,
}
use plampshade.Uint.{digit, parse_uint_bytes}
use plampshade.Uint.Parsing.{IsDigit, value_from, text, in_range, parse_uint_bytes-value}
use plampshade.Uint.Goroutine.{
  goroutine_space, space, trim_prefix, index_byte, id, identified, read_id, cur_goroutine_id,
}

-- The decimal digits of a number of so many at most, with their codes, before other ones.
unfoldable pub digits_before : ℕ → ℕ → List (ℕ × ℕ) → List (ℕ × ℕ)
digits_before zero n ds = ds
digits_before (suc f) n ds =
    let last : ℕ × ℕ = (n % 10 + 48, n % 10) in
    let more = digits_before f (n / 10) (last ∷ ds) in if ltb n 10 then last ∷ ds else more

-- A number below 2^64 in decimal.
unfoldable pub decimal : ℕ → List (ℕ × ℕ)
decimal n = digits_before 20 n []

-- 10 ^ f
abbrev power_of_ten : ℕ → ℕ
power_of_ten zero = 1
power_of_ten (suc f) = 10 * power_of_ten f

power_of_ten-pos : (f n : ℕ) → 10 ≤ n → n < power_of_ten (suc f) → 0 < f
power_of_ten-pos zero n h k = absurd (omega arith)
power_of_ten-pos (suc f) n h k = omega arith

digits_before-value :
    (f n : ℕ) (ds : List (ℕ × ℕ))
    → n < power_of_ten f
    → 0 < f
    → value_from 10 0 (digits_before f n ds) ≡ value_from 10 n ds
unfolding digits_before
digits_before-value zero n ds h p = absurd (omega arith)
digits_before-value (suc f) n ds h p = elim (Bool-cases (ltb n 10)) [
  | inl e ↦ let one : 0 * 10 + n % 10 ≡ n = ground arith in rw e (ap (λ k. value_from 10 k ds) one)
  | inr e ↦
      let large : 10 ≤ n = ground arith in
      let f_pos : 0 < f = power_of_ten-pos f n large h in
      let same : n / 10 * 10 + n % 10 ≡ n = omega arith in
      rw e (
        digits_before-value f (n / 10) ((n % 10 + 48, n % 10) ∷ ds) (omega arith) f_pos
        ∙ ap (λ k. value_from 10 k ds) same)
]

digits_before-IsDigit :
    (f n : ℕ) (ds : List (ℕ × ℕ)) → All (IsDigit 10) ds → All (IsDigit 10) (digits_before f n ds)
unfolding digits_before
digits_before-IsDigit zero n ds a = a
digits_before-IsDigit (suc f) n ds a =
    let last : IsDigit 10 (n % 10 + 48, n % 10) = (omega arith, inl (omega arith, omega arith)) in
    if_rule (All (IsDigit 10)) (ltb n 10) (λ e. (last, a))
      (λ e. digits_before-IsDigit f (n / 10) ((n % 10 + 48, n % 10) ∷ ds) (last, a))

length-digits_before : (f n : ℕ) (ds : List (ℕ × ℕ)) → length (digits_before f n ds) ≤ f + length ds
unfolding digits_before
length-digits_before zero n ds = omega arith
length-digits_before (suc f) n ds =
    let more = length-digits_before f (n / 10) ((n % 10 + 48, n % 10) ∷ ds) in ground (arith, more)

digits_before-ge : (f n : ℕ) (ds : List (ℕ × ℕ)) → length ds ≤ length (digits_before f n ds)
unfolding digits_before
digits_before-ge zero n ds = omega arith
digits_before-ge (suc f) n ds =
    let more = digits_before-ge f (n / 10) ((n % 10 + 48, n % 10) ∷ ds) in ground (arith, more)

digits_before-pos : (f n : ℕ) → 0 < length (digits_before (suc f) n [])
unfolding digits_before
digits_before-pos f n =
    let more = digits_before-ge f (n / 10) ((n % 10 + 48, n % 10) ∷ []) in ground (arith, more)

length-text : (ds : List (ℕ × ℕ)) → length (text ds) ≡ length ds
length-text [] = refl
length-text ((d, v) ∷ ds) = omega (arith, length-text ds)

parse-text :
    (ds : List (ℕ × ℕ))
    → 0 < length ds
    → All (IsDigit 10) ds
    → parse_uint_bytes (text ds) 10 64 ≡ in_range (value_from 10 0 ds)
parse-text [] h a = absurd (omega arith)
parse-text (d ∷ ds) h a = parse_uint_bytes-value 10 d ds (omega arith) (omega arith) a

-- No digit is a space.
index_byte-text :
    (ds : List (ℕ × ℕ)) (rest : List ℕ)
    → All (IsDigit 10) ds
    → index_byte (text ds ++ (space ∷ rest)) space ≡ some (length ds)
unfolding index_byte
index_byte-text [] rest a = refl
index_byte-text ((d, v) ∷ ds) rest ((e, h), a) =
    let other : (d == space) ≡ false = unfold digit in (ground arith) in
    rw (other, index_byte-text ds rest a) refl

take-over :
    (n : ℕ) (xs ys : List ℕ) → length xs ≤ n → take n (xs ++ ys) ≡ xs ++ take (n - length xs) ys
take-over n [] ys h = ap (λ k. take k ys) (omega arith)
take-over zero (x ∷ xs) ys h = absurd (omega arith)
take-over (suc n) (x ∷ xs) ys h =
    ap (λ zs. x ∷ zs) (take-over n xs ys (omega arith) ∙ ap (λ k. xs ++ take k ys) (omega arith))

-- A stack trace that the runtime writes for a goroutine: "goroutine ", its id in decimal, a space
-- and whatever comes next.
abbrev pub trace_of : ℕ → List ℕ → List ℕ
trace_of n rest = goroutine_space ++ (text (decimal n) ++ (space ∷ rest))

take-pos : (k c : ℕ) (rest : List ℕ) → 0 < k → take k (c ∷ rest) ≡ c ∷ take (k - 1) rest
take-pos zero c rest h = absurd (omega arith)
take-pos (suc k) c rest h = ap (λ j. c ∷ take j rest) (omega arith)

read_id-text :
    (ds : List (ℕ × ℕ)) (rest : List ℕ)
    → 0 < length ds
    → All (IsDigit 10) ds
    → read_id (text ds ++ (space ∷ rest)) ≡ identified (in_range (value_from 10 0 ds))
unfolding read_id
read_id-text ds rest some_digit digits =
    let found = index_byte-text ds rest digits in
    let cut = take-append (length ds) (text ds) (space ∷ rest) (length-text ds) in
    rw (found, read_id, cut) (ap identified (parse-text ds some_digit digits))

cur_goroutine_id-text :
    (ds : List (ℕ × ℕ)) (rest : List ℕ)
    → 0 < length ds
    → length ds ≤ 20
    → All (IsDigit 10) ds
    → cur_goroutine_id (goroutine_space ++ (text ds ++ (space ∷ rest)))
      ≡ identified (in_range (value_from 10 0 ds))
unfolding cur_goroutine_id trim_prefix
cur_goroutine_id-text ds rest some_digit few digits =
    let k = 54 - length (text ds) in
    let kept =
      take-over 54 (text ds) (space ∷ rest) (omega (arith, length-text ds))
      ∙ ap (λ s. text ds ++ s) (take-pos k space rest (omega (arith, length-text ds))) in
    ap (λ s. read_id (trim_prefix (goroutine_space ++ s) goroutine_space)) kept
    ∙ read_id-text ds (take (k - 1) rest) some_digit digits

-- On a goroutine whose id is below 2^64, whatever the runtime writes behind the id, the number that
-- is read off the first 64 bytes of the trace is that id.
pub cur_goroutine_id-trace_of :
    (n : ℕ) (rest : List ℕ) → n < 2 ^ 64 → cur_goroutine_id (trace_of n rest) ≡ id n
unfolding decimal
cur_goroutine_id-trace_of n rest h =
    let fits : ltb n (2 ^ 64) ≡ true = ground arith in
    cur_goroutine_id-text (digits_before 20 n []) rest (digits_before-pos 19 n)
      (omega (arith, length-digits_before 20 n [])) (digits_before-IsDigit 20 n [] tt)
    ∙ rw (digits_before-value 20 n [] (omega arith) (omega arith), fits) refl
