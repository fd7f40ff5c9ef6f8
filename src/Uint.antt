-- ===== src/Uint.antt =====
-- context/gotrack.go: `parseUintBytes`, which reads the id of a goroutine off its stack trace, and
-- `cutoff64`. A byte is its ASCII code; a `*strconv.NumError` is the value and the error it wraps.
pub mod Parsing
pub mod Goroutine
pub mod Trace
use plampshade.Base.{
  ℕ, zero, suc, ◌+◌, ◌-◌, ◌*◌, ◌/◌, ◌%◌, ◌^◌, Bool, true, false, ◌&&◌, ◌||◌, List, [], ◌∷◌, Option,
  none, some, ltb, leb, ◌==◌, if◌then◌else◌,
}

pub data ParseError : Type 0 where
  syntax_error : ParseError
  range_error : ParseError
  invalid_base : ParseError

pub data Parsed : Type 0 where
  parsed : ℕ → Parsed
  failed : ℕ → ParseError → Parsed

-- The `uint64` arithmetic of the second argument is `(1<<64 - 1) / base + 1`.
unfoldable pub cutoff64 : ℕ → ℕ
cutoff64 base = if ltb base 2 then 0 else (2 ^ 64 - 1) / base + 1

-- The digit of a byte, or none.
unfoldable pub digit : ℕ → Option ℕ
digit d =
    if leb 48 d && leb d 57
    then some (d - 48)
    else (if leb 97 d && leb d 122
        then some (d - 97 + 10)
        else (if leb 65 d && leb d 90 then some (d - 65 + 10) else none))

-- What the body of the loop makes of the number so far and a digit: the next number, or an error.
unfoldable pub add_digit : ℕ → ℕ → ℕ → ℕ → Option ℕ
unfolding cutoff64
add_digit base max_val n v =
    let shifted = n * base % 2 ^ 64 in
    let n1 = (shifted + v) % 2 ^ 64 in
    if leb (cutoff64 base) n
    then none
    else (if ltb n1 shifted || ltb max_val n1 then none else some n1)

unfoldable pub parse_digits : ℕ → ℕ → ℕ → List ℕ → Parsed
parse_digits base max_val n [] = parsed n
parse_digits base max_val n (d ∷ s) = elim (digit d) [
  | none ↦ failed 0 syntax_error
  | some v ↦ if leb base v then failed 0 syntax_error else (elim (add_digit base max_val n v) [
    | none ↦ failed (2 ^ 64 - 1) range_error
    | some n1 ↦ parse_digits base max_val n1 s
  ])
]

-- The bit size that 0 stands for.
abbrev pub int_size : ℕ
int_size = 64

-- `1<<uint(bitSize) - 1` on 64 bits.
unfoldable pub max_of : ℕ → ℕ
max_of bit_size = (2 ^ (if bit_size == 0 then int_size else bit_size) + 2 ^ 64 - 1) % 2 ^ 64

-- The base 0 looks for a prefix.
unfoldable pub parse_prefixed : ℕ → List ℕ → Parsed
parse_prefixed max_val [] = failed 0 syntax_error
parse_prefixed max_val (c ∷ []) =
    if c == 48 then parse_digits 8 max_val 0 (c ∷ []) else parse_digits 10 max_val 0 (c ∷ [])
parse_prefixed max_val (c ∷ (x ∷ s)) =
    if (c == 48) && ((x == 120) || (x == 88))
    then elim s [ [] ↦ failed 0 syntax_error | y ∷ ys ↦ parse_digits 16 max_val 0 (y ∷ ys) ]
    else (if c == 48
        then parse_digits 8 max_val 0 (c ∷ (x ∷ s))
        else parse_digits 10 max_val 0 (c ∷ (x ∷ s)))

unfoldable pub parse_uint_bytes : List ℕ → ℕ → ℕ → Parsed
parse_uint_bytes [] base bit_size = failed 0 syntax_error
parse_uint_bytes (c ∷ s) base bit_size =
    if leb 2 base && leb base 36
    then parse_digits base (max_of bit_size) 0 (c ∷ s)
    else (if base == 0 then parse_prefixed (max_of bit_size) (c ∷ s) else failed 0 invalid_base)
