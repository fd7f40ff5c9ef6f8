-- ===== src/Tests/Uints.antt =====
-- context/gotrack.go: the goroutine id of "goroutine 47 [".
use plampshade.Base.{◌≡◌, refl, [], ◌∷◌, arith, inl, inr}
use plampshade.Uint.{parsed, parse_uint_bytes}
use plampshade.Uint.Goroutine.{codes, id, cur_goroutine_id}
use plampshade.Uint.Trace.{digits_before, decimal, cur_goroutine_id-trace_of}
use plampshade.Uint.Parsing.{parse_uint_bytes-value}

-- "7aF" in base 16
parse_uint_bytes-value_example : parse_uint_bytes (55 ∷ (97 ∷ (70 ∷ []))) 16 64 ≡ parsed 1967
parse_uint_bytes-value_example =
    parse_uint_bytes-value 16 (55, 7) ((97, 10) ∷ ((70, 15) ∷ [])) (omega arith) (omega arith)
      (
        (omega arith, inl (omega arith, refl)),
        (
          (omega arith, inr (omega arith, inl refl)),
          ((omega arith, inr (omega arith, inr refl)), tt),
        ),
      )

cur_goroutine_id-trace_of_example : cur_goroutine_id (codes "goroutine 4707 [running]:") ≡ id 4707
unfolding decimal digits_before
cur_goroutine_id-trace_of_example =
    cur_goroutine_id-trace_of 4707 (codes "[running]:") (omega arith)
