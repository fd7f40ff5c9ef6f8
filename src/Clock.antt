-- ===== src/Clock.antt =====
-- mtime/mtime.go: instants of the monotonic clock and the durations between them. Both are 64-bit
-- words: a duration stands by its bit pattern, and `signed` is the integer that it means.
use plampshade.Base.{ℕ, ◌+◌, ◌-◌, ◌%◌, ◌^◌, ◌≤◌, ◌<◌, ◌≡◌, arith, ltb, if◌then◌else◌}
use plampshade.Base.Int.{ℤ, pos, negsuc, ◌-ℤ◌}

-- `Instant.Add`
unfoldable pub add : ℕ → ℕ → ℕ
add i d = (i + d) % 2 ^ 64

-- `Instant.Sub`
unfoldable pub sub : ℕ → ℕ → ℕ
sub i o = (i + 2 ^ 64 - o) % 2 ^ 64

-- `Stopwatch`: what the function that it returned gives at the instant `now`.
unfoldable pub elapsed : ℕ → ℕ → ℕ
unfolding sub
elapsed start now = sub now start

abbrev signed : ℕ → ℤ
signed w = if ltb w (2 ^ 63) then pos w else negsuc (2 ^ 64 - w - 1)

-- A duration that is added is what the difference gives, and the difference of two instants leads
-- from one to the other, across a wrap of the clock too; between instants less than 2^63 apart it
-- is the signed difference.
sub-add :
    (i o near d : ℕ)
    → i < 2 ^ 64
    → o < 2 ^ 64
    → near < 2 ^ 64
    → d < 2 ^ 64
    → i < near + 2 ^ 63
    → near ≤ i + 2 ^ 63
    → (sub (add i d) i ≡ d) × (add i (sub o i) ≡ o) × (signed (sub i near) ≡ pos i -ℤ pos near)
unfolding add sub ◌-ℤ◌
sub-add i o near d hi ho hn hd h k = (omega arith, omega arith, ground arith)
