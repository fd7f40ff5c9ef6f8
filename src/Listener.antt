-- ===== src/Listener.antt =====
-- listener.go: the checks that a listener makes of a new connection, and its accept loop. A
-- duration is in nanoseconds. The cache of keys is the parameter `contains`, which reads it, and
-- the list of the keys added to it.
pub mod Checks
pub mod Options
pub mod Serving
pub mod Accepting
pub mod Accounts
use plampshade.Base.{
  ℕ, zero, suc, ◌+◌, ◌-◌, ◌*◌, ◌%◌, ◌^◌, Bool, true, false, not, ◌&&◌, List, [], ◌∷◌, ◌++◌, Option,
  none, some, ltb, ◌==◌, if◌then◌else◌,
}
use plampshade.Crypto.{
  Result, returned, error, panicked, CryptoSpec, reversed, decode_client_init_msg,
}

-- What `doOnConn` does with the connection: it consumes the input until the deadline and fails,
-- it starts a session, or it panics.
pub data OnConn : Type 0 where
  fails : OnConn
  starts_session : ℕ → ℕ → CryptoSpec → OnConn
  crashes : OnConn

-- The zero time is 62135596800 seconds before the Unix epoch.
abbrev pub is_zero : Option ℕ → Bool
is_zero none = true
is_zero (some t) = t == 2 ^ 64 - 62135596800

pub record Opts : Type 0 where
  pub max_client_init_age : ℕ
  -- Whether there is a cache of keys.
  pub caches : Bool

-- The test for an old message. `age` is `time.Now().Sub(ts)`.
unfoldable pub is_old : Opts → (Option ℕ → ℕ) → Option ℕ → Bool
is_old opts age ts = not (is_zero ts) && ltb opts.max_client_init_age (age ts)

-- The checks of a decoded message: the keys added to the cache, and what is done.
unfoldable pub check_decoded :
    Opts → (Option ℕ → ℕ) → (List ℕ → Bool) → ℕ × ℕ × CryptoSpec × Option ℕ → List (List ℕ) × OnConn
check_decoded opts age contains (window_size, max_padding, cs, ts) =
    let accepted = starts_session window_size max_padding (reversed cs) in
    if is_old opts age ts
    then ([], fails)
    else (if opts.caches
        then (if contains cs.secret then ([], fails) else (cs.secret ∷ [], accepted))
        else ([], accepted))

-- `doOnConn`. The message is none where `io.ReadFull` gave an error.
unfoldable pub do_on_conn :
    Opts
    → (Option ℕ → ℕ)
    → (List ℕ → Bool)
    → (List ℕ → Option (List ℕ))
    → Option (List ℕ)
    → List (List ℕ) × OnConn
do_on_conn opts age contains decrypt none = ([], fails)
do_on_conn opts age contains decrypt (some msg) = elim (decode_client_init_msg decrypt msg) [
  | returned decoded ↦ check_decoded opts age contains decoded
  | error ↦ ([], fails)
  | panicked ↦ ([], crashes)
]

abbrev pub millisecond : ℕ
millisecond = 1000000

abbrev pub second : ℕ
second = 1000 * millisecond

-- The new `tempDelay` after a temporary error.
unfoldable pub back_off : ℕ → ℕ
back_off delay =
    let doubled = if delay == 0 then 5 * millisecond else delay * 2 in
    if ltb second doubled then second else doubled

-- What `Accept` returns to `process`.
pub data Accepted : Type 0 where
  conn : ℕ → Accepted
  temporary : Accepted
  permanent : Accepted

-- `process`: the connections handed to `onConn`, and the delays it slept, in order.
unfoldable pub process : List Accepted → ℕ → List ℕ × List ℕ
process [] delay = ([], [])
process (conn c ∷ results) delay = let (cs, ds) = process results 0 in (c ∷ cs, ds)
process (temporary ∷ results) delay =
    let next = back_off delay in let (cs, ds) = process results next in (cs, next ∷ ds)
process (permanent ∷ results) delay = ([], [])
