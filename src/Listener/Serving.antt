-- ===== src/Listener/Serving.antt =====
-- listener.go: `onConn` and `doOnConn`, call by call: the pause of idle timing, the deadline, the
-- reads, the report and the closes. A time is in nanoseconds. What the reads of the connection
-- give is a parameter, and `age`, `contains` and `decrypt` are those of `do_on_conn`.
use plampshade.Base.{ℕ, ◌+◌, ◌≤◌, ◌≡◌, Bool, true, false, List, [], ◌∷◌, Option, none, some}
use plampshade.Conn.{Conn}
use plampshade.Context.{defined}
use plampshade.Crypto.{CryptoSpec}
use plampshade.Idle.{IdleConn}
use plampshade.Idle.Layers.{Layer, pause_target}
use plampshade.Listener.{OnConn, fails, starts_session, crashes, Opts, do_on_conn}

-- `io.ReadFull` of the message and `io.Copy` to `ioutil.Discard`, by the read deadline and the
-- time of the call: the message, if there is no error, and the time at which they return.
pub record Reads : Type 0 where
  pub read_full : Option ℕ → ℕ → Option (List ℕ) × ℕ
  pub discard : Option ℕ → ℕ → ℕ

-- A connection as the listener leaves it: the time, the read deadline, whether idle timing is
-- paused, the times at which it was closed and errors were reported, the keys added to the cache
-- and the session started with it.
pub record Served : Type 0 where
  pub now : ℕ
  pub read_deadline : Option ℕ
  pub paused : Bool
  pub closes : List ℕ
  pub errors : List ℕ
  pub keys : List (List ℕ)
  pub session : Option (ℕ × ℕ × CryptoSpec)

abbrev pub just_accepted : ℕ → Served
just_accepted start = record {
  now = start;
  read_deadline = none;
  paused = false;
  closes = [];
  errors = [];
  keys = [];
  session = none;
}

-- `Pause` of the connection with idle timing that the walk finds; without any,
-- `unpauseIdleTiming` stays empty.
unfoldable pub pause_idle_timing : Option IdleConn → Served → Served
pause_idle_timing none s = s
pause_idle_timing (some c) s = record s { paused = true }

unfoldable pub unpause_idle_timing : Option IdleConn → Served → Served
unpause_idle_timing none s = s
unpause_idle_timing (some c) s = record s { paused = false }

unfoldable pub close_conn : Served → Served
close_conn s = record s { closes = s.now ∷ s.closes }

-- `consumeInboundTillDeadlineThenFail`.
unfoldable pub consume_inbound : Reads → Option IdleConn → Served → Served
unfolding close_conn
consume_inbound net idle s =
    let consumed = record s { now = net.discard s.read_deadline s.now } in
    let cleared = record consumed { read_deadline = none } in
    let reported = record cleared { errors = cleared.now ∷ cleared.errors } in
    close_conn (unpause_idle_timing idle reported)

-- What follows the checks; `onConn` closes a connection once more that `doOnConn` refused.
unfoldable pub conclude : Reads → Option IdleConn → OnConn → Served → Served
conclude net idle fails s = close_conn (consume_inbound net idle s)
conclude net idle (starts_session w p cs) s =
    record (unpause_idle_timing idle (record s { read_deadline = none })) {
      session = some (w, p, cs);
    }
conclude net idle crashes s = s

-- `onConn`, with the `doOnConn` that it calls.
unfoldable pub on_conn :
    Reads
    → ℕ
    → Opts
    → (Option ℕ → ℕ)
    → (List ℕ → Bool)
    → (List ℕ → Option (List ℕ))
    → Conn Layer
    → ℕ
    → Served
on_conn net timeout opts age contains decrypt conn start =
    let idle = pause_target conn in
    let s = pause_idle_timing idle (just_accepted start) in
    let deadline = some (start + timeout) in
    let (msg, now) = net.read_full deadline s.now in
    let (keys, outcome) = do_on_conn opts age contains decrypt msg in
    conclude net idle outcome (record s { read_deadline = deadline; now = now; keys = keys })

-- The reads under a deadline `d` end at `ends d` at the latest, when the deadline passes or the
-- other side sends no more, and at no time before it where they take whatever comes.
pub record EndsAt (net : Reads) (ends : ℕ → ℕ) : Type 0 where
  pub read_full_ends : (d now : ℕ) → now ≤ ends d → (net.read_full (some d) now).1 ≤ ends d
  pub discard_ends : (d now : ℕ) → now ≤ ends d → net.discard (some d) now ≡ ends d

-- A connection that was refused at a time.
abbrev pub refused : ℕ → Served
refused t = record {
  now = t;
  read_deadline = none;
  paused = false;
  closes = t ∷ (t ∷ []);
  errors = t ∷ [];
  keys = [];
  session = none;
}

abbrev pub Serves : ℕ → Option IdleConn → OnConn → Served → Type 0
Serves t idle fails s = s ≡ refused t
Serves t idle (starts_session w p cs) s =
    (s.session ≡ some (w, p, cs))
    × (s.now ≤ t)
    × (s.closes ≡ [])
    × (s.errors ≡ [])
    × (s.read_deadline ≡ none)
    × (s.paused ≡ false)
Serves t idle crashes s =
    (s.session ≡ none) × (s.now ≤ t) × (s.closes ≡ []) × (s.errors ≡ []) × (s.paused ≡ defined idle)
