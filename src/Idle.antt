-- ===== src/Idle.antt =====
-- idletiming/idletiming_conn.go: a connection that closes itself when it is idle. Times are
-- nanoseconds on one clock; a deadline is `none` where the code has the zero time. `mtime` and the
-- wall clock are the argument `now`. Locks leave no trace.
pub mod Layers
pub mod Timer
pub mod Kept
pub mod Pausing
pub mod Accepting
pub mod Idling
pub mod Closed
pub mod Transfer
use plampshade.Base.{
  ℕ, ◌+◌, ◌-◌, ◌*◌, ◌/◌, Bool, true, false, not, ◌&&◌, List, [], ◌∷◌, ◌++◌, Option, none, some, ltb,
  leb, ◌==◌, ◌||◌, if◌then◌else◌, length, take, drop,
}

pub data IoError : Type 0 where
  eof : IoError
  -- `ErrIdled`
  idled_error : IoError
  -- A `net.Error` whose `Timeout` is true.
  timeout : IoError
  other : ℕ → IoError

-- `IdleTimingConn`. The channels `activeCh` and `closedCh` hold one token at most.
pub record IdleConn : Type 0 where
  pub idle_timeout : ℕ
  pub last_activity_time : ℕ
  pub idled : Bool
  pub has_read_after_idle : Bool
  pub read_deadline : Option ℕ
  pub write_deadline : Option ℕ
  pub active : Bool
  pub closed_token : Bool
  pub closed : Bool
  -- How often the wrapped connection was closed.
  pub conn_closes : ℕ
  -- The goroutine of `Conn`: whether it runs, and when its timer fires.
  pub running : Bool
  pub fires_at : ℕ
  -- The calls of `onIdle`.
  pub on_idle_calls : ℕ

-- `Conn`
unfoldable pub new_conn : ℕ → ℕ → IdleConn
new_conn idle_timeout now = record {
  idle_timeout = idle_timeout;
  last_activity_time = now;
  idled = false;
  has_read_after_idle = false;
  read_deadline = none;
  write_deadline = none;
  active = false;
  closed_token = false;
  closed = false;
  conn_closes = 0;
  running = true;
  fires_at = now + idle_timeout;
  on_idle_calls = 0;
}

-- `checkClosed`
unfoldable pub check_closed : IdleConn → Option IoError
check_closed c = if c.closed && c.idled then some idled_error else none

-- `checkClosedFirstTime` with `hasReadAfterIdle` and `io.EOF`.
unfoldable pub check_closed_first_time : IdleConn → IdleConn × Option IoError
check_closed_first_time c =
    if c.closed && c.idled
    then (if c.has_read_after_idle
        then (c, some idled_error)
        else (record c { has_read_after_idle = true }, some eof))
    else (c, none)

unfoldable pub mark_active : ℕ → IdleConn → IdleConn
mark_active n c = if ltb 0 n then record c { active = true } else c

-- `Close`, less the result of the wrapped connection's `Close`.
unfoldable pub close : IdleConn → IdleConn × Option IoError
close c =
    if c.closed && c.idled
    then (c, some idled_error)
    else (record c { closed = true; closed_token = true; conn_closes = c.conn_closes + 1 }, none)

-- The cases of the `select` in the goroutine of `Conn`.
pub data TimerCase : Type 0 where
  is_active : TimerCase
  fired : TimerCase
  is_closed : TimerCase

-- One round of the goroutine at the time `now`. A case that is not ready changes nothing.
unfoldable pub timer_round : ℕ → TimerCase → IdleConn → IdleConn
timer_round now is_active c =
    if c.running && c.active
    then record c { active = false; fires_at = now + c.idle_timeout; last_activity_time = now }
    else c
timer_round now fired c =
    if c.running && leb c.fires_at now
    then record (close c).0 { idled = true; on_idle_calls = c.on_idle_calls + 1; running = false }
    else c
timer_round now is_closed c =
    if c.running && c.closed_token then record c { closed_token = false; running = false } else c

-- One round of the goroutine of `Pause`, by whether its ticker fired or the function that `Pause`
-- returned was called; the second result is whether the goroutine goes on.
unfoldable pub pause_round : Bool → IdleConn → IdleConn × Bool
pause_round ticked c = if ticked then (mark_active 1 c, true) else (c, false)

-- `TimesOutIn`, for a result that is not negative.
unfoldable pub times_out_in : ℕ → IdleConn → ℕ
times_out_in now c = c.idle_timeout - (now - c.last_activity_time)

-- What an operation on an open connection gives, by the result of the check in front of it.
unfoldable pub if_open : IdleConn → IdleConn × Option IoError → IdleConn × Option IoError
if_open c' (c, some e) = (c, some e)
if_open c' (c, none) = (c', none)

unfoldable pub set_read_deadline : Option ℕ → IdleConn → IdleConn × Option IoError
set_read_deadline t c = if_open (record c { read_deadline = t }) (c, check_closed c)

unfoldable pub set_write_deadline : Option ℕ → IdleConn → IdleConn × Option IoError
set_write_deadline t c = if_open (record c { write_deadline = t }) (c, check_closed c)

-- `SetDeadline`; errors of the two setters are only logged.
unfoldable pub set_deadline : Option ℕ → IdleConn → IdleConn × Option IoError
set_deadline t c = if_open (set_write_deadline t (set_read_deadline t c).0).0 (c, check_closed c)

-- A call of `Read` or `Write` on the wrapped connection: the time before it, the number of bytes
-- and the error that it returns for a slice, and the time after it.
pub record IoCall : Type 0 where
  pub now : ℕ
  pub answer : List ℕ → ℕ × Option IoError
  pub after : ℕ

unfoldable pub is_timeout : Option IoError → Bool
is_timeout none = false
is_timeout (some timeout) = true
is_timeout (some eof) = false
is_timeout (some idled_error) = false
is_timeout (some (other e)) = false

abbrev pub half_idle_timeout : IdleConn → ℕ
half_idle_timeout c = c.idle_timeout / 2

-- The test for the caller's deadline, and the deadline that is set on the wrapped connection.
abbrev pub uses_caller : Option ℕ → ℕ → Bool
uses_caller none max_deadline = false
uses_caller (some d) max_deadline = not (ltb max_deadline d)

-- `hitMaxDeadline`, at a deadline of our own.
abbrev pub hit_max_deadline : Option IoError → ℕ → ℕ → Bool
hit_max_deadline err after max_deadline = is_timeout err && leb max_deadline after

-- What the loop of `doRead` and `doWrite` ends with: `totalN` and the error. `blocks` is a call on
-- the wrapped connection that has not returned, where the list of calls ends.
pub data IoResult : Type 0 where
  returned : ℕ → Option IoError → IoResult
  blocks : IoResult

abbrev pub plus : ℕ → IoResult → IoResult
plus n (returned m err) = returned (n + m) err
plus n blocks = blocks

-- The loop, with the deadline of the caller and the slice `b`.
unfoldable pub io_loop : Option ℕ → List IoCall → List ℕ → IdleConn → IdleConn × IoResult
io_loop deadline [] b c = (c, blocks)
io_loop deadline (call ∷ calls) b c =
    let max_deadline = call.now + half_idle_timeout c in
    let (n, err) = call.answer b in
    let hit = hit_max_deadline err call.after max_deadline in
    let c' = mark_active n c in
    let (c'', rest) = io_loop deadline calls (drop n b) c' in
    if uses_caller deadline max_deadline
    then (c', returned n err)
    else (if (n == 0) || not hit
        then (c', returned n (if hit then none else err))
        else (c'', plus n rest))

-- The loop, by the result of the check in front of it.
unfoldable pub io_checked :
    Option ℕ → List IoCall → List ℕ → IdleConn × Option IoError → IdleConn × IoResult
io_checked deadline calls b (c, some e) = (c, returned 0 (some e))
io_checked deadline calls b (c, none) = io_loop deadline calls b c

unfoldable pub do_read : List IoCall → List ℕ → IdleConn → IdleConn × IoResult
do_read calls b c = io_checked c.read_deadline calls b (check_closed_first_time c)

unfoldable pub do_write : List IoCall → List ℕ → IdleConn → IdleConn × IoResult
do_write calls b c = io_checked c.write_deadline calls b (c, check_closed c)
