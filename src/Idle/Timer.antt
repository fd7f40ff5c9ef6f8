-- ===== src/Idle/Timer.antt =====
-- The timer of a connection through any sequence of calls and rounds of its goroutine.
use plampshade.Base.{
  drop, ℕ, ◌+◌, ◌≡◌, refl, Bool, true, false, not, ◌&&◌, ◌||◌, List, [], ◌∷◌, Option, none, some,
  ltb, leb, ◌==◌, if◌then◌else◌, if_rule, arith, true≢false,
}
use plampshade.Idle.{
  IoError, IdleConn, IoCall, IoResult, new_conn, check_closed, check_closed_first_time, mark_active,
  close, TimerCase, is_active, fired, is_closed, timer_round, pause_round, set_read_deadline,
  set_write_deadline, set_deadline, io_loop, io_checked, if_open, do_read, do_write, uses_caller,
  hit_max_deadline, half_idle_timeout,
}

pub data Call : Type 0 where
  reads : List IoCall → List ℕ → Call
  writes : List IoCall → List ℕ → Call
  closes : Call
  sets_deadline : Option ℕ → Call
  rounds : ℕ → TimerCase → Call
  pauses : Bool → Call

unfoldable pub step : Call → IdleConn → IdleConn
step (reads calls b) c = (do_read calls b c).0
step (writes calls b) c = (do_write calls b c).0
step closes c = (close c).0
step (sets_deadline t) c = (set_deadline t c).0
step (rounds now case) c = timer_round now case c
step (pauses ticked) c = (pause_round ticked c).0

unfoldable pub run : List Call → IdleConn → IdleConn
run [] c = c
run (op ∷ ops) c = run ops (step op c)

-- The timer fires `idle_timeout` after the last activity; only the goroutine, at its end, makes the
-- connection idle and closed, and calls `onIdle` once.
pub record IsTimed (c : IdleConn) : Type 0 where
  pub fires : c.fires_at ≡ c.last_activity_time + c.idle_timeout
  pub stopped : c.idled ≡ true → c.running ≡ false
  pub shut : c.idled ≡ true → c.closed ≡ true
  pub called : c.on_idle_calls ≡ (if c.idled then 1 else 0)

mark_active-IsTimed : (n : ℕ) (c : IdleConn) → IsTimed c → IsTimed (mark_active n c)
unfolding mark_active
mark_active-IsTimed n c v =
    if_rule IsTimed (ltb 0 n)
      (λ e. record { fires = v.fires; stopped = v.stopped; shut = v.shut; called = v.called })
      (λ e. v)

io_loop-IsTimed :
    (deadline : Option ℕ) (calls : List IoCall) (b : List ℕ) (c : IdleConn)
    → IsTimed c
    → IsTimed (io_loop deadline calls b c).0
unfolding io_loop
io_loop-IsTimed deadline [] b c v = v
io_loop-IsTimed deadline (call ∷ calls) b c v =
    let P = λ (r : IdleConn × IoResult). IsTimed r.0 in
    let (n, err) = call.answer b in
    let c' = mark_active n c in
    let m = mark_active-IsTimed n c v in
    let max_deadline = call.now + half_idle_timeout c in
    let hit = hit_max_deadline err call.after max_deadline in
    if_rule P (uses_caller deadline max_deadline) (λ e. m)
      (λ e.
        if_rule P ((n == 0) || not hit) (λ f. m)
          (λ f. io_loop-IsTimed deadline calls (drop n b) c' m))

pub timer_round-IsTimed :
    (now : ℕ) (case : TimerCase) (c : IdleConn) → IsTimed c → IsTimed (timer_round now case c)
unfolding timer_round close
timer_round-IsTimed now is_active c v =
    if_rule IsTimed (c.running && c.active)
      (λ e. record { fires = refl; stopped = v.stopped; shut = v.shut; called = v.called }) (λ e. v)
timer_round-IsTimed now fired c v =
    if_rule IsTimed (c.running && leb c.fires_at now)
      (λ e.
        let awake : c.idled ≡ false = ground (arith, v.stopped) in
        let closes : (c.closed && c.idled) ≡ false = ground arith in
        if_rule
          (λ (r : IdleConn × Option IoError).
            IsTimed
              (record r.0 { idled = true; on_idle_calls = c.on_idle_calls + 1; running = false }))
          (c.closed && c.idled) (λ f. true≢false (c.closed && c.idled) f closes)
          (λ f. record {
            fires = v.fires;
            stopped = λ i. refl;
            shut = λ i. refl;
            called = ground (arith, v.called);
          }))
      (λ e. v)
timer_round-IsTimed now is_closed c v =
    if_rule IsTimed (c.running && c.closed_token)
      (λ e. record { fires = v.fires; stopped = λ i. refl; shut = v.shut; called = v.called })
      (λ e. v)

close-IsTimed : (c : IdleConn) → IsTimed c → IsTimed (close c).0
unfolding close
close-IsTimed c v =
    if_rule (λ (r : IdleConn × Option IoError). IsTimed r.0) (c.closed && c.idled) (λ e. v)
      (λ e. record { fires = v.fires; stopped = v.stopped; shut = λ i. refl; called = v.called })

check_closed_first_time-IsTimed : (c : IdleConn) → IsTimed c → IsTimed (check_closed_first_time c).0
unfolding check_closed_first_time
check_closed_first_time-IsTimed c v =
    let P = λ (r : IdleConn × Option IoError). IsTimed r.0 in
    if_rule P (c.closed && c.idled)
      (λ e.
        if_rule P c.has_read_after_idle (λ r. v)
          (λ r. record { fires = v.fires; stopped = v.stopped; shut = v.shut; called = v.called }))
      (λ e. v)

io_checked-IsTimed :
    (deadline : Option ℕ) (calls : List IoCall) (b : List ℕ) (r : IdleConn × Option IoError)
    → IsTimed r.0
    → IsTimed (io_checked deadline calls b r).0
unfolding io_checked
io_checked-IsTimed deadline calls b (c, some e) v = v
io_checked-IsTimed deadline calls b (c, none) v = io_loop-IsTimed deadline calls b c v

if_open-IsTimed :
    (c' : IdleConn) (r : IdleConn × Option IoError)
    → IsTimed r.0
    → IsTimed c'
    → IsTimed (if_open c' r).0
unfolding if_open
if_open-IsTimed c' (c, some e) v w = v
if_open-IsTimed c' (c, none) v w = w

set_deadline-IsTimed : (t : Option ℕ) (c : IdleConn) → IsTimed c → IsTimed (set_deadline t c).0
unfolding set_deadline set_read_deadline set_write_deadline
set_deadline-IsTimed t c v =
    let reading =
      if_open-IsTimed (record c { read_deadline = t }) (c, check_closed c) v
        (record { fires = v.fires; stopped = v.stopped; shut = v.shut; called = v.called }) in
    let c' = (set_read_deadline t c).0 in
    let writing =
      if_open-IsTimed (record c' { write_deadline = t }) (c', check_closed c') reading
        (record {
          fires = reading.fires;
          stopped = reading.stopped;
          shut = reading.shut;
          called = reading.called;
        }) in
    if_open-IsTimed (set_write_deadline t c').0 (c, check_closed c) v writing

pub step-IsTimed : (op : Call) (c : IdleConn) → IsTimed c → IsTimed (step op c)
unfolding step do_read do_write pause_round
step-IsTimed (reads calls b) c v =
    io_checked-IsTimed c.read_deadline calls b _ (check_closed_first_time-IsTimed c v)
step-IsTimed (writes calls b) c v =
    io_checked-IsTimed c.write_deadline calls b (c, check_closed c) v
step-IsTimed closes c v = close-IsTimed c v
step-IsTimed (sets_deadline t) c v = set_deadline-IsTimed t c v
step-IsTimed (rounds now case) c v = timer_round-IsTimed now case c v
step-IsTimed (pauses ticked) c v =
    if_rule (λ (r : IdleConn × Bool). IsTimed r.0) ticked (λ e. mark_active-IsTimed 1 c v) (λ e. v)

pub run-IsTimed : (ops : List Call) (c : IdleConn) → IsTimed c → IsTimed (run ops c)
unfolding run
run-IsTimed [] c v = v
run-IsTimed (op ∷ ops) c v = run-IsTimed ops (step op c) (step-IsTimed op c v)

pub new_conn-IsTimed : (idle_timeout now : ℕ) → IsTimed (new_conn idle_timeout now)
unfolding new_conn
new_conn-IsTimed idle_timeout now = record {
  fires = omega arith;
  stopped = λ i. cc;
  shut = λ i. cc;
  called = refl;
}
