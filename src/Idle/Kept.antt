-- ===== src/Idle/Kept.antt =====
-- What reads, writes and the setting of deadlines keep of a connection: its timer.
use plampshade.Base.{
  drop, ℕ, ◌+◌, ◌≡◌, refl, ◌∙◌, not, ◌&&◌, ◌||◌, List, [], ◌∷◌, Option, none, some, ltb, ◌==◌,
  if_rule,
}
use plampshade.Idle.{
  IoError, IdleConn, IoCall, IoResult, check_closed, check_closed_first_time, mark_active,
  set_read_deadline, set_write_deadline, set_deadline, io_loop, io_checked, if_open, do_read,
  do_write, uses_caller, hit_max_deadline, half_idle_timeout,
}

pub record Keeps (c d : IdleConn) : Type 0 where
  pub idled : d.idled ≡ c.idled
  pub running : d.running ≡ c.running
  pub fires_at : d.fires_at ≡ c.fires_at
  pub idle_timeout : d.idle_timeout ≡ c.idle_timeout

keeps : (c : IdleConn) → Keeps c c
keeps c = record { idled = refl; running = refl; fires_at = refl; idle_timeout = refl }

Keeps-trans : (c d e : IdleConn) → Keeps c d → Keeps d e → Keeps c e
Keeps-trans c d e h k = record {
  idled = k.idled ∙ h.idled;
  running = k.running ∙ h.running;
  fires_at = k.fires_at ∙ h.fires_at;
  idle_timeout = k.idle_timeout ∙ h.idle_timeout;
}

pub mark_active-Keeps : (n : ℕ) (c : IdleConn) → Keeps c (mark_active n c)
unfolding mark_active
mark_active-Keeps n c =
    if_rule (Keeps c) (ltb 0 n)
      (λ e. record { idled = refl; running = refl; fires_at = refl; idle_timeout = refl })
      (λ e. keeps c)

io_loop-Keeps :
    (deadline : Option ℕ) (calls : List IoCall) (b : List ℕ) (c : IdleConn)
    → Keeps c (io_loop deadline calls b c).0
unfolding io_loop
io_loop-Keeps deadline [] b c = keeps c
io_loop-Keeps deadline (call ∷ calls) b c =
    let P = λ (r : IdleConn × IoResult). Keeps c r.0 in
    let (n, err) = call.answer b in
    let c' = mark_active n c in
    let m = mark_active-Keeps n c in
    let max_deadline = call.now + half_idle_timeout c in
    let hit = hit_max_deadline err call.after max_deadline in
    if_rule P (uses_caller deadline max_deadline) (λ e. m)
      (λ e.
        if_rule P ((n == 0) || not hit) (λ f. m)
          (λ f.
            Keeps-trans c c' (io_loop deadline calls (drop n b) c').0 m
              (io_loop-Keeps deadline calls (drop n b) c')))

io_checked-Keeps :
    (deadline : Option ℕ) (calls : List IoCall) (b : List ℕ) (c : IdleConn)
    (r : IdleConn × Option IoError)
    → Keeps c r.0
    → Keeps c (io_checked deadline calls b r).0
unfolding io_checked
io_checked-Keeps deadline calls b c (d, some e) h = h
io_checked-Keeps deadline calls b c (d, none) h =
    Keeps-trans c d (io_loop deadline calls b d).0 h (io_loop-Keeps deadline calls b d)

check_closed_first_time-Keeps : (c : IdleConn) → Keeps c (check_closed_first_time c).0
unfolding check_closed_first_time
check_closed_first_time-Keeps c =
    let P = λ (r : IdleConn × Option IoError). Keeps c r.0 in
    if_rule P (c.closed && c.idled)
      (λ e.
        if_rule P c.has_read_after_idle (λ r. keeps c)
          (λ r. record { idled = refl; running = refl; fires_at = refl; idle_timeout = refl }))
      (λ e. keeps c)

pub do_read-Keeps :
    (calls : List IoCall) (b : List ℕ) (c : IdleConn) → Keeps c (do_read calls b c).0
unfolding do_read
do_read-Keeps calls b c =
    io_checked-Keeps c.read_deadline calls b c (check_closed_first_time c)
      (check_closed_first_time-Keeps c)

pub do_write-Keeps :
    (calls : List IoCall) (b : List ℕ) (c : IdleConn) → Keeps c (do_write calls b c).0
unfolding do_write
do_write-Keeps calls b c = io_checked-Keeps c.write_deadline calls b c (c, check_closed c) (keeps c)

if_open-Keeps :
    (c c' : IdleConn) (r : IdleConn × Option IoError)
    → Keeps c r.0
    → Keeps c c'
    → Keeps c (if_open c' r).0
unfolding if_open
if_open-Keeps c c' (d, some e) h k = h
if_open-Keeps c c' (d, none) h k = k

pub set_deadline-Keeps : (t : Option ℕ) (c : IdleConn) → Keeps c (set_deadline t c).0
unfolding set_deadline set_read_deadline set_write_deadline
set_deadline-Keeps t c =
    let c' = (set_read_deadline t c).0 in
    let reading =
      if_open-Keeps c (record c { read_deadline = t }) (c, check_closed c) (keeps c)
        (record { idled = refl; running = refl; fires_at = refl; idle_timeout = refl }) in
    if_open-Keeps c (set_write_deadline t c').0 (c, check_closed c) (keeps c)
      (if_open-Keeps c (record c' { write_deadline = t }) (c', check_closed c') reading
        (record {
          idled = reading.idled;
          running = reading.running;
          fires_at = reading.fires_at;
          idle_timeout = reading.idle_timeout;
        }))
