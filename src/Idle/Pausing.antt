-- ===== src/Idle/Pausing.antt =====
-- How `Pause` keeps a connection from idling: its ticks make the goroutine of `Conn` set the timer
-- anew.
use plampshade.Base.{
  ℕ, ◌+◌, ◌≤◌, ◌<◌, ◌≡◌, refl, ◌∙◌, Bool, true, false, ◌&&◌, List, [], ◌∷◌, leb, if_rule, arith,
  All,
}
use plampshade.Idle.{
  IdleConn, is_active, fired, is_closed, mark_active, timer_round, pause_round, half_idle_timeout,
}
use plampshade.Idle.Kept.{
  Keeps, mark_active-Keeps, do_read-Keeps, do_write-Keeps, set_deadline-Keeps,
}
use plampshade.Idle.Timer.{Call, reads, writes, closes, sets_deadline, rounds, pauses, step, run}

-- From one tick to the next: what is done until the goroutine has taken the token of the tick, and
-- when it takes it.
pub record Beat : Type 0 where
  pub ops : List Call
  pub seen : ℕ

unfoldable pub beat : Beat → IdleConn → IdleConn
beat b c = step (rounds b.seen is_active) (step (pauses true) (run b.ops c))

unfoldable pub beats : List Beat → IdleConn → IdleConn
beats [] c = c
beats (b ∷ bs) c = beats bs (beat b c)

-- Nobody closes the connection, and the rounds of the goroutine lie between two times.
abbrev pub Within : ℕ → ℕ → Call → Type 0
Within from to (rounds t is_active) = from ≤ t
Within from to (rounds t fired) = t ≤ to
Within from to (rounds t is_closed) = ⊥
Within from to closes = ⊥
Within from to c = Unit

-- The ticks come each half of the idle timeout after `tick`, and the goroutine takes the token of
-- each at most `delay` after it.
unfoldable pub IsPrompt : ℕ → ℕ → ℕ → List Beat → Type 0
IsPrompt half delay tick [] = Unit
IsPrompt half delay tick (b ∷ bs) =
    All (Within tick b.seen) b.ops
    × (tick + half ≤ b.seen)
    × (b.seen ≤ tick + half + delay)
    × IsPrompt half delay (tick + half) bs

-- The goroutine runs, and its timer fires after a time.
record Awake (idle_timeout limit : ℕ) (c : IdleConn) : Type 0 where
  runs : c.running ≡ true
  awake : c.idled ≡ false
  later : limit < c.fires_at
  waits : c.idle_timeout ≡ idle_timeout

Keeps-Awake : (i limit : ℕ) (c d : IdleConn) → Keeps c d → Awake i limit c → Awake i limit d
Keeps-Awake i limit c d k a = record {
  runs = k.running ∙ a.runs;
  awake = k.idled ∙ a.awake;
  later = ground (arith, k.fires_at, a.later);
  waits = k.idle_timeout ∙ a.waits;
}

step-Awake :
    (op : Call) (i from to limit : ℕ) (c : IdleConn)
    → to ≤ limit
    → limit < from + i
    → Within from to op
    → Awake i limit c
    → Awake i limit (step op c)
unfolding step timer_round pause_round
step-Awake (reads calls r) i from to limit c h k w a =
    Keeps-Awake i limit c _ (do_read-Keeps calls r c) a
step-Awake (writes calls r) i from to limit c h k w a =
    Keeps-Awake i limit c _ (do_write-Keeps calls r c) a
step-Awake closes i from to limit c h k w a = absurd w
step-Awake (sets_deadline t) i from to limit c h k w a =
    Keeps-Awake i limit c _ (set_deadline-Keeps t c) a
step-Awake (pauses ticked) i from to limit c h k w a =
    if_rule (λ (r : IdleConn × Bool). Awake i limit r.0) ticked
      (λ e. Keeps-Awake i limit c _ (mark_active-Keeps 1 c) a) (λ e. a)
step-Awake (rounds t is_active) i from to limit c h k w a =
    if_rule (Awake i limit) (c.running && c.active)
      (λ e. record {
        runs = a.runs;
        awake = a.awake;
        later = omega (arith, a.waits, w);
        waits = a.waits;
      })
      (λ e. a)
step-Awake (rounds t fired) i from to limit c h k w a =
    let early : leb c.fires_at t ≡ false = ground (arith, a.later, w) in
    let idle : (c.running && leb c.fires_at t) ≡ false = ground (arith, a.runs) in rw idle a
step-Awake (rounds t is_closed) i from to limit c h k w a = absurd w

run-Awake :
    (ops : List Call) (i from to limit : ℕ) (c : IdleConn)
    → to ≤ limit
    → limit < from + i
    → All (Within from to) ops
    → Awake i limit c
    → Awake i limit (run ops c)
unfolding run
run-Awake [] i from to limit c h k w a = a
run-Awake (op ∷ ops) i from to limit c h k w a =
    run-Awake ops i from to limit (step op c) h k w.1 (step-Awake op i from to limit c h k w.0 a)

beat-Awake :
    (b : Beat) (i tick half delay : ℕ) (c : IdleConn)
    → half + delay < i
    → All (Within tick b.seen) b.ops
    → tick + half ≤ b.seen
    → b.seen ≤ tick + half + delay
    → Awake i (tick + half + delay) c
    → Awake i (tick + half + half + delay) (beat b c)
unfolding beat step timer_round pause_round mark_active
beat-Awake b i tick half delay c h w l u a =
    let d = run b.ops c in
    let a' = run-Awake b.ops i tick b.seen (tick + half + delay) c u (omega arith) w a in
    let runs : (d.running && true) ≡ true = ground (arith, a'.runs) in
    rw runs (record {
      runs = a'.runs;
      awake = a'.awake;
      later = omega (arith, a'.waits);
      waits = a'.waits;
    })

beats-Awake :
    (bs : List Beat) (i half delay tick : ℕ) (c : IdleConn)
    → half + delay < i
    → IsPrompt half delay tick bs
    → Awake i (tick + half + delay) c
    → ((beats bs c).idled ≡ false) × ((beats bs c).running ≡ true)
unfolding beats IsPrompt
beats-Awake [] i half delay tick c h p a = (a.awake, a.runs)
beats-Awake (b ∷ bs) i half delay tick c h (w, l, u, rest) a =
    beats-Awake bs i half delay (tick + half) (beat b c) h rest
      (beat-Awake b i tick half delay c h w l u a)

-- While idle timing is paused, whatever is read, written and set on the connection: if its timer
-- was to fire later than the first tick is taken, ticks come each half of the idle timeout, and
-- each is taken within a delay that is less than the rest of the idle timeout, the connection
-- does not idle and its goroutine runs on.
pub beats-awake :
    (bs : List Beat) (tick delay : ℕ) (c : IdleConn)
    → half_idle_timeout c + delay < c.idle_timeout
    → c.running ≡ true
    → c.idled ≡ false
    → tick + half_idle_timeout c + delay < c.fires_at
    → IsPrompt (half_idle_timeout c) delay tick bs
    → ((beats bs c).idled ≡ false) × ((beats bs c).running ≡ true)
beats-awake bs tick delay c h r e l p =
    beats-Awake bs c.idle_timeout (half_idle_timeout c) delay tick c h p
      (record { runs = r; awake = e; later = l; waits = refl })
