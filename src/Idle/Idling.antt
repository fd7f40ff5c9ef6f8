-- ===== src/Idle/Idling.antt =====
-- When a connection idles: in which operation, and how long after its last activity.
use plampshade.Base.{
  ℕ, ◌+◌, ◌≤◌, ◌≡◌, refl, ap, ◌∙◌, Bool, true, false, ◌&&◌, List, Option, leb, if◌then◌else◌,
  if_rule, arith, true≢false, Bool-cases, inl, inr,
}
use plampshade.Idle.{
  IoError, IdleConn, new_conn, close, is_active, fired, is_closed, timer_round, pause_round,
}
use plampshade.Idle.Kept.{mark_active-Keeps, do_read-Keeps, do_write-Keeps, set_deadline-Keeps}
use plampshade.Idle.Timer.{
  Call, reads, writes, closes, sets_deadline, rounds, pauses, step, run, IsTimed,
  timer_round-IsTimed, run-IsTimed, new_conn-IsTimed,
}

abbrev pub Idles : Call → IdleConn → IdleConn → Type 0
Idles op c d =
    (now : ℕ) × (op ≡ rounds now fired)
    × (c.last_activity_time + c.idle_timeout ≤ now)
    × (d.closed ≡ true)
    × (d.on_idle_calls ≡ 1)

-- No operation but a round in which the timer fires makes a connection idle.
step-Idles :
    (op : Call) (c : IdleConn)
    → IsTimed c
    → c.idled ≡ false
    → (step op c).idled ≡ true
    → Idles op c (step op c)
unfolding step timer_round pause_round
step-Idles (reads calls s) c v b a = true≢false _ a ((do_read-Keeps calls s c).idled ∙ b)
step-Idles (writes calls s) c v b a = true≢false _ a ((do_write-Keeps calls s c).idled ∙ b)
step-Idles closes c v b a = true≢false _ a (
    unfold close in
    (if_rule (λ (r : IdleConn × Option IoError). r.0.idled ≡ c.idled) (c.closed && c.idled)
      (λ e. refl) (λ e. refl))
    ∙ b)
step-Idles (sets_deadline t) c v b a = true≢false _ a ((set_deadline-Keeps t c).idled ∙ b)
step-Idles (rounds now is_active) c v b a = true≢false _ a (
    if_rule (λ (d : IdleConn). d.idled ≡ c.idled) (c.running && c.active) (λ e. refl) (λ e. refl)
    ∙ b)
step-Idles (rounds now is_closed) c v b a = true≢false _ a (
    if_rule (λ (d : IdleConn). d.idled ≡ c.idled) (c.running && c.closed_token) (λ e. refl)
      (λ e. refl)
    ∙ b)
step-Idles (pauses ticked) c v b a = true≢false _ a (
    if_rule (λ (r : IdleConn × Bool). r.0.idled ≡ c.idled) ticked
      (λ e. (mark_active-Keeps 1 c).idled) (λ e. refl)
    ∙ b)
step-Idles (rounds now fired) c v b a = elim (Bool-cases (c.running && leb c.fires_at now)) [
  | inl e ↦
      let w = timer_round-IsTimed now fired c v in
      (
        now,
        refl,
        ground (arith, v.fires),
        w.shut a,
        w.called ∙ ap (λ (b : Bool). if b then 1 else 0) a,
      )
  | inr e ↦ true≢false _ a (
      ap
        (λ (b : Bool).
          (if b
            then record (close c).0 {
              idled = true;
              on_idle_calls = c.on_idle_calls + 1;
              running = false;
            }
            else c).idled)
        e
      ∙ b)
]

-- Whatever is done with a connection, by reads, writes, closes, deadlines, pauses and rounds of its
-- goroutine, it idles in a round only that comes `idle_timeout` or more after its last activity
-- was noted; it is then closed and `onIdle` was called once.
pub timer_round-Idles :
    (idle_timeout start : ℕ) (ops : List Call) (op : Call)
    → (run ops (new_conn idle_timeout start)).idled ≡ false
    → (step op (run ops (new_conn idle_timeout start))).idled ≡ true
    → Idles op
        (run ops (new_conn idle_timeout start))
        (step op (run ops (new_conn idle_timeout start)))
timer_round-Idles idle_timeout start ops op before after =
    let c = run ops (new_conn idle_timeout start) in
    step-Idles op c
      (run-IsTimed ops (new_conn idle_timeout start) (new_conn-IsTimed idle_timeout start)) before
      after
