-- ===== src/Tests/Idles.antt =====
-- idletiming at concrete inputs: a connection with an idle timeout of 10.
use plampshade.Base.{
  ℕ, ◌≤◌, length, ◌≡◌, refl, true, false, List, [], ◌∷◌, Option, none, some, arith,
}
use plampshade.Idle.{
  is_timeout, IdleConn, IoCall, IoError, returned, timeout, new_conn, fired, is_active, close,
  do_read, do_write, timer_round, check_closed, check_closed_first_time, io_loop, io_checked,
  mark_active,
}
use plampshade.Idle.Timer.{Call, reads, writes, closes, rounds, step, run}
use plampshade.Idle.Idling.{Idles, timer_round-Idles}
use plampshade.Idle.Pausing.{Beat, IsPrompt, beats, beats-awake}
use plampshade.Idle.Transfer.{Takes, Completes, do_write-Completes}

abbrev gone : IdleConn
gone = record {
  idle_timeout = 10;
  last_activity_time = 3;
  idled = true;
  has_read_after_idle = false;
  read_deadline = none;
  write_deadline = none;
  active = false;
  closed_token = true;
  closed = true;
  conn_closes = 1;
  running = false;
  fires_at = 13;
  on_idle_calls = 1;
}

abbrev alive : IdleConn
alive = record gone { idled = false; closed = false }

-- Data came at 4 and was noted at 5; nothing came until 15.
abbrev one_read : List IoCall
one_read = record { now = 4; answer = λ b. (2, none); after = 4 } ∷ []

timer_round-Idles_example :
    Idles
      (rounds 15 fired)
      (run (reads one_read [] ∷ (rounds 5 is_active ∷ [])) (new_conn 10 0))
      (step (rounds 15 fired) (run (reads one_read [] ∷ (rounds 5 is_active ∷ [])) (new_conn 10 0)))
unfolding step run new_conn do_read io_checked io_loop mark_active check_closed_first_time
    timer_round close is_timeout
timer_round-Idles_example =
    timer_round-Idles 10 0 (reads one_read [] ∷ (rounds 5 is_active ∷ [])) (rounds 15 fired) refl
      refl

-- It idles at 15, and is then written to, read twice, and closed.
abbrev idled_conn : IdleConn
idled_conn = run (reads one_read [] ∷ (rounds 5 is_active ∷ (rounds 15 fired ∷ []))) (new_conn 10 0)

abbrev later_calls : List Call
later_calls = writes [] (1 ∷ []) ∷ (reads [] [] ∷ (reads [] [] ∷ (closes ∷ [])))

-- A call that takes up to two bytes, and times out if there are more.
abbrev up_to_two : List ℕ → ℕ × Option IoError
up_to_two [] = (0, none)
up_to_two (x ∷ []) = (1, none)
up_to_two (x ∷ (y ∷ [])) = (2, none)
up_to_two (x ∷ (y ∷ (z ∷ b))) = (2, some timeout)

up_to_two-fits :
    (b : List ℕ)
    → ((up_to_two b).0 ≤ length b) × ((up_to_two b).1 ≡ none → (up_to_two b).0 ≡ length b)
up_to_two-fits [] = (omega arith, λ e. refl)
up_to_two-fits (x ∷ []) = (omega arith, λ e. refl)
up_to_two-fits (x ∷ (y ∷ [])) = (omega arith, λ e. refl)
up_to_two-fits (x ∷ (y ∷ (z ∷ b))) = (omega arith, λ e. cc)

up_to_two-moves : (b : List ℕ) → (up_to_two b).0 ≡ 0 → is_timeout (up_to_two b).1 ≡ false
unfolding is_timeout
up_to_two-moves [] e = refl
up_to_two-moves (x ∷ []) e = refl
up_to_two-moves (x ∷ (y ∷ [])) e = refl
up_to_two-moves (x ∷ (y ∷ (z ∷ b))) e = absurd (omega arith)

-- Three bytes: a timeout of our own deadline behind two of them, and the last one.
abbrev four_calls : List IoCall
four_calls =
    record { now = 0; answer = up_to_two; after = 5 }
    ∷ (record { now = 5; answer = up_to_two; after = 6 }
        ∷ (record { now = 6; answer = up_to_two; after = 6 }
            ∷ (record { now = 7; answer = up_to_two; after = 7 } ∷ [])))

do_write-Completes_example :
    (n : ℕ) × (err : Option IoError) × ((do_write four_calls (7 ∷ (8 ∷ (9 ∷ []))) alive).1
      ≡ returned n err)
    × Takes four_calls (7 ∷ (8 ∷ (9 ∷ []))) n
    × Completes 3 (returned n err)
unfolding check_closed
do_write-Completes_example =
    do_write-Completes four_calls (7 ∷ (8 ∷ (9 ∷ []))) alive refl
      (up_to_two-fits, (up_to_two-fits, (up_to_two-fits, (up_to_two-fits, tt))))
      (up_to_two-moves, (up_to_two-moves, (up_to_two-moves, (up_to_two-moves, tt)))) (omega arith)

-- Paused at 0: the first tick at 5 is taken at 7, the second one at 10, after a read.
abbrev two_beats : List Beat
two_beats =
    record { ops = rounds 6 fired ∷ []; seen = 7 }
    ∷ (record { ops = reads one_read [] ∷ (rounds 9 is_active ∷ []); seen = 10 } ∷ [])

beats-awake_example :
    ((beats two_beats (new_conn 10 0)).idled ≡ false)
    × ((beats two_beats (new_conn 10 0)).running ≡ true)
unfolding new_conn IsPrompt
beats-awake_example =
    beats-awake two_beats 0 2 (new_conn 10 0) (omega arith) refl refl (omega arith) (
      (omega arith, tt),
      omega arith,
      omega arith,
      ((tt, (omega arith, tt)), omega arith, omega arith, tt),
    )
