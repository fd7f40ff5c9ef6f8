-- ===== src/Flow/Control.antt =====
-- One direction of a stream: the window of its sender, the frames under way, and the receive
-- buffer, as a step relation. The ACKs that the buffer sent stay in its log until they are applied.
use plampshade.Base.{
  ℕ, suc, ◌+◌, ◌/◌, ◌<◌, ◌≡◌, refl, sym, ap, ◌∙◌, Bool, true, false, not, ◌&&◌, List, [], ◌∷◌, ◌≢◌,
  if◌then◌else◌, length, arith, if_rule,
}
use plampshade.Base.Int.{ℤ, pos, negsuc, pos_part, neg_part, ◌+ℤ◌, ◌-ℤ◌}
use plampshade.Flow.{
  Window, new_window, add, sub, ReceiveBuffer, new_receive_buffer, do_submit, read, read_loop, Wait,
}
use plampshade.Flow.Counts.{
  sum, arriving, accounted, Accounts, read-Accounts, read-unacked, do_submit-Accounts,
}

pub record State : Type 0 where
  pub window : Window
  -- Whether `sendLoop` waits for the window with a frame in hand.
  pub stalled : Bool
  pub in_flight : ℕ
  pub buf : ReceiveBuffer

abbrev pub initial : ℕ → State
initial window_size = record {
  window = new_window window_size;
  stalled = false;
  in_flight = 0;
  buf = new_receive_buffer window_size;
}

-- `sendLoop` takes a frame: it goes out at once, or waits for the window.
unfoldable pub send_frame : State → State
send_frame s =
    let (w, now) = sub (pos 1) s.window in
    if now
    then record s { window = w; in_flight = s.in_flight + 1 }
    else record s { window = w; stalled = true }

-- An ACK comes back: `stream.ack`. The signal lets the waiting frame go out.
unfoldable pub take_ack : ℕ → List ℕ → State → State
take_ack n rest s =
    let (w, signal) = add (pos n) s.window in
    let s' : State = record s { window = w; buf = record s.buf { acks = rest } } in
    if signal then record s' { stalled = false; in_flight = s.in_flight + 1 } else s'

pub data Step : State → State → Type 0 where
  sends : (s : State) → s.stalled ≡ false → Step s (send_frame s)
  -- A frame reaches the receive buffer, which has taken it.
  submits :
      (s : State) (frame : List ℕ) (n : ℕ)
      → s.in_flight ≡ suc n
      → (do_submit frame s.buf).1 ≡ true
      → Step s (record s { in_flight = n; buf = (do_submit frame s.buf).0 })
  -- A read that leaves the buffer open; the frames that came while it waited were under way.
  reads :
      (s : State) (picks_ack : Bool) (waits : List Wait) (past : Bool) (room left : ℕ)
      → (read picks_ack waits past room s.buf).progress.buf.is_closed ≡ false
      → left + arriving waits ≡ s.in_flight + arriving (read picks_ack waits past room s.buf).unused
      → Step s
          (record s { in_flight = left; buf = (read picks_ack waits past room s.buf).progress.buf })
  acknowledges :
      (s : State) (n : ℕ) (rest : List ℕ) → s.buf.acks ≡ n ∷ rest → Step s (take_ack n rest s)

pub data Reachable (window_size : ℕ) : State → Type 0 where
  starts : Reachable window_size (initial window_size)
  then_step : (s t : State) → Reachable window_size s → Step s t → Reachable window_size t

abbrev flag : Bool → ℕ
flag true = 1
flag false = 0

-- Every frame of the window is free, under way, or accounted for by the buffer.
pub record Balanced (window_size : ℕ) (s : State) : Type 0 where
  pub balance : pos_part s.window.size + s.in_flight + accounted s.buf ≡ window_size
  pub below : neg_part s.window.size ≡ flag s.stalled
  pub interval : s.buf.ack_interval ≡ (window_size + 9) / 10
  pub capacity : s.buf.window_size ≡ window_size
  pub is_open : s.buf.is_closed ≡ false

sub-parts :
    (w : Window)
    → neg_part w.size ≡ 0
    → (pos_part (sub (pos 1) w).0.size + flag (sub (pos 1) w).1 ≡ pos_part w.size)
      × (neg_part (sub (pos 1) w).0.size ≡ flag (not (sub (pos 1) w).1))
unfolding sub ◌-ℤ◌
sub-parts w h = ground arith

add-parts :
    (n : ℕ) (w : Window) (stalled : Bool)
    → neg_part w.size ≡ flag stalled
    → (pos_part (add (pos n) w).0.size + flag (add (pos n) w).1 ≡ pos_part w.size + n)
      × (neg_part (add (pos n) w).0.size ≡ flag (stalled && not (add (pos n) w).1))
unfolding add ◌+ℤ◌
add-parts n w stalled h = ground arith

send_frame-Balanced :
    (window_size : ℕ) (s : State)
    → s.stalled ≡ false
    → Balanced window_size s
    → Balanced window_size (send_frame s)
unfolding send_frame
send_frame-Balanced window_size s h b =
    let none_below : neg_part s.window.size ≡ 0 = b.below ∙ ap flag h in
    let (pos_of, neg_of) = sub-parts s.window none_below in
    let now = (sub (pos 1) s.window).1 in
    if_rule (Balanced window_size) now
      (λ e. record {
        balance = omega (arith, b.balance, pos_of, ap flag e);
        below = neg_of ∙ ap (λ x. flag (not x)) e ∙ sym (ap flag h);
        interval = b.interval;
        capacity = b.capacity;
        is_open = b.is_open;
      })
      (λ e. record {
        balance = omega (arith, b.balance, pos_of, ap flag e);
        below = neg_of ∙ ap (λ x. flag (not x)) e;
        interval = b.interval;
        capacity = b.capacity;
        is_open = b.is_open;
      })

take_ack-Balanced :
    (window_size n : ℕ) (rest : List ℕ) (s : State)
    → s.buf.acks ≡ n ∷ rest
    → Balanced window_size s
    → Balanced window_size (take_ack n rest s)
unfolding take_ack
take_ack-Balanced window_size n rest s h b =
    let (pos_of, neg_of) = add-parts n s.window s.stalled b.below in
    let signal = (add (pos n) s.window).1 in
    if_rule (Balanced window_size) signal
      (λ e. record {
        balance = omega (arith, b.balance, pos_of, ap flag e, ap sum h);
        below = neg_of ∙ ap (λ x. flag (s.stalled && not x)) e ∙ ground arith;
        interval = b.interval;
        capacity = b.capacity;
        is_open = b.is_open;
      })
      (λ e. record {
        balance = omega (arith, b.balance, pos_of, ap flag e, ap sum h);
        below = neg_of ∙ ap (λ x. flag (s.stalled && not x)) e ∙ ground arith;
        interval = b.interval;
        capacity = b.capacity;
        is_open = b.is_open;
      })

-- The queue has room for every frame that is under way.
room_for-in_flight :
    (window_size n : ℕ) (s : State)
    → Balanced window_size s
    → s.in_flight ≡ suc n
    → length s.buf.queue < s.buf.window_size
room_for-in_flight window_size n s b h = omega (arith, b.balance, b.capacity, h)

rebuffered :
    (window_size left new unused : ℕ) (s : State) (buf : ReceiveBuffer)
    → Accounts s.buf buf new unused
    → buf.is_closed ≡ false
    → left + new ≡ s.in_flight + unused
    → Balanced window_size s
    → Balanced window_size (record s { in_flight = left; buf = buf })
rebuffered window_size left new unused s buf a o h b = record {
  balance = omega (arith, b.balance, a.kept, h);
  below = b.below;
  interval = a.interval ∙ b.interval;
  capacity = a.capacity ∙ b.capacity;
  is_open = o;
}

do_submit-is_closed :
    (frame : List ℕ) (buf : ReceiveBuffer) → (do_submit frame buf).0.is_closed ≡ buf.is_closed
unfolding do_submit
do_submit-is_closed frame buf = ground arith

Step-Balanced :
    (window_size : ℕ) (s t : State) → Step s t → Balanced window_size s → Balanced window_size t
Step-Balanced window_size _ _ (sends s h) b = send_frame-Balanced window_size s h b
Step-Balanced window_size _ _ (submits s frame n h k) b =
    let (a, taken) =
      do_submit-Accounts frame s.buf b.is_open (room_for-in_flight window_size n s b h) in
    rebuffered window_size n 1 0 s (do_submit frame s.buf).0 a
      (do_submit-is_closed frame s.buf ∙ b.is_open) (omega (arith, h)) b
Step-Balanced window_size _ _ (reads s picks_ack waits past room left o h) b =
    rebuffered window_size left (arriving waits)
      (arriving (read picks_ack waits past room s.buf).unused) s
      (read picks_ack waits past room s.buf).progress.buf
      (read-Accounts picks_ack waits past room s.buf o) o h b
Step-Balanced window_size _ _ (acknowledges s n rest h) b =
    take_ack-Balanced window_size n rest s h b

pub Reachable-Balanced :
    (window_size : ℕ) (s : State) → Reachable window_size s → Balanced window_size s
unfolding new_window new_receive_buffer
Reachable-Balanced window_size _ starts = record {
  balance = omega arith;
  below = refl;
  interval = refl;
  capacity = refl;
  is_open = refl;
}
Reachable-Balanced window_size _ (then_step s t r st) =
    Step-Balanced window_size s t st (Reachable-Balanced window_size s r)

-- Whatever sequence of sends, deliveries, reads and ACKs led here, the receive buffer of an open
-- stream takes a frame that is under way at once: the session's receive loop never blocks on it.
pub do_submit-never_blocks :
    (window_size n : ℕ) (s : State) (frame : List ℕ)
    → Reachable window_size s
    → s.in_flight ≡ suc n
    → (do_submit frame s.buf).1 ≡ true
do_submit-never_blocks window_size n s frame r h =
    let b = Reachable-Balanced window_size s r in
    (do_submit-Accounts frame s.buf b.is_open (room_for-in_flight window_size n s b h)).1

read-unused :
    (picks_ack past : Bool) (room : ℕ) (buf : ReceiveBuffer)
    → (read picks_ack [] past room buf).unused ≡ []
unfolding read read_loop
read-unused picks_ack past room buf = refl

one_sign : (z : ℤ) → neg_part z ≡ 1 → pos_part z ≡ 0
one_sign (pos n) h = absurd (omega arith)
one_sign (negsuc n) h = refl

-- If the sender of a non-empty window waits, nothing is under way and the reader has read all,
-- then after its next read there is an ACK on its way.
pub read-acknowledges :
    (window_size room : ℕ) (picks_ack past : Bool) (s : State)
    → Reachable window_size s
    → 0 < window_size
    → s.stalled ≡ true
    → s.in_flight ≡ 0
    → (read picks_ack [] past room s.buf).progress.buf.is_closed ≡ false
    → (read picks_ack [] past room s.buf).progress.buf.queue ≡ []
    → (read picks_ack [] past room s.buf).progress.buf.acks ≢ []
read-acknowledges window_size room picks_ack past s r w st fl o q none_sent =
    let b = Reachable-Balanced window_size s r in
    let a = read-Accounts picks_ack [] past room s.buf o in
    let few = read-unacked picks_ack [] past room s.buf (omega (arith, b.interval)) in
    omega (
      arith,
      b.balance,
      b.below,
      b.interval,
      ap flag st,
      fl,
      one_sign s.window.size (b.below ∙ ap flag st),
      a.kept,
      ap arriving (read-unused picks_ack past room s.buf),
      ap (length {A = List ℕ}) q,
      ap sum none_sent,
      few,
    )
