-- ===== src/SendBuffer/Returns.antt =====
-- sendbuffer.go: `sendLoop` comes to an end once the buffer is closed.
use mathlib.Core.Path.{subst}
use plampshade.Base.{
  ℕ, zero, suc, ◌≡◌, refl, sym, ap, ◌∙◌, Bool, true, false, List, [], ◌∷◌, ◌++◌, length, arith,
  Bool-cases, inl, inr, if_rule, true≢false,
}
use plampshade.Wire.{with_frame_type, type_rst}
use plampshade.Base.Int.{pos, neg_part, ◌+ℤ◌, ◌-ℤ◌}
use plampshade.Flow.{add, sub, new_window}
use plampshade.SendBuffer.{
  Hand, idle, held, writing, writing_rst, done, SendBuffer, new_send_buffer, Event, takes, acks,
  written, requests_close, closes, step, on_taken, on_take, take_frame, finish, on_written, emit,
  on_window, on_request, on_close, send_loop,
}
use plampshade.SendBuffer.Order.{framed, rst_of}
use plampshade.SendBuffer.Acks.{
  Credit, grown, step-Credit, send_loop-Credit, new_send_buffer-Credit,
}
use plampshade.SendBuffer.Flush.{send_loop-flushes}

-- A round takes a frame, waits for an ACK if it must, and writes. The last one finds the end of
-- the closed channel, and may write the RST.
abbrev pub rounds : ℕ → List Event
rounds zero = takes ∷ (written ∷ [])
rounds (suc n) = takes ∷ (acks 1 ∷ (written ∷ rounds n))

-- The close of the buffer, the end of what the loop has in hand, and the rounds.
abbrev pub ending : Bool → ℕ → List Event
ending rst n = requests_close rst ∷ (closes ∷ (acks 1 ∷ (written ∷ rounds n)))

-- The loop has returned, with the frames that were accepted, and no timeout that was not there.
abbrev Ends : SendBuffer → Hand × SendBuffer → Type 0
Ends b (h, b') = (h ≡ done) × (b'.accepted ≡ b.accepted) × (b'.close_timed_out ≡ b.close_timed_out)

send_loop-append :
    (events more : List Event) (h : Hand) (b : SendBuffer)
    → send_loop (events ++ more) h b
      ≡ send_loop more (send_loop events h b).0 (send_loop events h b).1
unfolding send_loop
send_loop-append [] more h b = refl
send_loop-append (e ∷ events) more h b = send_loop-append events more (step e h b).0 (step e h b).1

rounds-done : (n : ℕ) (b : SendBuffer) → Ends b (send_loop (rounds n) done b)
unfolding send_loop step on_taken on_window on_written
rounds-done zero b = (refl, refl, refl)
rounds-done (suc n) b =
    let (w, signals) = add (pos 1) b.window in
    let b' = record b { window = w } in
    let rest = rounds-done n b' in
    if_rule (λ h. Ends b (send_loop (rounds n) (on_written h b').0 (on_written h b').1)) signals
      (λ s. rest) (λ s. rest)

abbrev sent_by : List ℕ → List (List ℕ) → SendBuffer → SendBuffer
sent_by frame q b =
    emit (frame ++ b.default_header)
      (record b { window = (add (pos 1) (sub (pos 1) b.window).0).0; queue = q })

-- An ACK makes up for the frame.
sent_by-credit :
    (frame : List ℕ) (q : List (List ℕ)) (b : SendBuffer)
    → neg_part b.window.size ≡ 0
    → neg_part (sent_by frame q b).window.size ≡ 0
unfolding add sub ◌+ℤ◌ ◌-ℤ◌
sent_by-credit frame q b k = ground arith

signalled :
    (b : SendBuffer)
    → neg_part b.window.size ≡ 0
    → (sub (pos 1) b.window).1 ≡ false
    → (add (pos 1) (sub (pos 1) b.window).0).1 ≡ true
unfolding add sub ◌+ℤ◌ ◌-ℤ◌
signalled b k s = ground arith

one_round :
    (events : List Event) (frame : List ℕ) (q : List (List ℕ)) (b : SendBuffer)
    → b.queue ≡ frame ∷ q
    → neg_part b.window.size ≡ 0
    → send_loop (takes ∷ (acks 1 ∷ (written ∷ events))) idle b
      ≡ send_loop events idle (sent_by frame q b)
unfolding send_loop step on_taken on_take take_frame on_window on_written
one_round events frame q b e k =
    let acked = λ (r : Hand × SendBuffer). step (acks 1) r.0 r.1 in
    let after = λ (r : Hand × SendBuffer). on_written (acked r).0 (acked r).1 in
    let goes_on = λ (r : Hand × SendBuffer). send_loop events (after r).0 (after r).1 in
    let w = (sub (pos 1) b.window).0 in
    let b' = record b { window = (add (pos 1) w).0; queue = q } in
    let writes = λ (h : Hand).
      send_loop events (on_written h b').0 (on_written h b').1
      ≡ send_loop events idle (sent_by frame q b) in
    ap (λ s. goes_on (on_take s b)) e
    ∙ if_rule (λ r. goes_on r ≡ send_loop events idle (sent_by frame q b)) (sub (pos 1) b.window).1
        (λ s. if_rule writes (add (pos 1) w).1 (λ a. refl) (λ a. refl))
        (λ s.
          if_rule writes (add (pos 1) w).1 (λ a. refl)
            (λ a. true≢false (add (pos 1) w).1 (signalled b k s) a))

rounds-Ends :
    (q : List (List ℕ)) (b : SendBuffer)
    → b.queue ≡ q
    → b.closing ≡ true
    → neg_part b.window.size ≡ 0
    → Ends b (send_loop (rounds (length q)) idle b)
rounds-Ends [] b e c k =
    unfold send_loop step on_taken on_take finish on_written in
    rw (e, c)
      (elim (Bool-cases b.send_rst) [
        | inl r ↦ rw r (refl, refl, refl)
        | inr r ↦ rw r (refl, refl, refl)
      ])
rounds-Ends (frame ∷ q) b e c k =
    subst (Ends b) (sym (one_round (rounds (length q)) frame q b e k))
      (rounds-Ends q (sent_by frame q b) refl c (sent_by-credit frame q b k))

heard :
    (b : SendBuffer)
    → neg_part b.window.size ≡ 1
    → ((add (pos 1) b.window).1 ≡ true) × (neg_part (add (pos 1) b.window).0.size ≡ 0)
unfolding add ◌+ℤ◌
heard b k = (ground arith, ground arith)

abbrev acked : SendBuffer → SendBuffer
acked b = record b { window = (add (pos 1) b.window).0 }

-- The rounds behind the write of what is in hand after the ACK.
abbrev WrittenEnds : List (List ℕ) → SendBuffer → Hand → Type 0
WrittenEnds q b h =
    Ends b (send_loop (rounds (length q)) (on_written h (acked b)).0 (on_written h (acked b)).1)

-- What the loop has in hand goes out first.
hand-Ends :
    (h : Hand) (q : List (List ℕ)) (b : SendBuffer)
    → b.queue ≡ q
    → b.closing ≡ true
    → Credit h b
    → Ends b (send_loop (acks 1 ∷ (written ∷ rounds (length q))) h b)
unfolding send_loop step on_window on_written
hand-Ends idle q b e c k =
    let rest = rounds-Ends q (acked b) e c (grown 1 b k) in
    if_rule (WrittenEnds q b) (add (pos 1) b.window).1 (λ s. rest) (λ s. rest)
hand-Ends (held frame) q b e c k =
    let (signalled, credit) = heard b k in
    let signals = (add (pos 1) b.window).1 in
    if_rule (WrittenEnds q b) signals
      (λ s. rounds-Ends q (emit (frame ++ b.default_header) (acked b)) e c credit)
      (λ s. true≢false signals signalled s)
hand-Ends (writing frame) q b e c k =
    let rest = rounds-Ends q (emit (frame ++ b.default_header) (acked b)) e c (grown 1 b k) in
    if_rule (WrittenEnds q b) (add (pos 1) b.window).1 (λ s. rest) (λ s. rest)
hand-Ends writing_rst q b e c k =
    let rst = with_frame_type b.default_header type_rst in
    let rest = rounds-done (length q) (emit rst (acked b)) in
    if_rule (WrittenEnds q b) (add (pos 1) b.window).1 (λ s. rest) (λ s. rest)
hand-Ends done q b e c k =
    let rest = rounds-done (length q) (acked b) in
    if_rule (WrittenEnds q b) (add (pos 1) b.window).1 (λ s. rest) (λ s. rest)

-- A buffer that was asked to close and then closed.
abbrev Closes : SendBuffer → SendBuffer → Type 0
Closes b b' =
    (b'.closing ≡ true)
    × (b'.queue ≡ b.queue)
    × (b'.accepted ≡ b.accepted)
    × (b'.close_timed_out ≡ b.close_timed_out)

on_close-Closes : (rst : Bool) (b : SendBuffer) → Closes b (on_close (on_request rst b))
unfolding on_close on_request
on_close-Closes rst b =
    if_rule (λ b'. Closes b (on_close b')) b.requested
      (λ r.
        if_rule (Closes b) b.requested (λ s. (refl, refl, refl, refl))
          (λ s. true≢false b.requested r s))
      (λ r. (refl, refl, refl, refl))

ending-Ends :
    (rst : Bool) (h : Hand) (b : SendBuffer)
    → Credit h b
    → Ends b (send_loop (ending rst (length b.queue)) h b)
unfolding send_loop step
ending-Ends rst h b k =
    let b' = on_close (on_request rst b) in
    let (c, q, a, t) = on_close-Closes rst b in
    let credit = step-Credit closes h _ (step-Credit (requests_close rst) h b k) in
    let (d, a', t') = hand-Ends h b.queue b' q c credit in (d, a' ∙ a, t' ∙ t)

-- Whatever has happened to a new send buffer, if its close has not timed out: once it is closed, and
-- each frame that it has left is taken, waits for the ACK of one frame if it must, and goes to `out`,
-- `sendLoop` returns, with no frame accepted since; and all frames that were accepted went out in
-- their order with their headers, and behind them an RST if the close asked for one.
pub send_loop-returns :
    (default_header : List ℕ) (window_size initial : ℕ) (events : List Event) (rst : Bool)
    → (send_loop events idle
        (new_send_buffer default_header window_size (new_window initial))).1.close_timed_out
      ≡ false
    → let start = new_send_buffer default_header window_size (new_window initial) in
      let b = (send_loop events idle start).1 in
      let (h, b') = send_loop (events ++ ending rst (length b.queue)) idle start in
      (h ≡ done) × (b'.accepted ≡ b.accepted) × (b'.out ≡ framed b' b.accepted ++ rst_of b')
send_loop-returns default_header window_size initial events rst t =
    let start = new_send_buffer default_header window_size (new_window initial) in
    let (h, b) = send_loop events idle start in
    let all = events ++ ending rst (length b.queue) in
    let p = send_loop-append events (ending rst (length b.queue)) idle start in
    let credit =
      send_loop-Credit events idle start
        (new_send_buffer-Credit default_header window_size initial) in
    let (d, a, t') = ending-Ends rst h b credit in
    let returned = ap (λ r. r.0) p ∙ d in
    let kept = ap (λ r. r.1.accepted) p ∙ a in
    (
      returned,
      kept,
      send_loop-flushes default_header window_size (new_window initial) all returned
            (ap (λ r. r.1.close_timed_out) p ∙ t' ∙ t)
          ∙ ap (λ fs. framed (send_loop all idle start).1 fs ++ rst_of (send_loop all idle start).1)
              kept,
    )
