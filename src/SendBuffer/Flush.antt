-- ===== src/SendBuffer/Flush.antt =====
-- sendbuffer.go: what a send buffer gave out when its loop has returned.
use mathlib.Core.Path.{subst}
use plampshade.Base.{
  ℕ, ◌≡◌, refl, sym, ◌∙◌, true, false, List, [], ◌∷◌, ◌++◌, append-nil, if_rule, true≢false, Bool,
  if◌then◌else◌,
}
use plampshade.Base.Int.{pos}
use plampshade.Flow.{Window, add}
use plampshade.SendBuffer.{
  Hand, idle, held, writing, writing_rst, done, SendBuffer, new_send_buffer, Event, accepts, takes,
  acks, written, requests_close, closes, times_out, gives_up, finish, on_request, on_close,
  on_time_out, give_up, on_window, step, send_loop,
}
use plampshade.SendBuffer.Order.{
  framed, rst_of, Ordered, Keeps, KeepsBoth, on_taken-KeepsBoth, on_written-KeepsBoth,
  do_accept-Keeps,
}

-- A request changes nothing once the loop is at its end, and the flag `closing` only grows.
requested_anew :
    (rst : Bool) (h : Hand) (b : SendBuffer)
    → Ordered h b
    → (b.closing ≡ true → Ordered h (record b { requested = true; send_rst = rst }))
    → Ordered h (record b { requested = true; send_rst = rst })
requested_anew rst idle b o f = o
requested_anew rst (held g) b o f = o
requested_anew rst (writing g) b o f = o
requested_anew rst writing_rst b o f = f o.0
requested_anew rst done b o f = f o.0

closed_anew : (h : Hand) (b : SendBuffer) → Ordered h b → Ordered h (record b { closing = true })
closed_anew idle b o = o
closed_anew (held g) b o = o
closed_anew (writing g) b o = o
closed_anew writing_rst b (c, q, o) = (refl, q, o)
closed_anew done b (c, q, o) = (refl, q, o)

on_request-Keeps : (rst : Bool) (h : Hand) (b : SendBuffer) → Keeps h b → Keeps h (on_request rst b)
unfolding on_request
on_request-Keeps rst h b k =
    if_rule (Keeps h) b.requested (λ e. k)
      (λ e. record {
        ordered =
            λ t. requested_anew rst h b (k.ordered t) (λ c. true≢false b.requested (k.asked c) e);
        asked = λ c. refl;
      })

on_close-Keeps : (h : Hand) (b : SendBuffer) → Keeps h b → Keeps h (on_close b)
unfolding on_close
on_close-Keeps h b k =
    if_rule (Keeps h) b.requested
      (λ e. record { ordered = λ t. closed_anew h b (k.ordered t); asked = λ c. e }) (λ e. k)

on_time_out-Keeps : (h : Hand) (b : SendBuffer) → Keeps h b → Keeps h (on_time_out b)
unfolding on_time_out
on_time_out-Keeps h b k =
    if_rule (Keeps h) b.closing
      (λ e. record { ordered = λ t. true≢false true refl t; asked = k.asked }) (λ e. k)

timed_out-Keeps :
    (h : Hand) (b : SendBuffer)
    → b.close_timed_out ≡ true
    → (b.closing ≡ true → b.requested ≡ true)
    → Keeps h b
timed_out-Keeps h b e a = record { ordered = λ t. true≢false b.close_timed_out e t; asked = a }

give_up-KeepsBoth :
    (h : Hand) (b : SendBuffer)
    → b.close_timed_out ≡ true
    → (b.closing ≡ true → b.requested ≡ true)
    → KeepsBoth (give_up h b)
unfolding give_up finish
give_up-KeepsBoth idle b e a =
    if_rule KeepsBoth b.send_rst (λ r. timed_out-Keeps writing_rst b e a)
      (λ r. timed_out-Keeps done b e a)
give_up-KeepsBoth (held f) b e a =
    if_rule KeepsBoth b.send_rst (λ r. timed_out-Keeps writing_rst b e a)
      (λ r. timed_out-Keeps done b e a)
give_up-KeepsBoth (writing f) b e a = timed_out-Keeps idle b e a
give_up-KeepsBoth writing_rst b e a = timed_out-Keeps done b e a
give_up-KeepsBoth done b e a = timed_out-Keeps done b e a

on_window-Keeps : (h : Hand) (b : SendBuffer) → Keeps h b → Keeps (on_window h) b
unfolding on_window
on_window-Keeps idle b k = k
on_window-Keeps (held f) b k = record { ordered = k.ordered; asked = k.asked }
on_window-Keeps (writing f) b k = k
on_window-Keeps writing_rst b k = k
on_window-Keeps done b k = k

acked-Keeps :
    (h : Hand) (b : SendBuffer) (w : Window) → Keeps h b → Keeps h (record b { window = w })
acked-Keeps idle b w k = record { ordered = k.ordered; asked = k.asked }
acked-Keeps (held f) b w k = record { ordered = k.ordered; asked = k.asked }
acked-Keeps (writing f) b w k = record { ordered = k.ordered; asked = k.asked }
acked-Keeps writing_rst b w k = record { ordered = k.ordered; asked = k.asked }
acked-Keeps done b w k = record { ordered = k.ordered; asked = k.asked }

step-KeepsBoth : (e : Event) (h : Hand) (b : SendBuffer) → Keeps h b → KeepsBoth (step e h b)
unfolding step
step-KeepsBoth (accepts f) h b k = do_accept-Keeps f h b k
step-KeepsBoth takes h b k = on_taken-KeepsBoth h b k
step-KeepsBoth (acks n) h b k =
    let (w, signals) = add (pos n) b.window in
    acked-Keeps (if signals then on_window h else h) b w
      (if_rule (λ x. Keeps x b) signals (λ e. on_window-Keeps h b k) (λ e. k))
step-KeepsBoth written h b k = on_written-KeepsBoth h b k
step-KeepsBoth (requests_close rst) h b k = on_request-Keeps rst h b k
step-KeepsBoth closes h b k = on_close-Keeps h b k
step-KeepsBoth times_out h b k = on_time_out-Keeps h b k
step-KeepsBoth gives_up h b k =
    if_rule KeepsBoth b.close_timed_out (λ e. give_up-KeepsBoth h b e k.asked) (λ e. k)

send_loop-KeepsBoth :
    (events : List Event) (h : Hand) (b : SendBuffer) → Keeps h b → KeepsBoth (send_loop events h b)
unfolding send_loop
send_loop-KeepsBoth [] h b k = k
send_loop-KeepsBoth (e ∷ events) h b k =
    send_loop-KeepsBoth events (step e h b).0 (step e h b).1 (step-KeepsBoth e h b k)

-- Whatever the order of events: once the loop has returned, and unless the close timed out, the
-- frames that were accepted went out in their order with their headers, and behind them an RST if
-- the close asked for one.
pub send_loop-flushes :
    (default_header : List ℕ) (window_size : ℕ) (window : Window) (events : List Event)
    → (send_loop events idle (new_send_buffer default_header window_size window)).0 ≡ done
    → (send_loop events idle (new_send_buffer default_header window_size window)).1.close_timed_out
      ≡ false
    → (send_loop events idle (new_send_buffer default_header window_size window)).1.out
      ≡ framed
          (send_loop events idle (new_send_buffer default_header window_size window)).1
          (send_loop events idle (new_send_buffer default_header window_size window)).1.accepted
        ++ rst_of (send_loop events idle (new_send_buffer default_header window_size window)).1
send_loop-flushes default_header window_size window events d t =
    let b = new_send_buffer default_header window_size window in
    let (h, b') = send_loop events idle b in
    let k = send_loop-KeepsBoth events idle b (record { ordered = λ t. refl; asked = λ c. cc }) in
    let (c, q, o) = subst (λ x. Ordered x b') d (k.ordered t) in sym (append-nil b'.out) ∙ o
