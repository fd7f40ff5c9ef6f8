-- ===== src/SendBuffer/Kept.antt =====
-- sendbuffer.go: what `sendLoop` leaves alone, the header that goes behind its frames.
use plampshade.Base.{ℕ, ◌≡◌, refl, ◌∙◌, List, [], ◌∷◌, arith, if_rule}
use plampshade.Base.Int.{pos}
use plampshade.Flow.{sub}
use plampshade.SendBuffer.{
  Hand, idle, held, writing, writing_rst, done, SendBuffer, Event, accepts, takes, acks, written,
  requests_close, closes, times_out, gives_up, finish, take_frame, on_take, do_accept, on_request,
  on_close, on_time_out, on_written, give_up, on_taken, step, send_loop,
}

abbrev SameHeader : SendBuffer → Hand × SendBuffer → Type 0
SameHeader b r = r.1.default_header ≡ b.default_header

finish-SameHeader :
    (b c : SendBuffer) → c.default_header ≡ b.default_header → SameHeader b (finish c)
unfolding finish
finish-SameHeader b c e = if_rule (SameHeader b) c.send_rst (λ _. e) (λ _. e)

on_take-SameHeader : (queue : List (List ℕ)) (b : SendBuffer) → SameHeader b (on_take queue b)
unfolding on_take take_frame
on_take-SameHeader [] b =
    if_rule (SameHeader b) b.closing (λ _. finish-SameHeader b b refl) (λ _. refl)
on_take-SameHeader (f ∷ queue) b =
    if_rule (SameHeader b) (sub (pos 1) b.window).1 (λ _. refl) (λ _. refl)

on_taken-SameHeader : (h : Hand) (b : SendBuffer) → SameHeader b (on_taken h b)
unfolding on_taken
on_taken-SameHeader idle b = on_take-SameHeader b.queue b
on_taken-SameHeader (held f) b = refl
on_taken-SameHeader (writing f) b = refl
on_taken-SameHeader writing_rst b = refl
on_taken-SameHeader done b = refl

on_written-SameHeader : (h : Hand) (b : SendBuffer) → SameHeader b (on_written h b)
unfolding on_written
on_written-SameHeader idle b = refl
on_written-SameHeader (held f) b = refl
on_written-SameHeader (writing f) b = refl
on_written-SameHeader writing_rst b = refl
on_written-SameHeader done b = refl

give_up-SameHeader : (h : Hand) (b : SendBuffer) → SameHeader b (give_up h b)
unfolding give_up
give_up-SameHeader idle b = finish-SameHeader b b refl
give_up-SameHeader (held f) b = finish-SameHeader b b refl
give_up-SameHeader (writing f) b = refl
give_up-SameHeader writing_rst b = refl
give_up-SameHeader done b = refl

step-SameHeader : (e : Event) (h : Hand) (b : SendBuffer) → SameHeader b (step e h b)
unfolding step do_accept on_request on_close on_time_out
step-SameHeader (accepts f) h b = ground arith
step-SameHeader takes h b = on_taken-SameHeader h b
step-SameHeader (acks n) h b = refl
step-SameHeader written h b = on_written-SameHeader h b
step-SameHeader (requests_close rst) h b = ground arith
step-SameHeader closes h b = ground arith
step-SameHeader times_out h b = ground arith
step-SameHeader gives_up h b =
    if_rule (SameHeader b) b.close_timed_out (λ _. give_up-SameHeader h b) (λ _. refl)

pub send_loop-default_header :
    (events : List Event) (h : Hand) (b : SendBuffer)
    → (send_loop events h b).1.default_header ≡ b.default_header
unfolding send_loop
send_loop-default_header [] h b = refl
send_loop-default_header (e ∷ events) h b =
    send_loop-default_header events (step e h b).0 (step e h b).1 ∙ step-SameHeader e h b
