-- ===== src/SendBuffer/Acks.antt =====
-- sendbuffer.go and window.go: the window of a send buffer, and who takes the signals of its ACKs.
use mathlib.Core.Path.{subst}
use plampshade.Base.{
  ℕ, ◌≡◌, refl, ap, sym, ◌∙◌, Bool, true, not, ◌&&◌, List, [], ◌∷◌, ◌⊎◌, inl, inr, arith, if_rule,
  if◌then◌else◌, ltb, length,
}
use plampshade.Base.Int.{pos, neg_part, ◌+ℤ◌, ◌-ℤ◌}
use plampshade.Flow.{add, sub, new_window}
use plampshade.SendBuffer.{
  Hand, idle, held, writing, writing_rst, done, SendBuffer, new_send_buffer, Event, accepts, takes,
  acks, written, requests_close, closes, times_out, gives_up, finish, take_frame, on_take, on_taken,
  do_accept, on_request, on_close, on_time_out, on_written, on_window, give_up, step, send_loop,
}

-- The window is one frame below zero while a frame waits for it, and else not below zero, unless
-- the loop has given up.
abbrev pub Credit : Hand → SendBuffer → Type 0
Credit idle b = neg_part b.window.size ≡ 0
Credit (held f) b = neg_part b.window.size ≡ 1
Credit (writing f) b = neg_part b.window.size ≡ 0
Credit writing_rst b = (neg_part b.window.size ≡ 0) ⊎ (b.close_timed_out ≡ true)
Credit done b = (neg_part b.window.size ≡ 0) ⊎ (b.close_timed_out ≡ true)

abbrev CreditBoth : Hand × SendBuffer → Type 0
CreditBoth r = Credit r.0 r.1

-- A change that leaves the window alone, and does not take a timeout back.
same-Credit :
    (h : Hand) (b c : SendBuffer)
    → c.window.size ≡ b.window.size
    → (b.close_timed_out ≡ true → c.close_timed_out ≡ true)
    → Credit h b
    → Credit h c
same-Credit idle b c e t k = ap neg_part e ∙ k
same-Credit (held f) b c e t k = ap neg_part e ∙ k
same-Credit (writing f) b c e t k = ap neg_part e ∙ k
same-Credit writing_rst b c e t (inl k) = inl (ap neg_part e ∙ k)
same-Credit writing_rst b c e t (inr k) = inr (t k)
same-Credit done b c e t (inl k) = inl (ap neg_part e ∙ k)
same-Credit done b c e t (inr k) = inr (t k)

finish-Credit :
    (b : SendBuffer)
    → (neg_part b.window.size ≡ 0) ⊎ (b.close_timed_out ≡ true)
    → CreditBoth (finish b)
unfolding finish
finish-Credit b k = if_rule CreditBoth b.send_rst (λ e. k) (λ e. k)

on_take-Credit :
    (queue : List (List ℕ)) (b : SendBuffer) → Credit idle b → CreditBoth (on_take queue b)
unfolding on_take take_frame sub ◌-ℤ◌
on_take-Credit [] b k = if_rule CreditBoth b.closing (λ e. finish-Credit b (inl k)) (λ e. k)
on_take-Credit (frame ∷ queue) b k =
    if_rule CreditBoth (sub (pos 1) b.window).1 (λ e. ground arith) (λ e. ground arith)

on_taken-Credit : (h : Hand) (b : SendBuffer) → Credit h b → CreditBoth (on_taken h b)
unfolding on_taken
on_taken-Credit idle b k = on_take-Credit b.queue b k
on_taken-Credit (held f) b k = k
on_taken-Credit (writing f) b k = k
on_taken-Credit writing_rst b k = k
on_taken-Credit done b k = k

pub grown :
    (n : ℕ) (b : SendBuffer)
    → neg_part b.window.size ≡ 0
    → neg_part (add (pos n) b.window).0.size ≡ 0
unfolding add ◌+ℤ◌
grown n b k = ground arith

either_way :
    (x : Hand) (b : SendBuffer) (signals : Bool)
    → Credit x b
    → on_window x ≡ x
    → Credit (if signals then on_window x else x) b
either_way x b signals k e =
    if_rule (λ y. Credit y b) signals (λ s. subst (λ y. Credit y b) (sym e) k) (λ s. k)

acks-Credit : (n : ℕ) (h : Hand) (b : SendBuffer) → Credit h b → CreditBoth (step (acks n) h b)
unfolding step on_window
acks-Credit n idle b k = either_way idle _ (add (pos n) b.window).1 (grown n b k) refl
acks-Credit n (held f) b k =
    unfold add ◌+ℤ◌ in
    (let r = add (pos n) b.window in
      if_rule (λ x. Credit x (record b { window = r.0 })) r.1 (λ e. ground arith)
        (λ e. ground arith))
acks-Credit n (writing f) b k = either_way (writing f) _ (add (pos n) b.window).1 (grown n b k) refl
acks-Credit n writing_rst b (inl k) =
    either_way writing_rst _ (add (pos n) b.window).1 (inl (grown n b k)) refl
acks-Credit n writing_rst b (inr t) = either_way writing_rst _ (add (pos n) b.window).1 (inr t) refl
acks-Credit n done b (inl k) = either_way done _ (add (pos n) b.window).1 (inl (grown n b k)) refl
acks-Credit n done b (inr t) = either_way done _ (add (pos n) b.window).1 (inr t) refl

on_written-Credit : (h : Hand) (b : SendBuffer) → Credit h b → CreditBoth (on_written h b)
unfolding on_written
on_written-Credit idle b k = k
on_written-Credit (held f) b k = k
on_written-Credit (writing f) b k = k
on_written-Credit writing_rst b k = k
on_written-Credit done b k = k

give_up-Credit :
    (h : Hand) (b : SendBuffer) → b.close_timed_out ≡ true → Credit h b → CreditBoth (give_up h b)
unfolding give_up
give_up-Credit idle b t k = finish-Credit b (inr t)
give_up-Credit (held f) b t k = finish-Credit b (inr t)
give_up-Credit (writing f) b t k = k
give_up-Credit writing_rst b t k = k
give_up-Credit done b t k = k

pub step-Credit : (e : Event) (h : Hand) (b : SendBuffer) → Credit h b → CreditBoth (step e h b)
unfolding step do_accept on_request on_close on_time_out
step-Credit (accepts f) h b k =
    if_rule (Credit h) (not b.closing && ltb (length b.queue) b.window_size)
      (λ e. same-Credit h b _ refl (λ t. t) k) (λ e. k)
step-Credit takes h b k = on_taken-Credit h b k
step-Credit (acks n) h b k = unfold step in acks-Credit n h b k
step-Credit written h b k = on_written-Credit h b k
step-Credit (requests_close rst) h b k =
    if_rule (Credit h) b.requested (λ e. k) (λ e. same-Credit h b _ refl (λ t. t) k)
step-Credit closes h b k =
    if_rule (Credit h) b.requested (λ e. same-Credit h b _ refl (λ t. t) k) (λ e. k)
step-Credit times_out h b k =
    if_rule (Credit h) b.closing (λ e. same-Credit h b _ refl (λ t. refl) k) (λ e. k)
step-Credit gives_up h b k =
    if_rule CreditBoth b.close_timed_out (λ e. give_up-Credit h b e k) (λ e. k)

pub send_loop-Credit :
    (events : List Event) (h : Hand) (b : SendBuffer)
    → Credit h b
    → Credit (send_loop events h b).0 (send_loop events h b).1
unfolding send_loop
send_loop-Credit [] h b k = k
send_loop-Credit (e ∷ events) h b k =
    send_loop-Credit events (step e h b).0 (step e h b).1 (step-Credit e h b k)

pub new_send_buffer-Credit :
    (default_header : List ℕ) (window_size initial : ℕ)
    → Credit idle (new_send_buffer default_header window_size (new_window initial))
unfolding new_window
new_send_buffer-Credit default_header window_size initial = refl

-- Who is there to take a signal.
abbrev pub Heard : Hand → SendBuffer → Type 0
Heard h b =
    ((frame : List ℕ) × (h ≡ held frame))
    ⊎ ((b.close_timed_out ≡ true) × ((h ≡ done) ⊎ (h ≡ writing_rst)))

signals-Heard :
    (n : ℕ) (h : Hand) (b : SendBuffer) → Credit h b → (add (pos n) b.window).1 ≡ true → Heard h b
unfolding add ◌+ℤ◌
signals-Heard n idle b k s = absurd (ground arith)
signals-Heard n (held f) b k s = inl (f, refl)
signals-Heard n (writing f) b k s = absurd (ground arith)
signals-Heard n writing_rst b (inl k) s = absurd (ground arith)
signals-Heard n writing_rst b (inr t) s = inr (t, inr refl)
signals-Heard n done b (inl k) s = absurd (ground arith)
signals-Heard n done b (inr t) s = inr (t, inl refl)

-- Whatever has happened to a new send buffer: when an ACK makes `window.add` signal, the loop waits
-- with a frame for that signal; except where the close has timed out, and the loop has returned or
-- is about to, with the RST in hand, when nobody takes the signal any more.
pub add-Heard :
    (default_header : List ℕ) (window_size initial n : ℕ) (events : List Event)
    → (add
        (pos n)
        (send_loop events idle
          (new_send_buffer default_header window_size (new_window initial))).1.window).1
      ≡ true
    → let (h, b) =
        send_loop events idle (new_send_buffer default_header window_size (new_window initial)) in
      Heard h b
add-Heard default_header window_size initial n events s =
    let start = new_send_buffer default_header window_size (new_window initial) in
    let (h, b) = send_loop events idle start in
    let credit = new_send_buffer-Credit default_header window_size initial in
    signals-Heard n h b (send_loop-Credit events idle start credit) s
