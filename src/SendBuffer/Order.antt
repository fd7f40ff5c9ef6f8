-- ===== src/SendBuffer/Order.antt =====
-- The order of what a send buffer gives to `out`.
use plampshade.Base.{
  ℕ, ◌≡◌, refl, sym, ap, ◌∙◌, Bool, true, false, not, ◌&&◌, List, [], ◌∷◌, ◌++◌, map, append-nil,
  append_assoc, ltb, if◌then◌else◌, if_rule, length, arith, true≢false,
}
use plampshade.Base.Int.{pos}
use plampshade.Wire.{with_frame_type, type_rst}
use plampshade.Flow.{sub}
use plampshade.SendBuffer.{
  Hand, idle, held, writing, writing_rst, done, SendBuffer, finish, take_frame, on_take, do_accept,
  on_written, on_taken,
}

-- The frames with the header behind them.
abbrev pub framed : SendBuffer → List (List ℕ) → List (List ℕ)
framed b frames = map (λ f. f ++ b.default_header) frames

abbrev pub rst_of : SendBuffer → List (List ℕ)
rst_of b = if b.send_rst then with_frame_type b.default_header type_rst ∷ [] else []

abbrev Flushed : List (List ℕ) → SendBuffer → Type 0
Flushed more b =
    (b.closing ≡ true) × (b.queue ≡ []) × (b.out ++ more ≡ framed b b.accepted ++ rst_of b)

-- What was given out and what is still to come are the frames accepted, in their order; once the
-- loop is at its end the RST comes behind them if it was asked for.
abbrev pub Ordered : Hand → SendBuffer → Type 0
Ordered idle b = b.out ++ framed b b.queue ≡ framed b b.accepted
Ordered (held f) b = b.out ++ framed b (f ∷ b.queue) ≡ framed b b.accepted
Ordered (writing f) b = b.out ++ framed b (f ∷ b.queue) ≡ framed b b.accepted
Ordered writing_rst b = Flushed (with_frame_type b.default_header type_rst ∷ []) b
Ordered done b = Flushed [] b

pub record Keeps (h : Hand) (b : SendBuffer) : Type 0 where
  pub ordered : b.close_timed_out ≡ false → Ordered h b
  pub asked : b.closing ≡ true → b.requested ≡ true

abbrev pub KeepsBoth : Hand × SendBuffer → Type 0
KeepsBoth r = Keeps r.0 r.1

map-append : (g : List ℕ → List ℕ) (xs ys : List (List ℕ)) → map g (xs ++ ys) ≡ map g xs ++ map g ys
map-append g [] ys = refl
map-append g (x ∷ xs) ys = ap (◌∷◌ (g x)) (map-append g xs ys)

emptied :
    (b : SendBuffer) (more : List (List ℕ)) (rst : Bool)
    → b.queue ≡ []
    → b.out ++ framed b b.queue ≡ framed b b.accepted
    → b.send_rst ≡ rst
    → b.out ++ (if rst then with_frame_type b.default_header type_rst ∷ [] else [])
      ≡ framed b b.accepted ++ rst_of b
emptied b more rst q o e =
    let r = with_frame_type b.default_header type_rst ∷ [] in
    ap (λ x. x ++ (if rst then r else []))
      (sym (append-nil b.out) ∙ ap (λ x. b.out ++ framed b x) (sym q) ∙ o)
    ∙ ap (λ c. framed b b.accepted ++ (if c then r else [])) (sym e)

finish-KeepsBoth :
    (b : SendBuffer) → b.closing ≡ true → b.queue ≡ [] → Keeps idle b → KeepsBoth (finish b)
unfolding finish
finish-KeepsBoth b c q k =
    if_rule KeepsBoth b.send_rst
      (λ e. record { ordered = λ t. (c, q, emptied b [] true q (k.ordered t) e); asked = k.asked })
      (λ e. record { ordered = λ t. (c, q, emptied b [] false q (k.ordered t) e); asked = k.asked })

take_frame-KeepsBoth :
    (f : List ℕ) (fs : List (List ℕ)) (b : SendBuffer)
    → b.queue ≡ f ∷ fs
    → Keeps idle b
    → KeepsBoth (take_frame f fs b)
unfolding take_frame
take_frame-KeepsBoth f fs b q k =
    let o : b.close_timed_out ≡ false → b.out ++ framed b (f ∷ fs) ≡ framed b b.accepted =
      λ t. ap (λ x. b.out ++ framed b x) (sym q) ∙ k.ordered t in
    if_rule KeepsBoth (sub (pos 1) b.window).1 (λ e. record { ordered = o; asked = k.asked })
      (λ e. record { ordered = o; asked = k.asked })

on_take-KeepsBoth :
    (queue : List (List ℕ)) (b : SendBuffer)
    → b.queue ≡ queue
    → Keeps idle b
    → KeepsBoth (on_take queue b)
unfolding on_take
on_take-KeepsBoth [] b e k = if_rule KeepsBoth b.closing (λ c. finish-KeepsBoth b c e k) (λ c. k)
on_take-KeepsBoth (f ∷ fs) b e k = take_frame-KeepsBoth f fs b e k

pub on_taken-KeepsBoth : (h : Hand) (b : SendBuffer) → Keeps h b → KeepsBoth (on_taken h b)
unfolding on_taken
on_taken-KeepsBoth idle b k = on_take-KeepsBoth b.queue b refl k
on_taken-KeepsBoth (held f) b k = k
on_taken-KeepsBoth (writing f) b k = k
on_taken-KeepsBoth writing_rst b k = k
on_taken-KeepsBoth done b k = k

pub on_written-KeepsBoth : (h : Hand) (b : SendBuffer) → Keeps h b → KeepsBoth (on_written h b)
unfolding on_written
on_written-KeepsBoth idle b k = k
on_written-KeepsBoth (held f) b k = k
on_written-KeepsBoth (writing f) b k = record {
  ordered = λ t. append_assoc b.out ((f ++ b.default_header) ∷ []) (framed b b.queue) ∙ k.ordered t;
  asked = k.asked;
}
on_written-KeepsBoth writing_rst b k = record {
  ordered = λ t. (let (c, q, o) = k.ordered t in (c, q, append-nil _ ∙ o));
  asked = k.asked;
}
on_written-KeepsBoth done b k = k

accepting :
    (f : List ℕ) (b : SendBuffer) (before : List (List ℕ))
    → b.out ++ framed b (before ++ b.queue) ≡ framed b b.accepted
    → b.out ++ framed b (before ++ (b.queue ++ (f ∷ []))) ≡ framed b (b.accepted ++ (f ∷ []))
accepting f b before o =
    let g : List ℕ → List ℕ = λ f. f ++ b.default_header in
    ap (λ x. b.out ++ framed b x) (sym (append_assoc before b.queue (f ∷ [])))
    ∙ ap (◌++◌ b.out) (map-append g (before ++ b.queue) (f ∷ []))
    ∙ sym (append_assoc b.out (framed b (before ++ b.queue)) (framed b (f ∷ [])))
    ∙ ap (λ x. x ++ framed b (f ∷ [])) o
    ∙ sym (map-append g b.accepted (f ∷ []))

shut :
    (b : SendBuffer)
    → b.closing ≡ true
    → (not b.closing && ltb (length b.queue) b.window_size) ≡ true
    → true ≡ false
shut b c e = ground arith

pub do_accept-Keeps : (f : List ℕ) (h : Hand) (b : SendBuffer) → Keeps h b → Keeps h (do_accept f b)
unfolding do_accept
do_accept-Keeps f idle b k =
    if_rule (Keeps idle) (not b.closing && ltb (length b.queue) b.window_size)
      (λ e. record { ordered = λ t. accepting f b [] (k.ordered t); asked = k.asked }) (λ e. k)
do_accept-Keeps f (held g) b k =
    if_rule (Keeps (held g)) (not b.closing && ltb (length b.queue) b.window_size)
      (λ e. record { ordered = λ t. accepting f b (g ∷ []) (k.ordered t); asked = k.asked })
      (λ e. k)
do_accept-Keeps f (writing g) b k =
    if_rule (Keeps (writing g)) (not b.closing && ltb (length b.queue) b.window_size)
      (λ e. record { ordered = λ t. accepting f b (g ∷ []) (k.ordered t); asked = k.asked })
      (λ e. k)
do_accept-Keeps f writing_rst b k =
    if_rule (Keeps writing_rst) (not b.closing && ltb (length b.queue) b.window_size)
      (λ e. record {
        ordered = λ t. true≢false true refl (shut b (k.ordered t).0 e);
        asked = k.asked;
      })
      (λ e. k)
do_accept-Keeps f done b k =
    if_rule (Keeps done) (not b.closing && ltb (length b.queue) b.window_size)
      (λ e. record {
        ordered = λ t. true≢false true refl (shut b (k.ordered t).0 e);
        asked = k.asked;
      })
      (λ e. k)
