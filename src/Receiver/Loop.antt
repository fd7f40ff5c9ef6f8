-- ===== src/Receiver/Loop.antt =====
-- `frameLoop` over a whole session frame: frames and padding, and its end on any input.
use plampshade.Base.{
  some, ℕ, zero, suc, ◌+◌, ◌-◌, ◌≤◌, ◌≡◌, refl, ap, ◌∙◌, Bool, true, false, List, [], ◌∷◌, ◌++◌,
  append_assoc, ltb, length, length-append, arith, replicate,
}
use plampshade.Wire.{frame_type_and_id}
use plampshade.Wire.Message.{Message, IsMessage, wire, wires, length-wire-ge}
use plampshade.Session.{Session}
use plampshade.Receiver.{
  read_full, finished, stop, on_header, frame_round, frame_loop, receive_frames,
}
use plampshade.Receiver.Delivery.{State, delivered, Accepts, frame_round-message}

-- The frames in turn.
unfoldable pub delivered_all : List Message → State → State
delivered_all [] st = st
delivered_all (m ∷ ms) st = delivered_all ms (delivered m st)

abbrev pub AcceptsAll : List Message → State → Type 0
AcceptsAll [] st = Unit {0}
AcceptsAll (m ∷ ms) st = Accepts m st.1 × AcceptsAll ms (delivered m st)

abbrev pub AreMessages : List Message → Type 0
AreMessages [] = Unit {0}
AreMessages (m ∷ ms) = IsMessage m × AreMessages ms

three_zeros :
    (n : ℕ) → read_full 3 (0 ∷ (0 ∷ (0 ∷ replicate n 0))) ≡ some (0 ∷ (0 ∷ (0 ∷ [])), replicate n 0)
unfolding read_full
three_zeros n =
    let z : List ℕ = replicate n 0 in
    let enough : ltb (suc (suc (suc (length z)))) 3 ≡ false = ground arith in rw enough

-- Padding, or the end of the bytes, ends the work on a session frame.
padding_round :
    (n : ℕ) (first : Bool) (s : Session) → frame_round first (replicate n 0) s ≡ stop (finished s)
unfolding frame_round on_header
padding_round zero first s = unfold read_full in refl
padding_round (suc zero) first s = unfold read_full in refl
padding_round (suc (suc zero)) first s = unfold read_full in refl
padding_round (suc (suc (suc n))) first s =
    rw (three_zeros n, frame_round) (unfold frame_type_and_id in refl)

length-wires-ge : (ms : List Message) → length ms ≤ length (wires ms)
unfolding wires
length-wires-ge [] = omega arith
length-wires-ge (m ∷ ms) =
    omega (arith, length-append (wire m) (wires ms), length-wire-ge m, length-wires-ge ms)

frame_loop-wires :
    (fuel : ℕ) (ms : List Message) (rest : List ℕ) (first : Bool) (s : Session)
    → AreMessages ms
    → AcceptsAll ms (first, s)
    → let (first', s') = delivered_all ms (first, s) in
      frame_loop (length ms + fuel) first (wires ms ++ rest) s ≡ frame_loop fuel first' rest s'
unfolding frame_loop wires delivered_all
frame_loop-wires fuel [] rest first s v a = ap (λ n. frame_loop n first rest s) (omega arith)
frame_loop-wires fuel (m ∷ ms) rest first s v a =
    let st = delivered m (first, s) in
    let more : length (m ∷ ms) + fuel ≡ suc (length ms + fuel) = omega arith in
    rw more (
      rw
        (
          append_assoc (wire m) (wires ms) rest,
          frame_round-message first m (wires ms ++ rest) s v.0 a.0,
          frame_loop,
        )
        (frame_loop-wires fuel ms rest st.0 st.1 v.1 a.1))

-- The frames leave enough fuel for what is behind them.
pub receive_frames-append :
    (ms : List Message) (rest : List ℕ) (s : Session)
    → AreMessages ms
    → AcceptsAll ms (true, s)
    → let (first', s') = delivered_all ms (true, s) in
      (fuel : ℕ) × (length rest ≤ fuel)
      × (receive_frames (wires ms ++ rest) s ≡ frame_loop (suc fuel) first' rest s')
unfolding receive_frames
receive_frames-append ms rest s v a =
    let bs = wires ms ++ rest in
    let fuel = length bs - length ms in
    let enough : suc (length bs) ≡ length ms + suc fuel =
      omega (arith, length-append (wires ms) rest, length-wires-ge ms) in
    (
      fuel,
      omega (arith, length-append (wires ms) rest, length-wires-ge ms),
      ap (λ n. frame_loop n true bs s) enough ∙ frame_loop-wires (suc fuel) ms rest true s v a,
    )

-- From the bytes of valid frames, with any padding behind them, the receiver does exactly what the
-- frames are for, in their order, and goes on to the next session frame. No ACK among them may
-- name a stream that is closed when its turn comes, and no echo come to a session without an
-- `emaRTT`.
pub receive_frames-wires :
    (ms : List Message) (n : ℕ) (s : Session)
    → AreMessages ms
    → AcceptsAll ms (true, s)
    → receive_frames (wires ms ++ replicate n 0) s ≡ finished (delivered_all ms (true, s)).1
unfolding frame_loop
receive_frames-wires ms n s v a =
    let (first', s') = delivered_all ms (true, s) in
    let (fuel, left, after) = receive_frames-append ms (replicate n 0) s v a in
    after ∙ rw (padding_round n first' s', frame_loop)
