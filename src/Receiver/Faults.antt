-- ===== src/Receiver/Faults.antt =====
-- session.go: frames that a peer may send and their effect on the receiver.
use plampshade.Base.{
  ℕ, zero, suc, sym, ap, append-nil, length-append, ◌+◌, ◌/◌, ◌%◌, ◌^◌, ◌<◌, ◌≡◌, ◌∙◌, Bool, true,
  false, List, [], ◌∷◌, ◌++◌, some, ltb, length, arith,
}
use plampshade.Wire.{max_data_len, type_data, type_ack, big_endian, frame_type_and_id, new_header}
use plampshade.Wire.Laws.{length-big_endian, from_big_endian-big_endian}
use plampshade.Wire.Message.{Message, ack_of, wire, wires, length-wire-ge}
use plampshade.Session.{Session, get_or_create_stream}
use plampshade.Receiver.{
  read_full, finished, crashed, next, stop, on_header, on_ack, on_data, frame_round, frame_loop,
  receive_frames,
}
use plampshade.Receiver.Loop.{
  delivered_all, AcceptsAll, AreMessages, receive_frames-append, receive_frames-wires,
}
use plampshade.Receiver.Delivery.{frame_round-header, frame_round-payload, read_full-append}

-- A frame of type data whose length field says more than `MaxDataLen` makes the receiver panic.
pub frame_round_crashes :
    (first : Bool) (id n : ℕ) (rest : List ℕ) (s : Session)
    → id < 65536
    → max_data_len < n
    → n < 65536
    → frame_round first (new_header type_data id ++ (big_endian 2 n ++ rest)) s ≡ stop crashed
unfolding on_header on_data
frame_round_crashes first id n rest s hid long fits =
    let over : ltb 1448 (5 + n) ≡ true = ground arith in
    frame_round-header first type_data id (big_endian 2 n ++ rest) s hid
    ∙ rw (
      read_full-append 2 (big_endian 2 n) rest (length-big_endian 2 n),
      on_data,
      from_big_endian-big_endian 2 n fits,
      over,
    )

read_count :
    (n : ℕ) (rest : List ℕ)
    → read_full 3 (big_endian 4 n ++ rest)
      ≡ some (
        (n / 256 / 256 / 256 % 256) ∷ ((n / 256 / 256 % 256) ∷ ((n / 256 % 256) ∷ [])),
        (n % 256) ∷ rest,
      )
unfolding read_full big_endian
read_count n rest =
    let enough : ltb (suc (suc (suc (suc (length rest))))) 3 ≡ false = ground arith in rw enough

-- Four bytes of a small number, read as a header, are padding.
count_as_header :
    (first : Bool) (n : ℕ) (rest : List ℕ) (s : Session)
    → n < 2 ^ 24
    → frame_round first (big_endian 4 n ++ rest) s ≡ stop (finished s)
unfolding frame_round frame_type_and_id on_header
count_as_header first n rest s h =
    let small : n / 256 / 256 / 256 % 256 ≡ 0 = omega arith in
    rw (read_count n rest, frame_round, small)

closed_ack_goes_on :
    (first : Bool) (id n : ℕ) (rest : List ℕ) (s : Session)
    → id < 65536
    → (get_or_create_stream id s).1 ≡ false
    → frame_round first (wire (ack_of id n) ++ rest) s
      ≡ next first (big_endian 4 n ++ rest) (get_or_create_stream id s).0
unfolding wire on_header on_ack
closed_ack_goes_on first id n rest s hid closed =
    frame_round-payload first type_ack id (big_endian 4 n) rest s hid ∙ rw closed

closed_ack_ends :
    (fuel : ℕ) (first : Bool) (id n : ℕ) (rest : List ℕ) (s : Session)
    → 0 < fuel
    → id < 65536
    → n < 2 ^ 24
    → (get_or_create_stream id s).1 ≡ false
    → frame_loop (suc fuel) first (wire (ack_of id n) ++ rest) s
      ≡ finished (get_or_create_stream id s).0
unfolding frame_loop
closed_ack_ends zero first id n rest s more hid hn closed = absurd (omega arith)
closed_ack_ends (suc fuel) first id n rest s more hid hn closed = rw (
  closed_ack_goes_on first id n rest s hid closed,
  frame_loop,
  count_as_header first n rest (get_or_create_stream id s).0 hn,
  frame_loop,
)

closed-unchanged :
    (id : ℕ) (s : Session)
    → (get_or_create_stream id s).1 ≡ false
    → (get_or_create_stream id s).0 ≡ s
unfolding get_or_create_stream
closed-unchanged id s closed = ground arith

-- Behind valid frames that the receiver takes, an ACK with a count below 2^24 for a stream that is
-- closed by then makes it drop all bytes behind that ACK, whatever they are, as if the packet had
-- ended in front of it: the count is not taken off, and is then read as padding.
pub closed_ack_drops_rest :
    (ms : List Message) (id n : ℕ) (rest : List ℕ) (s : Session)
    → AreMessages ms
    → AcceptsAll ms (true, s)
    → id < 65536
    → n < 2 ^ 24
    → (get_or_create_stream id (delivered_all ms (true, s)).1).1 ≡ false
    → receive_frames (wires ms ++ (wire (ack_of id n) ++ rest)) s ≡ receive_frames (wires ms) s
closed_ack_drops_rest ms id n rest s v a hid hn closed =
    let (first, t) = delivered_all ms (true, s) in
    let ack = wire (ack_of id n) in
    let (fuel, left, after) = receive_frames-append ms (ack ++ rest) s v a in
    after
    ∙ closed_ack_ends fuel first id n rest t
        (omega (arith, length-append ack rest, length-wire-ge (ack_of id n))) hid hn closed
    ∙ ap finished (closed-unchanged id t closed)
    ∙ sym (receive_frames-wires ms 0 s v a)
    ∙ ap (λ bs. receive_frames bs s) (append-nil (wires ms))
