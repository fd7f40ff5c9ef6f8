-- ===== src/Wire/Message.antt =====
-- The stream-level frames as data: each in the form that waits in a session's out channel (data
-- first, header behind) and in the form that the session writes (header first).
use native.Mathlib.Nat.{mod-eq_of_lt}
use plampshade.Base.{
  ℕ, ◌^◌, ◌≤◌, ◌<◌, ◌≡◌, refl, List, [], ◌∷◌, ◌++◌, arith, length, length-append, append_assoc,
  copy,
}
use plampshade.Base.Int.{pos}
use plampshade.Wire.{
  max_data_len, max_frame_size, ack_frame_size, ping_frame_size, type_data, type_ping, type_echo,
  type_ack, type_rst, big_endian, new_header, with_frame_type, ack_with_frames, ping, echo,
}
use plampshade.Wire.Laws.{length-big_endian, length-new_header}

-- A `[]byte` with its capacity.
pub record Frame : Type 0 where
  pub bytes : List ℕ
  pub cap : ℕ

pub data Message : Type 0 where
  data_of : ℕ → List ℕ → Message
  ack_of : ℕ → ℕ → Message
  rst_of : ℕ → Message
  ping_at : ℕ → Message
  echo_at : ℕ → Message

-- What `sendBuffer.sendLoop`, `receiveBuffer.doSendACK`, `sender.send` and `session.recvLoop`
-- queue.
unfoldable pub queued : Message → Frame
queued (data_of id b) = record { bytes = b ++ new_header type_data id; cap = max_frame_size }
queued (ack_of id n) = record {
  bytes = ack_with_frames (new_header type_data id) (pos n);
  cap = ack_frame_size;
}
queued (rst_of id) = record { bytes = with_frame_type (new_header type_data id) type_rst; cap = 3 }
queued (ping_at ts) = record { bytes = ping ts; cap = ping_frame_size }
queued (echo_at ts) = record { bytes = copy echo (big_endian 8 ts); cap = ping_frame_size }

-- The stream framing of the protocol description.
unfoldable pub wire : Message → List ℕ
wire (data_of id b) = new_header type_data id ++ (big_endian 2 (length b) ++ b)
wire (ack_of id n) = new_header type_ack id ++ big_endian 4 n
wire (rst_of id) = new_header type_rst id
wire (ping_at ts) = new_header type_ping 0 ++ big_endian 8 ts
wire (echo_at ts) = new_header type_echo 0 ++ big_endian 8 ts

abbrev pub IsMessage : Message → Type 0
IsMessage (data_of id b) = (id < 65536) × (length b ≤ max_data_len)
IsMessage (ack_of id n) = (id < 65536) × (n < 2 ^ 32)
IsMessage (rst_of id) = id < 65536
IsMessage (ping_at ts) = ts < 2 ^ 64
IsMessage (echo_at ts) = ts < 2 ^ 64

unfoldable pub wires : List Message → List ℕ
wires [] = []
wires (m ∷ ms) = wire m ++ wires ms

pub wires-append : (ms ns : List Message) → wires (ms ++ ns) ≡ wires ms ++ wires ns
unfolding wires
wires-append [] ns = refl
wires-append (m ∷ ms) ns = rw (wires-append ms ns) (rw append_assoc)

pub length-wire-le : (m : Message) → IsMessage m → length (wire m) ≤ max_frame_size
unfolding wire
length-wire-le (data_of id b) h = omega (
  arith,
  length-append (new_header type_data id) (big_endian 2 (length b) ++ b),
  length-append (big_endian 2 (length b)) b,
  length-new_header type_data id,
  length-big_endian 2 (length b),
)
length-wire-le (ack_of id n) h = omega (
  arith,
  length-append (new_header type_ack id) (big_endian 4 n),
  length-new_header type_ack id,
  length-big_endian 4 n,
)
length-wire-le (rst_of id) h = omega (arith, length-new_header type_rst id)
length-wire-le (ping_at ts) h = omega (
  arith,
  length-append (new_header type_ping 0) (big_endian 8 ts),
  length-new_header type_ping 0,
  length-big_endian 8 ts,
)
length-wire-le (echo_at ts) h = omega (
  arith,
  length-append (new_header type_echo 0) (big_endian 8 ts),
  length-new_header type_echo 0,
  length-big_endian 8 ts,
)

pub queued_ack :
    (id n : ℕ)
    → n < 2 ^ 32
    → (queued (ack_of id n)).bytes ≡ big_endian 4 n ++ new_header type_ack id
unfolding queued ack_with_frames new_header
queued_ack id n h = rw (mod-eq_of_lt h)

pub queued_ping : (ts : ℕ) → (queued (ping_at ts)).bytes ≡ big_endian 8 ts ++ new_header type_ping 0
unfolding queued ping new_header
queued_ping ts = refl

pub queued_echo : (ts : ℕ) → (queued (echo_at ts)).bytes ≡ big_endian 8 ts ++ new_header type_echo 0
unfolding queued echo new_header
queued_echo ts = refl

pub length-wire-ge : (m : Message) → 3 ≤ length (wire m)
unfolding wire
length-wire-ge (data_of id b) = omega (
  arith,
  length-append (new_header type_data id) (big_endian 2 (length b) ++ b),
  length-new_header type_data id,
)
length-wire-ge (ack_of id n) =
    omega (
      arith,
      length-append (new_header type_ack id) (big_endian 4 n),
      length-new_header type_ack id,
    )
length-wire-ge (rst_of id) = omega (arith, length-new_header type_rst id)
length-wire-ge (ping_at ts) =
    omega (
      arith,
      length-append (new_header type_ping 0) (big_endian 8 ts),
      length-new_header type_ping 0,
    )
length-wire-ge (echo_at ts) =
    omega (
      arith,
      length-append (new_header type_echo 0) (big_endian 8 ts),
      length-new_header type_echo 0,
    )
