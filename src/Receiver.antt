-- ===== src/Receiver.antt =====
-- session.go: the part of `recvLoop` that reads the stream frames of one decrypted session frame.
-- Locks, blocking sends and the log lines leave no trace here.
pub mod Delivery
pub mod Loop
pub mod Total
pub mod Keeps
pub mod Closed
pub mod Faults
pub mod Crashes
pub mod Moves
pub mod Panics
pub mod Refines
pub mod Chunks
use plampshade.Base.{
  ℕ, zero, suc, ◌+◌, Bool, true, false, List, [], ◌∷◌, ◌++◌, Option, none, some, ltb, ◌==◌,
  if◌then◌else◌, length, take, drop, copy,
}
use plampshade.Wire.{
  header_size, len_size, win_size, ts_size, data_header_size, max_frame_size, type_padding,
  type_ping, type_echo, type_ack, type_rst, from_big_endian, frame_type_and_id, echo,
}
use plampshade.Session.{
  Session, emit, on_session_error, close_stream, get_or_create_stream, has, submitted, acked,
  empty_ack, stream_closed, echoed, rtt_from,
}

-- `io.ReadFull` on a `bytes.Reader`: the bytes and the rest, or `none` for either of its errors
-- `io.EOF` and `io.ErrUnexpectedEOF`.
unfoldable pub read_full : ℕ → List ℕ → Option (List ℕ × List ℕ)
read_full n bs = if ltb (length bs) n then none else some (take n bs, drop n bs)

-- How the work on a session frame ends: `finished` goes on to the next session frame, `failed`
-- returns from `recvLoop`, `crashed` is a Go panic; `no_fuel` is no Go outcome.
pub data Received : Type 0 where
  finished : Session → Received
  failed : Session → Received
  crashed : Received
  no_fuel : Received

-- One round of `frameLoop`: `continue` with the flag `first`, the unread bytes and the session.
pub data Round : Type 0 where
  next : Bool → List ℕ → Session → Round
  stop : Received → Round

unfoldable pub on_ack : Bool → ℕ → List ℕ → Session → Round
on_ack first id bs s =
    let (s', is_open) = get_or_create_stream id s in
    if is_open
    then (elim (read_full win_size bs) [
      | none ↦ stop (failed (on_session_error s'))
      | some (b, rest) ↦ next first rest (emit s' (acked id (from_big_endian b)))
    ])
    else next first bs s'

unfoldable pub on_rst : Bool → ℕ → List ℕ → Session → Round
on_rst first id bs s =
    let s' = close_stream id s in
    if has id s.streams then next first bs (emit s' (stream_closed id)) else next first bs s'

unfoldable pub on_ping : Bool → List ℕ → Session → Round
on_ping first bs s = elim (read_full ts_size bs) [
  | none ↦ stop (failed (on_session_error s))
  | some (ts, rest) ↦ next first rest (emit s (echoed (copy echo ts)))
]

unfoldable pub on_echo : Bool → List ℕ → Session → Round
on_echo first bs s = elim (read_full ts_size bs) [
  | none ↦ stop (failed (on_session_error s))
  | some (ts, rest) ↦
      if s.tracks_rtt
      then next first rest (emit s (rtt_from (from_big_endian ts)))
      else stop crashed
]

-- A frame whose data was read, for the stream that it names.
unfoldable pub on_frame : Bool → ℕ → List ℕ → List ℕ → Session → Round
on_frame first id frame rest s =
    let (s', is_open) = get_or_create_stream id s in
    let s'' = emit s' (submitted id frame) in
    if is_open
    then (if first
        then (if s.ack_on_first
            then next false rest (emit s'' (empty_ack id))
            else next false rest s'')
        else next false rest s'')
    else next first rest s'

-- A frame of any other type is read as data. Its buffer holds `max_frame_size` bytes.
unfoldable pub on_data : Bool → List ℕ → ℕ → List ℕ → Session → Round
on_data first header id bs s = elim (read_full len_size bs) [
  | none ↦ stop (failed (on_session_error s))
  | some (len_bytes, rest) ↦
      let data_length = from_big_endian len_bytes in
      let body : Round = elim (read_full data_length rest) [
        | none ↦ stop (failed (on_session_error s))
        | some (b, rest') ↦ on_frame first id (header ++ (len_bytes ++ b)) rest' s
      ] in
      if ltb max_frame_size (data_header_size + data_length) then stop crashed else body
]

unfoldable pub on_header : Bool → List ℕ → ℕ → ℕ → List ℕ → Session → Round
on_header first header frame_type id bs s =
    if frame_type == type_padding
    then stop (finished s)
    else (if frame_type == type_ack
        then on_ack first id bs s
        else (if frame_type == type_rst
            then on_rst first id bs s
            else (if frame_type == type_ping
                then on_ping first bs s
                else (if frame_type == type_echo
                    then on_echo first bs s
                    else on_data first header id bs s))))

unfoldable pub frame_round : Bool → List ℕ → Session → Round
frame_round first bs s = elim (read_full header_size bs) [
  | none ↦ stop (finished s)
  | some (header, rest) ↦
      let (frame_type, id) = frame_type_and_id header in on_header first header frame_type id rest s
]

unfoldable pub frame_loop : ℕ → Bool → List ℕ → Session → Received
frame_loop zero first bs s = no_fuel
frame_loop (suc fuel) first bs s = elim (frame_round first bs s) [
  | next first' rest s' ↦ frame_loop fuel first' rest s'
  | stop r ↦ r
]

-- Every round takes three bytes at least, so one round for each byte and one more are enough.
unfoldable pub receive_frames : List ℕ → Session → Received
receive_frames bs s = frame_loop (suc (length bs)) true bs s

-- What `recvLoop` uses of a session: its two decrypters. `none` is a failed authentication.
pub record Decrypters : Type 0 where
  pub meta_decrypt : List ℕ → List ℕ
  pub data_decrypt : List ℕ → Option (List ℕ)

-- One round of the outer loop of `recvLoop`, on the bytes that the connection still brings. Each
-- error calls `onSessionError` and returns.
unfoldable pub receive_session_frame : Decrypters → List ℕ → Session → Received × List ℕ
receive_session_frame d conn s = elim (read_full len_size conn) [
  | none ↦ (failed (on_session_error s), [])
  | some (length_buffer, rest) ↦
      elim (read_full (from_big_endian (d.meta_decrypt length_buffer)) rest) [
        | none ↦ (failed (on_session_error s), [])
        | some (session_frame, rest') ↦ (
          elim (d.data_decrypt session_frame) [
            | none ↦ failed (on_session_error s)
            | some frames ↦ receive_frames frames s
          ],
          rest',
        )
      ]
]

-- `recvLoop`, on the bytes that the connection still brings. The decrypters of the packet with the
-- number `k`; each round takes two bytes at least or is the last one.
unfoldable pub recv_loop : (ℕ → Decrypters) → ℕ → ℕ → List ℕ → Session → Received
recv_loop d zero k conn s = no_fuel
recv_loop d (suc fuel) k conn s =
    let (r, rest) = receive_session_frame (d k) conn s in
    elim r [
      | finished s' ↦ recv_loop d fuel (k + 1) rest s'
      | failed s' ↦ failed s'
      | crashed ↦ crashed
      | no_fuel ↦ no_fuel
    ]
