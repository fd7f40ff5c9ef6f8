-- ===== src/Receiver/Keeps.antt =====
-- session.go: properties of a session under any bytes that the receiver reads.
use plampshade.Base.{
  ℕ, zero, suc, ◌+◌, ◌≡◌, refl, Bool, true, List, ltb, ◌==◌, length, Option-cases, inl, inr,
  if_rule,
}
use plampshade.Wire.{from_big_endian, frame_type_and_id}
use plampshade.Session.{
  Session, get_or_create_stream, on_session_error, emit, close_stream, stream_closed, has,
  submitted, acked, empty_ack, echoed, rtt_from,
}
use plampshade.Receiver.{
  read_full, Received, finished, failed, crashed, no_fuel, Round, next, stop, on_header, on_ack,
  on_rst, on_ping, on_echo, on_data, on_frame, frame_round, frame_loop, receive_frames,
}

-- An invariant of sessions under what the receiver does to one. Only a stream that is open, or can
-- be opened, gets data and ACKs.
pub record Keeps (P : Session → Type 0) : Type 0 where
  pub creates : (id : ℕ) (s : Session) → P s → P (get_or_create_stream id s).0
  pub closes : (id : ℕ) (s : Session) → P s → P (close_stream id s)
  pub errs : (s : Session) → P s → P (on_session_error s)
  pub notes_closed : (id : ℕ) (s : Session) → P s → P (emit s (stream_closed id))
  pub notes_echo : (b : List ℕ) (s : Session) → P s → P (emit s (echoed b))
  pub notes_rtt : (ts : ℕ) (s : Session) → P s → P (emit s (rtt_from ts))
  pub notes_ack :
      (id n : ℕ) (s : Session)
      → (get_or_create_stream id s).1 ≡ true
      → P s
      → P (emit (get_or_create_stream id s).0 (acked id n))
  pub notes_data :
      (id : ℕ) (b : List ℕ) (s : Session)
      → (get_or_create_stream id s).1 ≡ true
      → P s
      → P (emit (get_or_create_stream id s).0 (submitted id b))
  pub notes_empty :
      (id : ℕ) (b : List ℕ) (s : Session)
      → (get_or_create_stream id s).1 ≡ true
      → P s
      → P (emit (emit (get_or_create_stream id s).0 (submitted id b)) (empty_ack id))

-- The session that the receiver leaves has the property; a panic leaves none.
abbrev pub Ends : (Session → Type 0) → Received → Type 0
Ends P (finished s) = P s
Ends P (failed s) = P s
Ends P crashed = Unit {0}
Ends P no_fuel = Unit {0}

module _ (P : Session → Type 0) (keep : Keeps P) where
  abbrev Holds : Round → Type 0
  Holds (next first rest s) = P s
  Holds (stop r) = Ends P r

  on_ack-Holds :
      (first : Bool) (id : ℕ) (bs : List ℕ) (s : Session) → P s → Holds (on_ack first id bs s)
  unfolding on_ack
  on_ack-Holds first id bs s p =
      if_rule Holds (get_or_create_stream id s).1
        (λ e. elim (Option-cases (read_full 4 bs)) [
          | inl r ↦ rw (r, on_ack) (keep.errs _ (keep.creates id s p))
          | inr ((b, rest), r) ↦ rw (r, on_ack) (keep.notes_ack id (from_big_endian b) s e p)
        ])
        (λ e. keep.creates id s p)

  on_rst-Holds :
      (first : Bool) (id : ℕ) (bs : List ℕ) (s : Session) → P s → Holds (on_rst first id bs s)
  unfolding on_rst
  on_rst-Holds first id bs s p =
      if_rule Holds (has id s.streams) (λ e. keep.notes_closed id _ (keep.closes id s p))
        (λ e. keep.closes id s p)

  on_ping-Holds : (first : Bool) (bs : List ℕ) (s : Session) → P s → Holds (on_ping first bs s)
  unfolding on_ping
  on_ping-Holds first bs s p = elim (Option-cases (read_full 8 bs)) [
    | inl r ↦ rw (r, on_ping) (keep.errs s p)
    | inr ((b, rest), r) ↦ rw (r, on_ping) (keep.notes_echo _ s p)
  ]

  on_echo-Holds : (first : Bool) (bs : List ℕ) (s : Session) → P s → Holds (on_echo first bs s)
  unfolding on_echo
  on_echo-Holds first bs s p = elim (Option-cases (read_full 8 bs)) [
    | inl r ↦ rw (r, on_echo) (keep.errs s p)
    | inr ((b, rest), r) ↦
        rw (r, on_echo) (if_rule Holds s.tracks_rtt (λ e. keep.notes_rtt _ s p) (λ e. tt))
  ]

  on_frame-Holds :
      (first : Bool) (id : ℕ) (frame rest : List ℕ) (s : Session)
      → P s
      → Holds (on_frame first id frame rest s)
  unfolding on_frame
  on_frame-Holds first id frame rest s p =
      if_rule Holds (get_or_create_stream id s).1
        (λ e.
          if_rule Holds first
            (λ f.
              if_rule Holds s.ack_on_first (λ g. keep.notes_empty id frame s e p)
                (λ g. keep.notes_data id frame s e p))
            (λ f. keep.notes_data id frame s e p))
        (λ e. keep.creates id s p)

  on_data-Holds :
      (first : Bool) (header : List ℕ) (id : ℕ) (bs : List ℕ) (s : Session)
      → P s
      → Holds (on_data first header id bs s)
  unfolding on_data
  on_data-Holds first header id bs s p = elim (Option-cases (read_full 2 bs)) [
    | inl r ↦ rw (r, on_data) (keep.errs s p)
    | inr ((len_bytes, rest), r) ↦
        rw (r, on_data)
          (if_rule Holds (ltb 1448 (5 + from_big_endian len_bytes)) (λ e. tt)
            λ e. elim (Option-cases (read_full (from_big_endian len_bytes) rest)) [
              | inl q ↦ rw (q, on_data) (keep.errs s p)
              | inr ((b, rest'), q) ↦ rw (q, on_data) (on_frame-Holds first id _ rest' s p)
            ])
  ]

  on_header-Holds :
      (first : Bool) (header : List ℕ) (t id : ℕ) (bs : List ℕ) (s : Session)
      → P s
      → Holds (on_header first header t id bs s)
  unfolding on_header
  on_header-Holds first header t id bs s p =
      if_rule Holds (t == 0) (λ e. p)
        λ e.
          if_rule Holds (t == 254) (λ e. on_ack-Holds first id bs s p)
            λ e.
              if_rule Holds (t == 255) (λ e. on_rst-Holds first id bs s p)
                λ e.
                  if_rule Holds (t == 252) (λ e. on_ping-Holds first bs s p)
                    λ e.
                      if_rule Holds (t == 253) (λ e. on_echo-Holds first bs s p)
                        λ e. on_data-Holds first header id bs s p

  frame_round-Holds :
      (first : Bool) (bs : List ℕ) (s : Session) → P s → Holds (frame_round first bs s)
  unfolding frame_round
  frame_round-Holds first bs s p = elim (Option-cases (read_full 3 bs)) [
    | inl r ↦ rw (r, frame_round) p
    | inr ((header, rest), r) ↦
        let h = frame_type_and_id header in
        rw (r, frame_round) (on_header-Holds first header h.0 h.1 rest s p)
  ]

  after_round-Ends :
      (fuel : ℕ) (first : Bool) (bs : List ℕ) (s : Session) (r : Round)
      → frame_round first bs s ≡ r
      → Holds r
      → ((first' : Bool) (rest : List ℕ) (s' : Session)
          → P s'
          → Ends P (frame_loop fuel first' rest s'))
      → Ends P (frame_loop (suc fuel) first bs s)
  unfolding frame_loop
  after_round-Ends fuel first bs s (next first' rest s') e h go =
      rw (e, frame_loop) (go first' rest s' h)
  after_round-Ends fuel first bs s (stop r) e h go = rw (e, frame_loop) h

  frame_loop-Ends :
      (fuel : ℕ) (first : Bool) (bs : List ℕ) (s : Session)
      → P s
      → Ends P (frame_loop fuel first bs s)
  frame_loop-Ends zero first bs s p = unfold frame_loop in tt
  frame_loop-Ends (suc fuel) first bs s p =
      after_round-Ends fuel first bs s (frame_round first bs s) refl
        (frame_round-Holds first bs s p) λ first' rest s' p'. frame_loop-Ends fuel first' rest s' p'

  pub receive_frames-Ends : (bs : List ℕ) (s : Session) → P s → Ends P (receive_frames bs s)
  unfolding receive_frames
  receive_frames-Ends bs s p = frame_loop-Ends (suc (length bs)) true bs s p
