-- ===== src/Receiver/Delivery.antt =====
-- What the receiver makes of the frames that a sender wrote.
use plampshade.Base.{
  ℕ, ◌+◌, ◌≤◌, ◌<◌, ◌≡◌, refl, ap, ◌∙◌, Bool, true, false, List, ◌++◌, append_assoc, some, ltb,
  if◌then◌else◌, length, length-append, take-append, drop-append, arith, Bool-cases, inl, inr,
}
use plampshade.Wire.{
  max_data_len, type_data, type_ping, type_echo, type_ack, type_rst, big_endian, new_header,
}
use plampshade.Wire.Laws.{
  length-big_endian, length-new_header, frame_type_and_id-new_header, from_big_endian-big_endian,
}
use plampshade.Wire.Message.{
  Message, data_of, ack_of, rst_of, ping_at, echo_at, IsMessage, wire, queued,
}
use plampshade.Session.{
  Session, emit, close_stream, get_or_create_stream, has, submitted, acked, empty_ack,
  stream_closed, echoed, rtt_from,
}
use plampshade.Receiver.{
  read_full, Round, next, on_header, on_ack, on_rst, on_ping, on_echo, on_data, on_frame,
  frame_round,
}

-- The state that a frame leaves: the flag `first` and the session.
abbrev pub State : Type 0
State = Bool × Session

-- What each frame is for: data goes to its stream, which is opened if it is new, and not if it was
-- closed; an ACK opens the window of its stream; an RST closes its stream; a ping is echoed.
unfoldable pub delivered : Message → State → State
delivered (data_of id b) (first, s) =
    let (s', is_open) = get_or_create_stream id s in
    let s'' = emit s' (submitted id (wire (data_of id b))) in
    if is_open
    then (false, (if first then (if s.ack_on_first then emit s'' (empty_ack id) else s'') else s''))
    else (first, s')
delivered (ack_of id n) (first, s) = (first, emit (get_or_create_stream id s).0 (acked id n))
delivered (rst_of id) (first, s) =
    let s' = close_stream id s in
    (first, (if has id s.streams then emit s' (stream_closed id) else s'))
delivered (ping_at ts) (first, s) = (first, emit s (echoed (queued (echo_at ts)).bytes))
delivered (echo_at ts) (first, s) = (first, emit s (rtt_from ts))

-- An ACK must not name a closed stream, and an echo needs a session with an `emaRTT`.
abbrev pub Accepts : Message → Session → Type 0
Accepts (ack_of id n) s = (get_or_create_stream id s).1 ≡ true
Accepts (echo_at ts) s = s.tracks_rtt ≡ true
Accepts _ s = Unit {0}

pub read_full-append :
    (n : ℕ) (b rest : List ℕ) → length b ≡ n → read_full n (b ++ rest) ≡ some (b, rest)
unfolding read_full
read_full-append n b rest h =
    let enough : ltb (length (b ++ rest)) n ≡ false = ground (arith, length-append b rest) in
    rw (enough, take-append n b rest h, drop-append n b rest h)

pub frame_round-header :
    (first : Bool) (t id : ℕ) (rest : List ℕ) (s : Session)
    → id < 65536
    → frame_round first (new_header t id ++ rest) s ≡ on_header first (new_header t id) t id rest s
unfolding frame_round
frame_round-header first t id rest s h = rw (
  read_full-append 3 (new_header t id) rest (length-new_header t id),
  frame_round,
  frame_type_and_id-new_header t id h,
)

on_data-frame :
    (first : Bool) (h : List ℕ) (id : ℕ) (b rest : List ℕ) (s : Session)
    → length b ≤ max_data_len
    → on_data first h id (big_endian 2 (length b) ++ (b ++ rest)) s
      ≡ on_frame first id (h ++ (big_endian 2 (length b) ++ b)) rest s
unfolding on_data
on_data-frame first h id b rest s fits =
    let short : ltb 1448 (5 + length b) ≡ false = ground arith in
    rw (
      read_full-append 2 (big_endian 2 (length b)) (b ++ rest) (length-big_endian 2 (length b)),
      from_big_endian-big_endian 2 (length b) (omega arith),
      short,
      read_full-append (length b) b rest refl,
      on_data,
    )

-- A header, `p` and `rest` behind it.
pub frame_round-payload :
    (first : Bool) (t id : ℕ) (p rest : List ℕ) (s : Session)
    → id < 65536
    → frame_round first ((new_header t id ++ p) ++ rest) s
      ≡ on_header first (new_header t id) t id (p ++ rest) s
frame_round-payload first t id p rest s h =
    ap (λ (x : List ℕ). frame_round first x s) (append_assoc (new_header t id) p rest)
    ∙ frame_round-header first t id (p ++ rest) s h

on_data_round :
    (first : Bool) (id : ℕ) (b rest : List ℕ) (s : Session)
    → IsMessage (data_of id b)
    → frame_round first (wire (data_of id b) ++ rest) s
      ≡ on_frame first id (wire (data_of id b)) rest s
unfolding wire on_header
on_data_round first id b rest s h =
    frame_round-payload first type_data id (big_endian 2 (length b) ++ b) rest s h.0
    ∙ ap (λ (x : List ℕ). on_data first (new_header type_data id) id x s)
        (append_assoc (big_endian 2 (length b)) b rest)
    ∙ on_data-frame first (new_header type_data id) id b rest s h.1

abbrev pub Continues : Round → List ℕ → State → Type 0
Continues r rest st = r ≡ next st.0 rest st.1

on_frame-delivered :
    (first : Bool) (id : ℕ) (b rest : List ℕ) (s : Session)
    → Continues
        (on_frame first id (wire (data_of id b)) rest s)
        rest
        (delivered (data_of id b) (first, s))
unfolding on_frame delivered
on_frame-delivered first id b rest s = elim (Bool-cases (get_or_create_stream id s).1) [
  | inl e ↦ rw e (elim (Bool-cases first) [
    | inl f ↦ rw f (elim (Bool-cases s.ack_on_first) [ inl g ↦ rw g | inr g ↦ rw g ])
    | inr f ↦ rw f
  ])
  | inr e ↦ rw e
]

pub frame_round-message :
    (first : Bool) (m : Message) (rest : List ℕ) (s : Session)
    → IsMessage m
    → Accepts m s
    → Continues (frame_round first (wire m ++ rest) s) rest (delivered m (first, s))
frame_round-message first (data_of id b) rest s h a =
    on_data_round first id b rest s h ∙ on_frame-delivered first id b rest s
frame_round-message first (ack_of id n) rest s h a =
    unfold wire delivered on_header on_ack in
    (frame_round-payload first type_ack id (big_endian 4 n) rest s h.0
      ∙ rw (
        a,
        read_full-append 4 (big_endian 4 n) rest (length-big_endian 4 n),
        on_ack,
        from_big_endian-big_endian 4 n (omega arith),
      ))
frame_round-message first (rst_of id) rest s h a =
    unfold wire delivered on_header on_rst in
    (frame_round-header first type_rst id rest s h
      ∙ elim (Bool-cases (has id s.streams)) [ inl e ↦ rw e | inr e ↦ rw e ])
frame_round-message first (ping_at ts) rest s h a =
    unfold wire delivered on_header on_ping in
    (frame_round-payload first type_ping 0 (big_endian 8 ts) rest s (omega arith)
      ∙ rw (read_full-append 8 (big_endian 8 ts) rest (length-big_endian 8 ts), on_ping)
          (unfold queued in refl))
frame_round-message first (echo_at ts) rest s h a =
    unfold wire delivered on_header on_echo in
    (frame_round-payload first type_echo 0 (big_endian 8 ts) rest s (omega arith)
      ∙ rw (
        read_full-append 8 (big_endian 8 ts) rest (length-big_endian 8 ts),
        on_echo,
        a,
        from_big_endian-big_endian 8 ts (omega arith),
      ))
