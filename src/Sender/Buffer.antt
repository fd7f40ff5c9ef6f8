-- ===== src/Sender/Buffer.antt =====
-- `bufferFrame`: what one queued frame adds to the session frame.
use plampshade.Base.{
  ℕ, ◌+◌, ◌-◌, ◌≤◌, ◌<◌, ◌≡◌, refl, sym, ap, ◌∙◌, ◌⊎◌, inl, inr, false, List, [], ◌∷◌, ◌++◌,
  append-nil, arith, ltb, length, length-append, take, take-append, drop-append,
}
use plampshade.Wire.{
  max_data_len, max_frame_size, type_data, type_ack, type_ping, type_echo, type_rst, big_endian,
  new_header,
}
use plampshade.Wire.Laws.{
  length-big_endian, length-new_header, frame_type_and_id-new_header, with_frame_type-new_header,
}
use plampshade.Wire.Message.{
  Frame, Message, data_of, ack_of, rst_of, ping_at, echo_at, queued, wire, IsMessage, queued_ack,
  queued_ping, queued_echo,
}
use plampshade.Sender.{ok, Sender, coalesce, buffer_body, buffer_frame}
use plampshade.Sender.Grown.{
  Room, grown, Grown, coalesce_fits, grown-Grown, Grown-trans, grown2, Room-grown,
  coalesce_fits_second, grown2-Grown, counted,
}

-- `bufferFrame` on data with a header behind it: the header goes first.
buffer_frame_split :
    (snd : Sender) (p : List ℕ) (t id cap : ℕ)
    → id < 65536
    → length p ≤ max_data_len
    → Room snd 3
    → buffer_frame snd (record { bytes = p ++ new_header t id; cap = cap })
      ≡ buffer_body
          (grown (record snd { coalesced = snd.coalesced + 1 }) (new_header t id))
          (record { bytes = p ++ new_header t id; cap = cap })
          (length p)
          t
          id
unfolding buffer_frame
buffer_frame_split snd p t id cap hid hp room =
    let h = new_header t id in
    let whole : length (p ++ h) ≡ length p + 3 =
      omega (arith, length-append p h, length-new_header t id) in
    let data_len : length (p ++ h) - 3 ≡ length p = omega arith in
    let long : ltb (length (p ++ h)) 3 ≡ false = ground arith in
    let short : ltb max_data_len (length p) ≡ false = ground arith in
    rw (
      long,
      data_len,
      short,
      drop-append (length p) p h refl,
      frame_type_and_id-new_header t id hid,
      coalesce_fits (record snd { coalesced = snd.coalesced + 1 }) h
          (omega (arith, length-new_header t id)),
    )

abbrev Control : ℕ → Type 0
Control t = (t ≡ type_ack) ⊎ ((t ≡ type_ping) ⊎ (t ≡ type_echo))

buffer_body-Control :
    (snd : Sender) (f : Frame) (n t id : ℕ)
    → Control t
    → buffer_body snd f n t id ≡ coalesce snd (take n f.bytes)
unfolding buffer_body
buffer_body-Control snd f n t id (inl e) = rw e
buffer_body-Control snd f n t id (inr (inl e)) = rw e
buffer_body-Control snd f n t id (inr (inr e)) = rw e

-- ACK, ping and echo frames: the header, then the payload.
buffer_frame-Control :
    (snd : Sender) (p : List ℕ) (t id cap : ℕ)
    → id < 65536
    → length p ≤ max_data_len
    → Control t
    → Room snd (3 + length p)
    → buffer_frame snd (record { bytes = p ++ new_header t id; cap = cap })
      ≡ ok (grown2 (record snd { coalesced = snd.coalesced + 1 }) (new_header t id) p)
buffer_frame-Control snd p t id cap hid hp kind room =
    let h = new_header t id in
    let snd1 : Sender = record snd { coalesced = snd.coalesced + 1 } in
    buffer_frame_split snd p t id cap hid hp (omega arith)
    ∙ buffer_body-Control (grown snd1 h) (record { bytes = p ++ h; cap = cap }) (length p) t id kind
    ∙ ap (coalesce (grown snd1 h)) (take-append (length p) p h refl)
    ∙ coalesce_fits_second snd1 h p (omega (arith, length-new_header t id))

-- What a frame must leave behind in the sender, beside the data.
pub record Buffered (snd snd' : Sender) (m : Message) : Type 0 where
  pub grown_by : Grown snd snd' (wire m)
  pub one_more : snd'.coalesced ≡ snd.coalesced + 1
  pub overhead_kept : snd'.cipher_overhead ≡ snd.cipher_overhead
  pub interval_kept : snd'.ping_interval ≡ snd.ping_interval
  pub ping_kept : snd'.last_ping ≡ snd.last_ping

abbrev pub closes : Message → List ℕ
closes (rst_of id) = id ∷ []
closes _ = []

abbrev pub frees : Message → List (List ℕ)
frees (data_of id b) = b ∷ []
frees _ = []

abbrev pub Buffers : Sender → Message → Type 0
Buffers snd m =
    (snd' : Sender) × (buffer_frame snd (queued m) ≡ ok snd')
    × Buffered snd snd' m
    × (snd'.closed_streams ≡ snd.closed_streams ++ closes m)
    × (snd'.pooled ≡ frees m ++ snd.pooled)

buffer_message-Control :
    (snd : Sender) (m : Message) (p : List ℕ) (t id : ℕ)
    → (queued m).bytes ≡ p ++ new_header t id
    → wire m ≡ new_header t id ++ p
    → closes m ≡ []
    → frees m ≡ []
    → id < 65536
    → length p ≤ max_data_len
    → Control t
    → Room snd (3 + length p)
    → Buffers snd m
buffer_message-Control snd m p t id q w c f hid hp kind room =
    let h = new_header t id in
    let snd1 : Sender = record snd { coalesced = snd.coalesced + 1 } in
    let e : queued m ≡ record { bytes = p ++ h; cap = (queued m).cap } =
      λ i. record { bytes = q i; cap = (queued m).cap } in
    let g : Grown snd (grown2 snd1 h p) (h ++ p) =
      counted snd (grown2 snd1 h p) (h ++ p) (snd.coalesced + 1)
        (grown2-Grown snd1 h p (omega (arith, length-new_header t id))) in
    (
      grown2 snd1 h p,
      ap (buffer_frame snd) e ∙ buffer_frame-Control snd p t id (queued m).cap hid hp kind room,
      record {
        grown_by = rw w g;
        one_more = refl;
        overhead_kept = refl;
        interval_kept = refl;
        ping_kept = refl;
      },
      rw c (sym (append-nil snd.closed_streams)),
      rw f refl,
    )

buffer_rst : (snd : Sender) (id : ℕ) → id < 65536 → Room snd 3 → Buffers snd (rst_of id)
unfolding queued wire buffer_body
buffer_rst snd id hid room =
    let h = new_header type_rst id in
    let snd1 : Sender = record snd { coalesced = snd.coalesced + 1 } in
    (
      record (grown snd1 h) { closed_streams = snd.closed_streams ++ (id ∷ []) },
      ap (λ (b : List ℕ). buffer_frame snd (record { bytes = b; cap = 3 }))
            (with_frame_type-new_header type_data type_rst id)
          ∙ buffer_frame_split snd [] type_rst id 3 hid (omega arith) room,
      (let g = grown-Grown snd1 h (omega (arith, length-new_header type_rst id)) in
          record {
            grown_by = record { start = refl; count = refl; size = g.size; bytes = g.bytes };
            one_more = refl;
            overhead_kept = refl;
            interval_kept = refl;
            ping_kept = refl;
          }),
      refl,
      refl,
    )

buffer_data :
    (snd : Sender) (id : ℕ) (b : List ℕ)
    → id < 65536
    → length b ≤ max_data_len
    → Room snd (5 + length b)
    → Buffers snd (data_of id b)
unfolding queued wire buffer_body
buffer_data snd id b hid hb room =
    let h = new_header type_data id in
    let snd1 : Sender = record snd { coalesced = snd.coalesced + 1 } in
    let n = big_endian 2 (length b) in
    let s : Sender = grown snd1 h in
    let n2 = length-big_endian 2 (length b) in
    let h3 = length-new_header type_data id in
    let room' = Room-grown snd1 h (2 + length b) (omega arith) in
    (
      record (grown2 s n b) { pooled = b ∷ snd.pooled },
      buffer_frame_split snd b type_data id max_frame_size hid hb (omega arith)
          ∙ rw (
            take-append (length b) b h refl,
            coalesce_fits s n (omega arith),
            coalesce_fits (grown s n) b (Room-grown s n (length b) (omega arith)),
          ),
      (let g =
            Grown-trans snd1 s (grown2 s n b) h (n ++ b) (grown-Grown snd1 h (omega arith))
              (grown2-Grown s n b (omega arith)) in
          record {
            grown_by = record { start = g.start; count = g.count; size = g.size; bytes = g.bytes };
            one_more = refl;
            overhead_kept = refl;
            interval_kept = refl;
            ping_kept = refl;
          }),
      sym (append-nil snd.closed_streams),
      refl,
    )

-- Buffering a valid frame never panics where there is room. It writes the frame as the protocol
-- describes it behind what was there, counts it, notes a stream that an RST closes and gives the
-- buffer of a data frame back.
pub buffer_frame-wire :
    (snd : Sender) (m : Message) → IsMessage m → Room snd (length (wire m)) → Buffers snd m
unfolding wire
buffer_frame-wire snd (data_of id b) h room = buffer_data snd id b h.0 h.1 (
    omega (
      arith,
      length-append (new_header type_data id) (big_endian 2 (length b) ++ b),
      length-append (big_endian 2 (length b)) b,
      length-big_endian 2 (length b),
      length-new_header type_data id,
    ))
buffer_frame-wire snd (ack_of id n) h room =
    buffer_message-Control snd (ack_of id n) (big_endian 4 n) type_ack id (queued_ack id n h.1) refl
      refl refl h.0 (omega (arith, length-big_endian 4 n)) (inl refl)
      (omega (
        arith,
        length-append (new_header type_ack id) (big_endian 4 n),
        length-new_header type_ack id,
      ))
buffer_frame-wire snd (rst_of id) h room =
    buffer_rst snd id h (omega (arith, length-new_header type_rst id))
buffer_frame-wire snd (ping_at ts) h room =
    buffer_message-Control snd (ping_at ts) (big_endian 8 ts) type_ping 0 (queued_ping ts) refl refl
      refl (omega arith) (omega (arith, length-big_endian 8 ts)) (inr (inl refl))
      (omega (
        arith,
        length-append (new_header type_ping 0) (big_endian 8 ts),
        length-new_header type_ping 0,
      ))
buffer_frame-wire snd (echo_at ts) h room =
    buffer_message-Control snd (echo_at ts) (big_endian 8 ts) type_echo 0 (queued_echo ts) refl refl
      refl (omega arith) (omega (arith, length-big_endian 8 ts)) (inr (inr refl))
      (omega (
        arith,
        length-append (new_header type_echo 0) (big_endian 8 ts),
        length-new_header type_echo 0,
      ))
