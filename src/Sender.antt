-- ===== src/Sender.antt =====
-- session.go: `sender`, which coalesces queued frames into one session frame, and
-- `session.writeToWire` and `session.addPadding`, which pad, encrypt and write it.
pub mod Grown
pub mod Buffer
pub mod Coalesce
pub mod Wired
pub mod Send
pub mod Packet
pub mod Loop
use plampshade.Base.{
  ℕ, ◌+◌, ◌-◌, Bool, true, false, ◌&&◌, List, [], ◌∷◌, ◌++◌, ltb, ◌==◌, if◌then◌else◌, length, take,
  drop, replicate, copy_at,
}
use plampshade.Wire.{
  header_size, len_size, max_data_len, max_frame_size, coalesce_threshold, type_ping, type_echo,
  type_ack, type_rst, big_endian, frame_type_and_id, ping,
}
use plampshade.Wire.Message.{Frame}

-- `panicked` is a Go panic: the explicit one of `bufferFrame`, or a slice out of range.
pub data Outcome {ℓ} (A : Type ℓ) : Type ℓ where
  ok : A → Outcome A
  panicked : Outcome A

infixl 5 ◌>>=◌
abbrev pub ◌>>=◌ {ℓ κ} : {A : Type ℓ} {B : Type κ} → Outcome A → (A → Outcome B) → Outcome B
ok a >>= f = f a
panicked >>= f = panicked

-- The fields of `sender`, and those of its session that it works on.
pub record Sender : Type 0 where
  pub session_frame : List ℕ
  pub coalesced_bytes : ℕ
  pub coalesced : ℕ
  pub start_of_data : ℕ
  pub closed_streams : List ℕ
  -- The frames given back to the buffer pool, latest first.
  pub pooled : List (List ℕ)
  pub cipher_overhead : ℕ
  pub ping_interval : ℕ
  pub last_ping : ℕ

unfoldable pub coalesce : Sender → List ℕ → Outcome Sender
coalesce snd b =
    let off = snd.start_of_data + snd.coalesced_bytes in
    if ltb (length snd.session_frame) off
    then panicked
    else ok (record snd {
      session_frame = copy_at off snd.session_frame b;
      coalesced_bytes = snd.coalesced_bytes + length b;
    })

-- The switch of `bufferFrame` on the frame's type.
unfoldable pub buffer_body : Sender → Frame → ℕ → ℕ → ℕ → Outcome Sender
unfolding coalesce
buffer_body snd frame data_len frame_type stream_id =
    if frame_type == type_rst
    then ok (record snd { closed_streams = snd.closed_streams ++ (stream_id ∷ []) })
    else (if frame_type == type_ack
        then coalesce snd (take data_len frame.bytes)
        else (if frame_type == type_ping
            then coalesce snd (take data_len frame.bytes)
            else (if frame_type == type_echo then coalesce snd (take data_len frame.bytes) else (do
              snd' ← coalesce snd (big_endian 2 data_len)
              snd'' ← coalesce snd' (take data_len frame.bytes)
              if ltb frame.cap max_frame_size
                  then panicked
                  else ok (record snd'' { pooled = take data_len frame.bytes ∷ snd''.pooled })))))

unfoldable pub buffer_frame : Sender → Frame → Outcome Sender
buffer_frame snd frame =
    let data_len = length frame.bytes - header_size in
    let header = drop data_len frame.bytes in
    let (frame_type, stream_id) = frame_type_and_id header in
    if ltb (length frame.bytes) header_size
    then panicked
    else (if ltb max_data_len data_len then panicked else (do
      snd' ← coalesce (record snd { coalesced = snd.coalesced + 1 }) header
      buffer_body snd' frame data_len frame_type stream_id))

-- What the `select` of `coalesceAdditionalFrames` meets: the session closed, or a frame from
-- `out` or `echoOut`. The end of a list of these is the `default` case.
pub data Ready : Type 0 where
  closing : Ready
  frame_ready : Frame → Ready

-- The new state, and the result `open`.
unfoldable pub coalesce_additional_frames : List Ready → Sender → Outcome (Sender × Bool)
coalesce_additional_frames [] snd = ok (snd, true)
coalesce_additional_frames (closing ∷ ready) snd =
    if ltb (snd.start_of_data + snd.coalesced_bytes + snd.cipher_overhead) coalesce_threshold
    then ok (snd, false)
    else ok (snd, true)
coalesce_additional_frames (frame_ready f ∷ ready) snd =
    let more = buffer_frame snd f >>= coalesce_additional_frames ready in
    if ltb (snd.start_of_data + snd.coalesced_bytes + snd.cipher_overhead) coalesce_threshold
    then more
    else ok (snd, true)

-- The part of `sender.send` that adds a ping when one is due. `clock` is `mtime.Now()`.
unfoldable pub add_ping : ℕ → ℕ → Sender → Outcome Sender
add_ping now clock snd =
    if ltb 0 snd.ping_interval && ltb snd.ping_interval (now - snd.last_ping)
    then (do
      snd' ← buffer_frame snd (record { bytes = ping clock; cap = 11 })
      ok (record snd' { last_ping = now }))
    else ok snd

-- The padding of `addPadding`: `drawn` is the random number below the maximum, `room` is `len(b)`.
unfoldable pub padding_length : Bool → ℕ → ℕ → ℕ
padding_length enabled drawn room =
    if enabled then (if ltb room (drawn + 1) then room else drawn + 1) else 0

unfoldable pub add_padding : Bool → ℕ → ℕ → List ℕ → List ℕ
add_padding enabled drawn off b =
    copy_at off b (replicate (padding_length enabled drawn (length b - off)) 0)

-- What `writeToWire` uses of a session: whether padding is on, and its two encrypters.
pub record Crypters : Type 0 where
  pub padding_enabled : Bool
  pub data_encrypt : List ℕ → List ℕ
  pub meta_encrypt : List ℕ → List ℕ

-- The length of the data once padded.
unfoldable pub padded_size : Crypters → ℕ → List ℕ → ℕ → ℕ → Bool → ℕ
unfolding padding_length
padded_size c drawn b start frame_size with_padding =
    if with_padding && ltb (start + frame_size) coalesce_threshold
    then frame_size + padding_length c.padding_enabled drawn (length b - (start + frame_size))
    else frame_size

unfoldable pub padded : Crypters → ℕ → List ℕ → ℕ → ℕ → Bool → List ℕ
unfolding add_padding
padded c drawn b start frame_size with_padding =
    if with_padding && ltb (start + frame_size) coalesce_threshold
    then add_padding c.padding_enabled drawn (start + frame_size) b
    else b

-- The bytes given to `s.Write`. Encryption is in place, so the result must fit the buffer.
unfoldable pub write_to_wire : Crypters → ℕ → List ℕ → ℕ → ℕ → Bool → Outcome (List ℕ)
unfolding padded_size padded
write_to_wire c drawn b start frame_size with_padding =
    let size = padded_size c drawn b start frame_size with_padding in
    let b' = padded c drawn b start frame_size with_padding in
    let encrypted = c.data_encrypt (drop start (take (start + size) b')) in
    let whole = copy_at start b' encrypted in
    let prefix = c.meta_encrypt (big_endian 2 (length encrypted)) in
    if ltb start len_size
    then panicked
    else (if ltb (length b) (start + length encrypted)
        then panicked
        else ok (take (start + length encrypted) (copy_at (start - len_size) whole prefix)))

-- `sender.send` after `writeToWire` found no write error: the state, `open`, the bytes written.
unfoldable pub send :
    Crypters → ℕ → ℕ → ℕ → List Ready → Frame → Sender → Outcome (Sender × Bool × List ℕ)
send c drawn now clock ready frame snd = do
  snd1 ← buffer_frame snd frame
  (snd2, is_open) ← coalesce_additional_frames ready snd1
  snd3 ← add_ping now clock snd2
  written ←
      write_to_wire c drawn snd3.session_frame snd3.start_of_data snd3.coalesced_bytes
        (snd3.coalesced == 1)
  ok (snd3, is_open, written)

-- The sender that `session.send` starts with.
abbrev pub new_sender : List ℕ → ℕ → ℕ → ℕ → Sender
new_sender session_frame overhead ping_interval last_ping = record {
  session_frame = session_frame;
  coalesced_bytes = 0;
  coalesced = 0;
  start_of_data = len_size;
  closed_streams = [];
  pooled = [];
  cipher_overhead = overhead;
  ping_interval = ping_interval;
  last_ping = last_ping;
}
