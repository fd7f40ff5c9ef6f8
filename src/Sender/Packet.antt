-- ===== src/Sender/Packet.antt =====
-- `sender.send`: the bytes of the packet that it writes.
use plampshade.Base.{
  ℕ, ◌+◌, ◌-◌, ◌^◌, ◌≤◌, ◌<◌, ◌≡◌, refl, ap, ◌∙◌, Bool, List, ◌∷◌, ◌++◌, map, ◌==◌, length,
  length-append, arith, drop, drop-append, replicate, length-take, length-replicate,
}
use plampshade.Wire.{max_session_frame_size, big_endian}
use plampshade.Wire.Message.{Message, IsMessage, wire, wires, queued}
use plampshade.Sender.{ok, Sender, Crypters, new_sender, write_to_wire, send}
use plampshade.Sender.Grown.{written, Grown}
use plampshade.Sender.Coalesce.{Choice, ready_of, AreOffers, accepted, stays_open, closes_all}
use plampshade.Sender.Wired.{plain_text, padding, padding-le, write_to_wire-frame}
use plampshade.Sender.Send.{pings, ping_due, packet, Collects, collects, Leaves}

-- An encryption that adds `overhead` bytes, and one that keeps the length.
pub record IsSized (c : Crypters) (overhead : ℕ) : Type 0 where
  pub data_length : (x : List ℕ) → length (c.data_encrypt x) ≡ length x + overhead
  pub meta_length : (x : List ℕ) → length (c.meta_encrypt x) ≡ length x

plain_text-Grown :
    (c : Crypters) (drawn : ℕ) (s t : Sender) (w : List ℕ) (with_padding : Bool)
    → Grown s t w
    → s.start_of_data ≡ 2
    → s.coalesced_bytes ≡ 0
    → 2 ≤ length s.session_frame
    → plain_text c drawn t.session_frame t.start_of_data t.coalesced_bytes with_padding
      ≡ w
        ++ replicate
            (padding c drawn t.session_frame t.start_of_data t.coalesced_bytes with_padding)
            0
unfolding plain_text
plain_text-Grown c drawn s t w with_padding g h2 h0 room =
    let z : List ℕ =
      replicate (padding c drawn t.session_frame t.start_of_data t.coalesced_bytes with_padding)
        0 in
    let two : length (written s) ≡ t.start_of_data =
      omega (arith, length-take (s.start_of_data + s.coalesced_bytes) s.session_frame, g.start) in
    ap (λ (x : List ℕ). x ++ z)
      (ap (drop t.start_of_data) g.bytes ∙ drop-append t.start_of_data (written s) w two)

-- What `send` yields: the state, whether the session stays open, and the packet.
abbrev pub Sends : Crypters → ℕ → ℕ → ℕ → List Choice → Message → Sender → Type 0
Sends c drawn now clock cs m s =
    let overhead = s.cipher_overhead in
    let ms = packet overhead m cs (pings (ping_due s.ping_interval s.last_ping now) clock) in
    (t : Sender) × (l : ℕ) × (l ≤ drawn + 1)
    × (let e = c.data_encrypt (wires ms ++ replicate l 0) in
        (send c drawn now clock (map ready_of cs) (queued m) s
          ≡ ok (
            t,
            stays_open (2 + length (wire m) + overhead) cs,
            c.meta_encrypt (big_endian 2 (length e)) ++ e,
          ))
        × (length e < 65536))
    × (t.closed_streams ≡ closes_all (m ∷ accepted (2 + length (wire m) + overhead) cs))
    × Leaves now s t

sends :
    (c : Crypters) (drawn now clock : ℕ) (cs : List Choice) (m : Message) (s : Sender)
    → IsSized c s.cipher_overhead
    → s.start_of_data ≡ 2
    → s.coalesced_bytes ≡ 0
    → s.cipher_overhead ≤ 16
    → drawn < 256
    → length s.session_frame ≡ max_session_frame_size
    → Collects s now clock m cs
    → Sends c drawn now clock cs m s
unfolding send
sends c drawn now clock cs m s sized h2 h0 ho hd room (s1, s2, t, e1, e2, e3, g, k, bound, left) =
    let pk =
      packet s.cipher_overhead m cs (pings (ping_due s.ping_interval s.last_ping now) clock) in
    let w = wires pk in
    let wp = t.coalesced == 1 in
    let l = padding c drawn t.session_frame t.start_of_data t.coalesced_bytes wp in
    let few = padding-le c drawn t.session_frame t.start_of_data t.coalesced_bytes wp in
    let z : List ℕ = replicate l 0 in
    let e = c.data_encrypt (w ++ z) in
    let size : length e ≡ length w + l + s.cipher_overhead =
      omega (arith, sized.data_length (w ++ z), length-append w z, length-replicate {A = ℕ} l 0) in
    let p = plain_text-Grown c drawn s t w wp g h2 h0 (omega arith) in
    let fits : t.start_of_data + length e ≤ length t.session_frame =
      omega (arith, g.start, g.count, g.size) in
    let front : t.start_of_data - 2 ≡ 0 = omega (arith, g.start) in
    let out : write_to_wire c drawn t.session_frame t.start_of_data t.coalesced_bytes wp
        ≡ ok (c.meta_encrypt (big_endian 2 (length e)) ++ e) =
      write_to_wire-frame c drawn t.session_frame t.start_of_data t.coalesced_bytes wp
        sized.meta_length (omega (arith, g.start)) (omega arith) (rw p fits)
      ∙ rw (p, front) in
    (t, l, few, (rw (e1, e2, e3, out), omega (arith, g.count, g.start)), k, left)

-- Sending a valid frame never panics, whatever valid frames are ready behind it. The session then
-- writes one packet, its length in two bytes and the encrypted data: the frame, those that
-- `accepted` says, a ping if one is due, and zero bytes of padding. RSTs among them close their
-- streams. The buffer keeps its size and the time of a ping is noted. This supposes padding of at
-- most 256 bytes and a cipher that adds at most 16.
pub send-packet :
    (c : Crypters) (drawn now clock : ℕ) (cs : List Choice) (m : Message)
    → (session_frame : List ℕ) (overhead ping_interval last_ping : ℕ) → IsSized c overhead
    → overhead ≤ 16
    → drawn < 256
    → length session_frame ≡ max_session_frame_size
    → IsMessage m
    → AreOffers cs
    → clock < 2 ^ 64
    → Sends c drawn now clock cs m (new_sender session_frame overhead ping_interval last_ping)
send-packet c drawn now clock cs m session_frame overhead ping_interval last_ping sized ho hd room
      hm hcs hc =
    let s = new_sender session_frame overhead ping_interval last_ping in
    sends c drawn now clock cs m s sized refl refl ho hd room
      (collects s now clock m cs refl refl refl (omega arith) hm hcs hc)
