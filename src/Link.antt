-- ===== src/Link.antt =====
-- The two ends of a connection: `sender.send` and `recvLoop`.
pub mod Turns
pub mod Loops
pub mod Encrypted
use plampshade.Base.{
  ℕ, ◌+◌, ◌^◌, ◌≤◌, ◌<◌, ◌≡◌, refl, ◌∙◌, Bool, true, false, List, [], ◌∷◌, ◌++◌, append_assoc, some,
  map, length, replicate, ltb, if_rule,
}
use plampshade.Wire.{coalesce_threshold, max_session_frame_size, big_endian}
use plampshade.Wire.Laws.{length-big_endian, from_big_endian-big_endian}
use plampshade.Wire.Message.{Message, IsMessage, wire, wires, queued}
use plampshade.Session.{Session}
use plampshade.Sender.{ok, Sender, Crypters, new_sender, send}
use plampshade.Sender.Coalesce.{Choice, closes_session, offers, ready_of, AreOffers, accepted}
use plampshade.Sender.Send.{pings, ping_due, packet}
use plampshade.Sender.Packet.{IsSized, send-packet}
use plampshade.Receiver.{Decrypters, finished, receive_session_frame}
use plampshade.Receiver.Delivery.{read_full-append}
use plampshade.Receiver.Loop.{delivered_all, AcceptsAll, AreMessages, receive_frames-wires}

-- The receiver's decrypters undo the sender's encrypters.
pub record IsInverse (c : Crypters) (d : Decrypters) : Type 0 where
  pub opens : (x : List ℕ) → d.data_decrypt (c.data_encrypt x) ≡ some x
  pub reads_length : (x : List ℕ) → d.meta_decrypt (c.meta_encrypt x) ≡ x

-- The receiver on one packet with its length in front of it.
pub receive_packet :
    (c : Crypters) (d : Decrypters) (ms : List Message) (l : ℕ) (rest : List ℕ) (s : Session)
    → IsInverse c d
    → ((x : List ℕ) → length (c.meta_encrypt x) ≡ length x)
    → AreMessages ms
    → AcceptsAll ms (true, s)
    → let e = c.data_encrypt (wires ms ++ replicate l 0) in
      length e < 65536
      → receive_session_frame d ((c.meta_encrypt (big_endian 2 (length e)) ++ e) ++ rest) s
        ≡ (finished (delivered_all ms (true, s)).1, rest)
unfolding receive_session_frame
receive_packet c d ms l rest s inverse sized v a fits =
    let e = c.data_encrypt (wires ms ++ replicate l 0) in
    let prefix = c.meta_encrypt (big_endian 2 (length e)) in
    rw (
      append_assoc prefix e rest,
      read_full-append 2 prefix (e ++ rest)
          (sized (big_endian 2 (length e)) ∙ length-big_endian 2 (length e)),
      receive_session_frame,
      inverse.reads_length (big_endian 2 (length e)),
      from_big_endian-big_endian 2 (length e) fits,
      read_full-append (length e) e rest refl,
      receive_session_frame,
      inverse.opens (wires ms ++ replicate l 0),
      receive_session_frame,
      receive_frames-wires ms l s v a,
    )

pub accepted-AreMessages :
    (n : ℕ) (cs : List Choice) (tail : List Message)
    → AreOffers cs
    → AreMessages tail
    → AreMessages (accepted n cs ++ tail)
unfolding accepted
accepted-AreMessages n [] tail v h = h
accepted-AreMessages n (closes_session ∷ cs) tail v h = h
accepted-AreMessages n (offers m ∷ cs) tail v h =
    if_rule (λ (ms : List Message). AreMessages (ms ++ tail)) (ltb n coalesce_threshold)
      (λ e. (v.0, accepted-AreMessages (n + length (wire m)) cs tail v.1 h)) (λ e. h)

pub pings-AreMessages : (due : Bool) (clock : ℕ) → clock < 2 ^ 64 → AreMessages (pings due clock)
pings-AreMessages true clock h = (h, tt)
pings-AreMessages false clock h = tt

-- The frames of the packet that `send` makes.
abbrev pub frames_sent : ℕ → Message → List Choice → ℕ → ℕ → ℕ → ℕ → List Message
frames_sent overhead m cs ping_interval last_ping now clock =
    packet overhead m cs (pings (ping_due ping_interval last_ping now) clock)
