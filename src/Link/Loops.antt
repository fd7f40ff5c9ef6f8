-- ===== src/Link/Loops.antt =====
-- `sendLoop` on one end of a connection and `recvLoop` on the other, over any number of packets.
use mathlib.Core.Path.{subst}
use plampshade.Base.{
  ℕ, zero, suc, ◌+◌, ◌≤◌, ◌<◌, ◌≡◌, refl, sym, ap, ◌∙◌, true, List, [], ◌∷◌, ◌++◌, append-nil, map,
  length, if◌then◌else◌, arith, Bool-cases, inl, inr,
}
use plampshade.Wire.{max_session_frame_size}
use plampshade.Wire.Message.{Message}
use plampshade.Session.{Session, on_session_error}
use plampshade.Sender.{ok, Crypters}
use plampshade.Sender.Packet.{IsSized}
use plampshade.Sender.Loop.{Line, send_loop}
use plampshade.Receiver.{
  Decrypters, Received, finished, failed, read_full, receive_session_frame, recv_loop,
}
use plampshade.Receiver.Loop.{delivered_all}
use plampshade.Link.{IsInverse, frames_sent}
use plampshade.Link.Turns.{
  Sending, event_of, AreSendings, open_after, next_ping, packets_sent, delivered_packets,
  AcceptsPackets, turned,
}

-- The connection ends behind the last packet.
recv_loop-end :
    (d : ℕ → Decrypters) (fuel k : ℕ) (s : Session)
    → 0 < fuel
    → recv_loop d fuel k [] s ≡ failed (on_session_error s)
unfolding recv_loop receive_session_frame
recv_loop-end d zero k s h = absurd (omega arith)
recv_loop-end d (suc fuel) k s h = unfold read_full in refl

pub recv_loop-packet :
    (d : ℕ → Decrypters) (fuel k : ℕ) (conn rest : List ℕ) (s t : Session)
    → receive_session_frame (d k) conn s ≡ (finished t, rest)
    → recv_loop d (suc fuel) k conn s ≡ recv_loop d fuel (k + 1) rest t
unfolding recv_loop
recv_loop-packet d fuel k conn rest s t e =
    let taken : (receive_session_frame (d k) conn s).0 ≡ finished t =
      ap (λ (r : Received × List ℕ). r.0) e in
    rw (taken, recv_loop) (ap (λ (r : Received × List ℕ). recv_loop d fuel (k + 1) r.1 t) e)

-- The bytes that a loop writes, and the session that the other end is left with once the connection
-- has brought them and ended.
abbrev pub Delivers :
    (ℕ → Crypters) → (ℕ → Decrypters) → ℕ → ℕ → ℕ → ℕ → List Sending → Line → Session → Type 0
Delivers c d overhead ping_interval fuel k ts line s =
    (line' : Line) × (bytes : List ℕ) × (send_loop c overhead ping_interval k (map event_of ts) line
      ≡ ok (line', bytes))
    × (recv_loop d fuel k bytes s
        ≡ failed (
            on_session_error
              (delivered_packets (packets_sent overhead ping_interval line.last_ping ts) s)))

-- Two ends whose crypters match, packet by packet, and a cipher that adds at most 16 bytes. For
-- valid frames and paddings of at most 256 bytes, `sendLoop` does not panic, whatever it
-- coalesces, and `recvLoop` takes the packets apart again and does what the frames are for, in
-- their order; it fails at the end of the connection only, if it has a round for each packet and
-- one more. No ACK may name a stream that is closed when its turn comes, and no
-- echo come to a session without an `emaRTT`.
pub recv_loop-send_loop :
    (c : ℕ → Crypters) (d : ℕ → Decrypters) (overhead ping_interval fuel k : ℕ) (ts : List Sending)
    (line : Line) (s : Session)
    → ((i : ℕ) → IsInverse (c i) (d i))
    → ((i : ℕ) → IsSized (c i) overhead)
    → overhead ≤ 16
    → length line.session_frame ≡ max_session_frame_size
    → length ts < fuel
    → AreSendings ts
    → AcceptsPackets (packets_sent overhead ping_interval line.last_ping ts) s
    → Delivers c d overhead ping_interval fuel k ts line s
unfolding send_loop packets_sent delivered_packets
recv_loop-send_loop c d overhead ping_interval zero k ts line s inv sized ho room few v a =
    absurd (omega arith)
recv_loop-send_loop c d overhead ping_interval (suc fuel) k [] line s inv sized ho room few v a =
    (line, [], refl, recv_loop-end d (suc fuel) k s (omega arith))
recv_loop-send_loop c d overhead ping_interval (suc fuel) k (t ∷ ts) line s inv sized ho room few
      (hd, hm, hcs, hc, v) a =
    let u =
      turned (c k) (d k) overhead ping_interval t line (inv k) (sized k) ho room hd hm hcs hc in
    let next = next_ping overhead ping_interval line.last_ping t in
    let ms = frames_sent overhead t.message t.choices ping_interval line.last_ping t.now t.clock in
    let s' = (delivered_all ms (true, s)).1 in
    let after =
      λ (mss : List (List Message)). failed (on_session_error (delivered_packets mss s')) in
    elim (Bool-cases (open_after overhead ping_interval t)) [
      | inl e ↦
          let accepts : AcceptsPackets (packets_sent overhead ping_interval u.after.last_ping ts)
              s' =
            subst (λ p. AcceptsPackets (packets_sent overhead ping_interval p ts) s') (sym u.pinged)
              (rw e at a.1) in
          let (line', more, sent, got) =
            recv_loop-send_loop c d overhead ping_interval fuel (k + 1) ts u.after s' inv sized ho
              u.size (omega arith) v accepts in
          (
            line',
            u.bytes ++ more,
            rw (u.sent, e, sent) refl,
            recv_loop-packet d fuel k (u.bytes ++ more) more s s' (u.received more s a.0)
                ∙ got
                ∙ ap (λ p. after (packets_sent overhead ping_interval p ts)) u.pinged
                ∙ ap (λ o. after (if o then packets_sent overhead ping_interval next ts else []))
                    (sym e),
          )
      | inr e ↦ (
        u.after,
        u.bytes,
        rw (u.sent, e) refl,
        ap (λ b. recv_loop d (suc fuel) k b s) (sym (append-nil u.bytes))
            ∙ recv_loop-packet d fuel k (u.bytes ++ []) [] s s' (u.received [] s a.0)
            ∙ recv_loop-end d fuel (k + 1) s' (omega arith)
            ∙ ap (λ o. after (if o then packets_sent overhead ping_interval next ts else []))
                (sym e),
      )
    ]
