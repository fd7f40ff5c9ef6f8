-- ===== src/Link/Turns.antt =====
-- One packet of `sendLoop`, and the packets of a whole run of it.
use plampshade.Base.{
  ℕ, ◌+◌, ◌^◌, ◌≤◌, ◌<◌, ◌≡◌, refl, ◌∙◌, Bool, true, List, [], ◌∷◌, ◌++◌, map, length,
  if◌then◌else◌,
}
use plampshade.Wire.{max_session_frame_size}
use plampshade.Wire.Message.{Message, IsMessage, wire, queued}
use plampshade.Session.{Session, close_streams}
use plampshade.Sender.{ok, Crypters}
use plampshade.Sender.Coalesce.{Choice, ready_of, AreOffers, stays_open}
use plampshade.Sender.Send.{pings, ping_due, packet}
use plampshade.Sender.Packet.{IsSized, send-packet}
use plampshade.Sender.Loop.{Line, Turn, session_send, LoopEvent, takes}
use plampshade.Receiver.{Decrypters, finished, receive_session_frame}
use plampshade.Receiver.Loop.{delivered_all, AcceptsAll, AreMessages}
use plampshade.Link.{
  IsInverse, frames_sent, receive_packet, accepted-AreMessages, pings-AreMessages,
}

-- A turn with valid frames.
pub record Sending : Type 0 where
  pub drawn : ℕ
  pub now : ℕ
  pub clock : ℕ
  pub choices : List Choice
  pub message : Message

abbrev pub turn_of : Sending → Turn
turn_of t = record {
  drawn = t.drawn;
  now = t.now;
  clock = t.clock;
  ready = map ready_of t.choices;
  frame = queued t.message;
}

abbrev pub event_of : Sending → LoopEvent
event_of t = takes (turn_of t)

abbrev pub AreSendings : List Sending → Type 0
AreSendings [] = Unit {0}
AreSendings (t ∷ ts) =
    (t.drawn < 256)
    × IsMessage t.message
    × AreOffers t.choices
    × (t.clock < 2 ^ 64)
    × AreSendings ts

module _ (overhead ping_interval : ℕ) where
  abbrev pub open_after : Sending → Bool
  open_after t = stays_open (2 + length (wire t.message) + overhead) t.choices

  abbrev pub next_ping : ℕ → Sending → ℕ
  next_ping last_ping t = if ping_due ping_interval last_ping t.now then t.now else last_ping

  -- The frames of each packet of a loop, up to the one that finds the session closed.
  unfoldable pub packets_sent : ℕ → List Sending → List (List Message)
  packets_sent last_ping [] = []
  packets_sent last_ping (t ∷ ts) =
      frames_sent overhead t.message t.choices ping_interval last_ping t.now t.clock
      ∷ (if open_after t then packets_sent (next_ping last_ping t) ts else [])

unfoldable pub delivered_packets : List (List Message) → Session → Session
delivered_packets [] s = s
delivered_packets (ms ∷ packets) s = delivered_packets packets (delivered_all ms (true, s)).1

abbrev pub AcceptsPackets : List (List Message) → Session → Type 0
AcceptsPackets [] s = Unit {0}
AcceptsPackets (ms ∷ packets) s =
    AcceptsAll ms (true, s) × AcceptsPackets packets (delivered_all ms (true, s)).1

-- What one turn leaves, and what the other end makes of its packet.
pub record Turned (c : Crypters) (d : Decrypters) (overhead ping_interval : ℕ) (t : Sending)
    (line : Line) : Type 0 where
  pub after : Line
  pub bytes : List ℕ
  pub sent :
      session_send c overhead ping_interval (turn_of t) line
      ≡ ok (after, open_after overhead ping_interval t, bytes)
  pub size : length after.session_frame ≡ max_session_frame_size
  pub pinged : after.last_ping ≡ next_ping overhead ping_interval line.last_ping t
  pub received :
      (rest : List ℕ) (s : Session)
      → AcceptsAll
          (frames_sent overhead t.message t.choices ping_interval line.last_ping t.now t.clock)
          (true, s)
      → receive_session_frame d (bytes ++ rest) s ≡ (
        finished
            (delivered_all
              (frames_sent overhead t.message t.choices ping_interval line.last_ping t.now t.clock)
              (true, s)).1,
        rest,
      )

pub turned :
    (c : Crypters) (d : Decrypters) (overhead ping_interval : ℕ) (t : Sending) (line : Line)
    → IsInverse c d
    → IsSized c overhead
    → overhead ≤ 16
    → length line.session_frame ≡ max_session_frame_size
    → t.drawn < 256
    → IsMessage t.message
    → AreOffers t.choices
    → t.clock < 2 ^ 64
    → Turned c d overhead ping_interval t line
unfolding session_send
turned c d overhead ping_interval t line inverse sized ho room hd hm hcs hc =
    let m = t.message in
    let due = ping_due ping_interval line.last_ping t.now in
    let ms = packet overhead m t.choices (pings due t.clock) in
    let (u, l, few, (sent, fits), k, (size, pinged)) =
      send-packet c t.drawn t.now t.clock t.choices m line.session_frame overhead ping_interval
        line.last_ping sized ho hd room hm hcs hc in
    let v : AreMessages ms = (
      hm,
      accepted-AreMessages (2 + length (wire m) + overhead) t.choices (pings due t.clock) hcs
          (pings-AreMessages due t.clock hc),
    ) in
    record {
      after = record {
        session_frame = u.session_frame;
        last_ping = u.last_ping;
        session = close_streams u.closed_streams line.session;
      };
      bytes = _;
      sent = rw sent refl;
      size = size ∙ room;
      pinged = pinged;
      received = λ rest s a. receive_packet c d ms l rest s inverse sized.meta_length v a fits;
    }
