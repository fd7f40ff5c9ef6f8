-- ===== src/Receiver/Crashes.antt =====
-- session.go: bytes of a peer that make `recvLoop`, and so the process, panic.
use plampshade.Base.{ℕ, ◌<◌, ◌≡◌, refl, ◌∙◌, Bool, true, false, List, [], ◌∷◌, ◌++◌, arith}
use plampshade.Wire.{max_data_len, type_data, type_echo, big_endian, new_header}
use plampshade.Wire.Laws.{length-big_endian}
use plampshade.Wire.Message.{Message, data_of, ack_of, rst_of, ping_at, echo_at, wire, wires}
use plampshade.Session.{Session, close, close_stream, get_or_create_stream}
use plampshade.Receiver.{crashed, stop, on_header, on_echo, frame_round, frame_loop, receive_frames}
use plampshade.Receiver.Delivery.{State, delivered, frame_round-payload, read_full-append}
use plampshade.Receiver.Loop.{delivered_all, AcceptsAll, AreMessages, receive_frames-append}
use plampshade.Receiver.Faults.{frame_round_crashes}

-- What the bytes begin with: a data frame whose length field says more than `MaxDataLen`, or an
-- echo for a session without an `emaRTT`.
pub data Crashing (s : Session) : List ℕ → Type 0 where
  overlong :
      (id n : ℕ) (rest : List ℕ)
      → id < 65536
      → max_data_len < n
      → n < 65536
      → Crashing s (new_header type_data id ++ (big_endian 2 n ++ rest))
  untracked :
      (ts : ℕ) (rest : List ℕ) → s.tracks_rtt ≡ false → Crashing s (wire (echo_at ts) ++ rest)

echo_crashes :
    (first : Bool) (ts : ℕ) (rest : List ℕ) (s : Session)
    → s.tracks_rtt ≡ false
    → frame_round first (wire (echo_at ts) ++ rest) s ≡ stop crashed
unfolding wire on_header on_echo
echo_crashes first ts rest s h =
    frame_round-payload first type_echo 0 (big_endian 8 ts) rest s (omega arith)
    ∙ rw (read_full-append 8 (big_endian 8 ts) rest (length-big_endian 8 ts), on_echo, h)

frame_round-crashes :
    (first : Bool) (bs : List ℕ) (s t : Session)
    → t.tracks_rtt ≡ s.tracks_rtt
    → Crashing s bs
    → frame_round first bs t ≡ stop crashed
frame_round-crashes first bs s t e (overlong id n rest hid long fits) =
    frame_round_crashes first id n rest t hid long fits
frame_round-crashes first bs s t e (untracked ts rest h) = echo_crashes first ts rest t (e ∙ h)

pub created-tracks_rtt :
    (id : ℕ) (s : Session) → (get_or_create_stream id s).0.tracks_rtt ≡ s.tracks_rtt
unfolding get_or_create_stream
created-tracks_rtt id s = ground arith

pub closed-tracks_rtt : (id : ℕ) (s : Session) → (close_stream id s).tracks_rtt ≡ s.tracks_rtt
unfolding close_stream close
closed-tracks_rtt id s = ground arith

delivered-tracks_rtt : (m : Message) (st : State) → (delivered m st).1.tracks_rtt ≡ st.1.tracks_rtt
unfolding delivered
delivered-tracks_rtt (data_of id b) (first, s) = ground (arith, created-tracks_rtt id s)
delivered-tracks_rtt (ack_of id n) (first, s) = created-tracks_rtt id s
delivered-tracks_rtt (rst_of id) (first, s) = ground (arith, closed-tracks_rtt id s)
delivered-tracks_rtt (ping_at ts) (first, s) = refl
delivered-tracks_rtt (echo_at ts) (first, s) = refl

delivered_all-tracks_rtt :
    (ms : List Message) (st : State) → (delivered_all ms st).1.tracks_rtt ≡ st.1.tracks_rtt
unfolding delivered_all
delivered_all-tracks_rtt [] st = refl
delivered_all-tracks_rtt (m ∷ ms) st =
    delivered_all-tracks_rtt ms (delivered m st) ∙ delivered-tracks_rtt m st

-- Behind valid frames that the receiver takes, a data frame with a length above `MaxDataLen`, or in
-- a session without an `emaRTT` an echo frame, makes it panic.
pub receive_frames-crashes :
    (ms : List Message) (bs : List ℕ) (s : Session)
    → AreMessages ms
    → AcceptsAll ms (true, s)
    → Crashing s bs
    → receive_frames (wires ms ++ bs) s ≡ crashed
unfolding frame_loop
receive_frames-crashes ms bs s v a c =
    let (first, t) = delivered_all ms (true, s) in
    let (fuel, left, after) = receive_frames-append ms bs s v a in
    after
    ∙ rw (frame_round-crashes first bs s t (delivered_all-tracks_rtt ms (true, s)) c, frame_loop)
