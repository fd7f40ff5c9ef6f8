-- ===== src/Receiver/Refines.antt =====
-- The receiver and what a session promises to each stream: `recvLoop` takes the messages of all
-- streams from one sequence of bytes.
use plampshade.Base.{ℕ, ◌≡◌, refl, ap, ◌∙◌, Bool, true, List, [], ◌∷◌, ◌++◌, if_rule, replicate}
use plampshade.Wire.Message.{
  Message, data_of, ack_of, rst_of, ping_at, echo_at, wire, wires, queued,
}
use plampshade.Session.{
  Session, submitted, empty_ack, stream_closed, echoed, rtt_from, emit, has, close_stream,
  get_or_create_stream,
}
use plampshade.Session.Spec.{advance_for, live, view}
use plampshade.Session.Views.{
  view-quiet, view-close_stream, view-told, IsTold-data, IsTold-ack, view-refused,
}
use plampshade.Receiver.{finished, receive_frames}
use plampshade.Receiver.Delivery.{State, delivered, Accepts}
use plampshade.Receiver.Loop.{delivered_all, AcceptsAll, AreMessages, receive_frames-wires}

view-delivered :
    (id : ℕ) (m : Message) (first : Bool) (s : Session)
    → Accepts m s
    → view id (delivered m (first, s)).1 ≡ advance_for id m (view id s)
unfolding delivered
view-delivered id (data_of j b) first s a =
    let r = get_or_create_stream j s in
    let s' = emit r.0 (submitted j (wire (data_of j b))) in
    let P = λ (t : State). view id t.1 ≡ advance_for id (data_of j b) (view id s) in
    let Q = λ (t : Session). view id t ≡ advance_for id (data_of j b) (view id s) in
    if_rule P r.1
      (λ o.
        let told = view-told id j s (data_of j b) _ (IsTold-data id j b) o in
        if_rule Q first
          (λ f.
            if_rule Q s.ack_on_first (λ g. view-quiet id s' (empty_ack j) refl refl ∙ told)
              (λ g. told))
          (λ f. told))
      (λ o. view-refused id j s (data_of j b) refl o)
view-delivered id (ack_of j n) first s a = view-told id j s (ack_of j n) _ (IsTold-ack id j n) a
view-delivered id (rst_of j) first s a =
    if_rule (λ (t : Session). view id t ≡ advance_for id (rst_of j) (view id s)) (has j s.streams)
      (λ h. view-quiet id (close_stream j s) (stream_closed j) refl refl ∙ view-close_stream id j s)
      (λ h. view-close_stream id j s)
view-delivered id (ping_at ts) first s a =
    view-quiet id s (echoed (queued (echo_at ts)).bytes) refl refl
view-delivered id (echo_at ts) first s a = view-quiet id s (rtt_from ts) refl refl

pub view-delivered_all :
    (id : ℕ) (ms : List Message) (first : Bool) (s : Session)
    → AcceptsAll ms (first, s)
    → view id (delivered_all ms (first, s)).1 ≡ live id ms (view id s)
unfolding delivered_all live
view-delivered_all id [] first s a = refl
view-delivered_all id (m ∷ ms) first s a =
    let (first', s') = delivered m (first, s) in
    view-delivered_all id ms first' s' a.1 ∙ ap (live id ms) (view-delivered id m first s a.0)

-- From the bytes of valid frames, none of them an ACK for a stream that is closed by then, nor an
-- echo for a session without an `emaRTT`, with padding behind them, the receiver goes on to the next session frame, and each stream has then
-- lived as its own messages say, in their order: it opens with its first data or ACK, gets every
-- frame and every ACK, and nothing any more after its RST, whatever the frames of other streams
-- are.
pub receive_frames-refines :
    (id : ℕ) (ms : List Message) (n : ℕ) (s : Session)
    → AreMessages ms
    → AcceptsAll ms (true, s)
    → (t : Session) × (receive_frames (wires ms ++ replicate n 0) s ≡ finished t)
      × (view id t ≡ live id ms (view id s))
receive_frames-refines id ms n s v a = (
  (delivered_all ms (true, s)).1,
  receive_frames-wires ms n s v a,
  view-delivered_all id ms true s a,
)
