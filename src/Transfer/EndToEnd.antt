-- ===== src/Transfer/EndToEnd.antt =====
-- What is written to a stream at one end and what is read from it at the other, over a session
-- with its start, its ciphers and its other streams.
use plampshade.Base.{
  ℕ, ◌<◌, ◌≡◌, refl, sym, ap, ap₂, ◌∙◌, Bool, true, false, List, [], ◌∷◌, ◌++◌, append-nil, Option,
  none, some, if◌then◌else◌, map, length, take,
}
use plampshade.Wire.{with_frame_type, type_rst, max_session_frame_size, new_header, type_data}
use plampshade.Wire.Message.{Message}
use plampshade.Session.{Session, on_session_error, close}
use plampshade.Session.Spec.{Life, live, view, inbox_of}
use plampshade.Session.Views.{view-close, is_gone}
use plampshade.Sender.Loop.{Line}
use plampshade.Receiver.Loop.{delivered_all}
use plampshade.Receiver.Refines.{view-delivered_all}
use plampshade.Crypto.{CryptoSpec, overhead}
use plampshade.Crypto.Init
use plampshade.Crypto.Init.{IsOaep, wrapped}
use plampshade.Link.Turns.{Sending, AreSendings, packets_sent, AcceptsPackets, delivered_packets}
use plampshade.Link.Encrypted.{Ciphers, AreCiphers}
use plampshade.Listener.{Opts, is_old}
use plampshade.Handshake.{Params, new_session}
use plampshade.Handshake.Carried.{Carries, start_session-Carries}
use plampshade.Flow.{Window, new_receive_buffer}
use plampshade.Flow.Reading.{payload, content}
use plampshade.Stream.{Stream, Attempt, write}
use plampshade.Stream.Writing.{joined, joined-append, write-Writes}
use plampshade.SendBuffer.{Event, idle, done, new_send_buffer, send_loop}
use plampshade.SendBuffer.Kept.{send_loop-default_header}
use plampshade.SendBuffer.Flush.{send_loop-flushes}
use plampshade.Transfer.{Act, Reader, play, AllWait}
use plampshade.Transfer.Acts.{IsInOrder, play-IsInOrder}
use plampshade.Transfer.Inbox.{
  taken_from, given_out, data_frames, live-given_out, payload-data_frames,
}

-- The calls of `Write`, the chunks that they queue, and the bytes that they say they wrote.
abbrev pub chunks_of : List (List Attempt × List ℕ) → List (List ℕ)
chunks_of [] = []
chunks_of ((attempts, b) ∷ writes) = (write attempts b).chunks ++ chunks_of writes

abbrev pub bytes_of : List (List Attempt × List ℕ) → List ℕ
bytes_of [] = []
bytes_of ((attempts, b) ∷ writes) = take (write attempts b).n b ++ bytes_of writes

joined-chunks_of :
    (writes : List (List Attempt × List ℕ)) → joined (chunks_of writes) ≡ bytes_of writes
joined-chunks_of [] = refl
joined-chunks_of ((attempts, b) ∷ writes) =
    joined-append (write attempts b).chunks (chunks_of writes)
    ∙ ap₂ ◌++◌ (write-Writes attempts b).prefix (joined-chunks_of writes)

abbrev pub all_messages : List (List Message) → List Message
all_messages [] = []
all_messages (ms ∷ packets) = ms ++ all_messages packets

live-append :
    (id : ℕ) (ms ns : List Message) (l : Life) → live id (ms ++ ns) l ≡ live id ns (live id ms l)
unfolding live
live-append id [] ns l = refl
live-append id (m ∷ ms) ns l = live-append id ms ns _

view-delivered_packets :
    (id : ℕ) (packets : List (List Message)) (s : Session)
    → AcceptsPackets packets s
    → view id (delivered_packets packets s) ≡ live id (all_messages packets) (view id s)
unfolding delivered_packets
view-delivered_packets id [] s a = unfold live in refl
view-delivered_packets id (ms ∷ packets) s a =
    view-delivered_packets id packets (delivered_all ms (true, s)).1 a.1
    ∙ ap (live id (all_messages packets)) (view-delivered_all id ms true s a.0)
    ∙ sym (live-append id ms (all_messages packets) (view id s))

-- A stream that is new to its user.
abbrev pub new_reader : Stream → ℕ → Reader
new_reader stream window_size = record {
  end = record {
    stream = stream;
    rb = new_receive_buffer window_size;
    read_deadline = none;
    write_deadline = none;
  };
  taken = [];
  out = [];
  told_eof = false;
}

new_reader-IsInOrder :
    (stream : Stream) (window_size : ℕ) → IsInOrder (new_reader stream window_size)
unfolding new_receive_buffer
new_reader-IsInOrder stream window_size = record { conserved = refl; complete = λ t. cc }

-- What a new session has in the inbox of a stream after these packets and their end.
inbox-given_out :
    (id : ℕ) (packets : List (List Message)) (params : Params) (now : ℕ) (chunks : List (List ℕ))
    (rst : Bool)
    → AcceptsPackets packets (new_session params now)
    → taken_from id (all_messages packets) ≡ given_out id chunks rst
    → inbox_of id (on_session_error (delivered_packets packets (new_session params now))).effects
      ≡ data_frames id chunks
unfolding on_session_error
inbox-given_out id packets params now chunks rst a h =
    let s = delivered_packets packets (new_session params now) in
    let closed : view id (close s)
        ≡ live id (all_messages packets) (view id (new_session params now)) =
      view-close id s ∙ view-delivered_packets id packets (new_session params now) a in
    let fresh : is_gone (view id (new_session params now)).status ≡ false = unfold view in refl in
    let empty : (view id (new_session params now)).inbox ≡ [] = unfold view in refl in
    let seen : (view id (close s)).inbox ≡ data_frames id chunks =
      ap (λ l. l.inbox) closed
      ∙ live-given_out id (all_messages packets) chunks rst (view id (new_session params now)) fresh
          h
      ∙ ap (λ frames. frames ++ data_frames id chunks) empty in
    let inbox : (view id (close s)).inbox ≡ inbox_of id (close s).effects = unfold view in refl in
    sym inbox ∙ seen

-- What the reader got of what was written.
abbrev pub Reads : List (List Attempt × List ℕ) → Reader → Type 0
Reads writes r =
    (r.out ++ content r.end.rb ≡ bytes_of writes) × (r.told_eof ≡ true → r.out ≡ bytes_of writes)

-- A reader's run and a send buffer's, at the two ends of the packets of one session.
carried_bytes :
    (id window_size room : ℕ) (window : Window) (events : List Event)
    (writes : List (List Attempt × List ℕ)) (packets : List (List Message)) (params : Params)
    (now : ℕ) (stream : Stream) (acts : List Act)
    → AcceptsPackets packets (new_session params now)
    → (send_loop events idle (new_send_buffer (new_header type_data id) window_size window)).0
      ≡ done
    → (send_loop events idle
        (new_send_buffer (new_header type_data id) window_size window)).1.close_timed_out
      ≡ false
    → (send_loop events idle
        (new_send_buffer (new_header type_data id) window_size window)).1.accepted
      ≡ chunks_of writes
    → taken_from id (all_messages packets)
      ≡ (send_loop events idle (new_send_buffer (new_header type_data id) window_size window)).1.out
    → AllWait acts (new_reader stream room)
    → (play acts (new_reader stream room)).taken
      ≡ inbox_of id (on_session_error (delivered_packets packets (new_session params now))).effects
    → Reads writes (play acts (new_reader stream room))
carried_bytes id window_size room window events writes packets params now stream acts a d t q o w
      k =
    let b =
      (send_loop events idle (new_send_buffer (new_header type_data id) window_size window)).1 in
    let r = play acts (new_reader stream room) in
    let v = play-IsInOrder acts (new_reader stream room) w (new_reader-IsInOrder stream room) in
    let flushed = send_loop-flushes (new_header type_data id) window_size window events d t in
    let given : b.out ≡ given_out id (chunks_of writes) b.send_rst =
      flushed
      ∙ ap
          (λ h.
            map (λ f. f ++ h) b.accepted
            ++ (if b.send_rst then with_frame_type h type_rst ∷ [] else []))
          (send_loop-default_header events idle
            (new_send_buffer (new_header type_data id) window_size window))
      ∙ ap (λ fs. given_out id fs b.send_rst) q in
    let all : payload r.taken ≡ bytes_of writes =
      ap payload
        (k ∙ inbox-given_out id packets params now (chunks_of writes) b.send_rst a (o ∙ given))
      ∙ payload-data_frames id (chunks_of writes)
      ∙ joined-chunks_of writes in
    (
      v.conserved ∙ all,
      λ e. sym (append-nil r.out) ∙ ap (λ c. r.out ++ c) (sym (v.complete e).1) ∙ v.conserved ∙ all,
    )

-- A client starts a session over a new connection and sends; `start_session-Carries` says on
-- which conditions the server's `recvLoop` takes all of it. If, besides, the send buffer of one
-- of the client's streams took just the chunks that the calls of `Write` queued, was closed and
-- flushed before its timeout, and the session took all its frames, each in its turn among those
-- of other streams, and if the buffer of the stream at the server took each frame that its
-- session had for it: then whatever the order of deliveries, closings and reads, the bytes that
-- were read, with those still buffered behind them, are those that the calls of `Write` said they
-- wrote; and once a read has told of the end of the stream, all of them were read.
pub write-read :
    (ciphers : Ciphers) (opts : Opts) (age : Option ℕ → ℕ) (contains : List ℕ → Bool)
    (encrypt decrypt : List ℕ → Option (List ℕ)) (cs : CryptoSpec) (ts : Option ℕ) (w p : ℕ)
    (at_client at_server : Params) (drawn now now' ping_interval fuel : ℕ) (sendings : List Sending)
    (line : Line) (id window_size room : ℕ) (window : Window) (events : List Event)
    (writes : List (List Attempt × List ℕ)) (stream : Stream) (acts : List Act)
    → AreCiphers ciphers
    → IsOaep encrypt decrypt
    → ((pt msg : List ℕ) → encrypt pt ≡ some msg → length msg ≡ 256)
    → Init.IsSized cs
    → is_old opts age (wrapped ts) ≡ false
    → contains cs.secret ≡ false
    → drawn < 256
    → length line.session_frame ≡ max_session_frame_size
    → length sendings < fuel
    → AreSendings sendings
    → let packets = packets_sent (overhead cs.cipher_code) ping_interval line.last_ping sendings in
      let buffer =
        send_loop events idle (new_send_buffer (new_header type_data id) window_size window) in
      let reader = play acts (new_reader stream room) in
      AcceptsPackets packets (new_session at_server now')
      → buffer.0 ≡ done
      → buffer.1.close_timed_out ≡ false
      → buffer.1.accepted ≡ chunks_of writes
      → taken_from id (all_messages packets) ≡ buffer.1.out
      → AllWait acts (new_reader stream room)
      → reader.taken
        ≡ inbox_of id
            (on_session_error (delivered_packets packets (new_session at_server now'))).effects
      → Carries ciphers opts age contains encrypt decrypt cs ts
          (w, p)
          (at_client, at_server)
          (drawn, now, now')
          (ping_interval, fuel)
          sendings
          line
        × Reads writes reader
write-read ciphers opts age contains encrypt decrypt cs ts w p at_client at_server drawn now now'
      ping_interval fuel sendings line id window_size room window events writes stream acts v oaep
      sizes sized young unknown hd full few valid a d t q o waits k =
    (
      start_session-Carries ciphers opts age contains encrypt decrypt cs ts w p at_client at_server
          drawn now now' ping_interval fuel sendings line v oaep sizes sized young unknown hd full
          few valid a,
      carried_bytes id window_size room window events writes
          (packets_sent (overhead cs.cipher_code) ping_interval line.last_ping sendings) at_server
          now' stream acts a d t q o waits k,
    )
