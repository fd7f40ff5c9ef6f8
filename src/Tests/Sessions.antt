-- ===== src/Tests/Sessions.antt =====
-- session.go: a client session with stream 7 open and stream 9 closed, and the frames of a packet.
use plampshade.Base.{
  ℕ, ◌≡◌, ◌≢◌, refl, true, false, List, [], ◌∷◌, ◌++◌, length, length-replicate, replicate, arith,
}
use plampshade.Wire.{max_session_frame_size}
use plampshade.Wire.Message.{data_of, ack_of, rst_of, echo_at, wire, wires}
use plampshade.Session.{Session, has, get_or_create_stream}
use plampshade.Session.Table.{IsValid}
use plampshade.Sender.{Sender, Crypters, new_sender}
use plampshade.Sender.Coalesce.{closes_session}
use plampshade.Sender.Packet.{IsSized, Sends, send-packet}
use plampshade.Receiver.{finished, crashed, no_fuel, receive_frames}
use plampshade.Receiver.Total.{receive_frames-ne-no_fuel}
use plampshade.Receiver.Keeps.{Ends}
use plampshade.Session.Spec.{live, view}
use plampshade.Receiver.Refines.{receive_frames-refines}
use plampshade.Receiver.Closed.{uses, receive_frames-IsValid, receive_frames-closed}
use plampshade.Receiver.Delivery.{delivered}
use plampshade.Receiver.Loop.{delivered_all}
use plampshade.Receiver.Faults.{closed_ack_drops_rest}
use plampshade.Receiver.Panics.{Panics, receive_frames-crashed}
use plampshade.Receiver.Crashes.{receive_frames-crashes, untracked}
use plampshade.Handshake.{listener_params, new_session}
use plampshade.Listener.Options.{zero_opts}

abbrev fresh : Session
fresh = record {
  streams = [];
  closed = [];
  defunct = false;
  is_closed = false;
  notifies = true;
  ack_on_first = true;
  tracks_rtt = true;
  next_id = 0;
  last_dialed = 0;
  effects = [];
}

abbrev pub busy : Session
busy = record fresh { streams = 7 ∷ []; closed = 9 ∷ [] }

busy-IsValid : IsValid busy
busy-IsValid = record { apart = λ id h. ground arith; settled = λ d n. cc }

-- The session cipher "None".
abbrev pub plain : Crypters
plain = record { padding_enabled = true; data_encrypt = λ x. x; meta_encrypt = λ x. x }

pub plain-IsSized : IsSized plain 0
plain-IsSized = record { data_length = λ x. omega arith; meta_length = λ x. refl }

pub frame_buffer : List ℕ
frame_buffer = replicate max_session_frame_size 0

pub length-frame_buffer : length frame_buffer ≡ max_session_frame_size
unfolding frame_buffer
length-frame_buffer = length-replicate {A = ℕ} max_session_frame_size 0

abbrev idle_sender : Sender
idle_sender = new_sender frame_buffer 0 0 0

send-packet_example : Sends plain 3 5 6 (closes_session ∷ []) (rst_of 7) idle_sender
send-packet_example =
    send-packet plain 3 5 6 (closes_session ∷ []) (rst_of 7) frame_buffer 0 0 0 plain-IsSized
      (omega arith) (omega arith) length-frame_buffer (omega arith) tt (omega arith)

receive_frames-refines_example :
    (t : Session) × (receive_frames
        (wires (data_of 7 (1 ∷ []) ∷ (rst_of 7 ∷ [])) ++ replicate 5 0)
        busy
      ≡ finished t)
    × (view 7 t ≡ live 7 (data_of 7 (1 ∷ []) ∷ (rst_of 7 ∷ [])) (view 7 busy))
receive_frames-refines_example =
    receive_frames-refines 7 (data_of 7 (1 ∷ []) ∷ (rst_of 7 ∷ [])) 5 busy (omega arith)
      (tt, (tt, tt))

receive_frames-ne-no_fuel_example : receive_frames (1 ∷ (0 ∷ (7 ∷ (9 ∷ [])))) busy ≢ no_fuel
receive_frames-ne-no_fuel_example = receive_frames-ne-no_fuel (1 ∷ (0 ∷ (7 ∷ (9 ∷ [])))) busy

receive_frames-IsValid_example : Ends IsValid (receive_frames (255 ∷ (0 ∷ (7 ∷ []))) busy)
receive_frames-IsValid_example = receive_frames-IsValid (255 ∷ (0 ∷ (7 ∷ []))) busy busy-IsValid

receive_frames-closed_example :
    Ends
      (λ (t : Session). (has 9 t.closed ≡ true) × (uses 9 t.effects ≡ uses 9 busy.effects))
      (receive_frames (wire (data_of 9 (1 ∷ []))) busy)
receive_frames-closed_example =
    receive_frames-closed 9 (wire (data_of 9 (1 ∷ []))) busy busy-IsValid refl

closed_ack_drops_rest_example :
    receive_frames
      (wires (data_of 7 (2 ∷ []) ∷ []) ++ (wire (ack_of 9 1) ++ wire (data_of 7 (1 ∷ []))))
      busy
    ≡ receive_frames (wires (data_of 7 (2 ∷ []) ∷ [])) busy
unfolding get_or_create_stream delivered_all delivered
closed_ack_drops_rest_example =
    closed_ack_drops_rest (data_of 7 (2 ∷ []) ∷ []) 9 1 (wire (data_of 7 (1 ∷ []))) busy
      ((omega arith, omega arith), tt) (tt, tt) (omega arith) (omega arith) refl

-- A session of the listener, whose client sends a data frame and then an echo.
receive_frames-crashes_example :
    receive_frames
      (wires (data_of 7 (1 ∷ []) ∷ []) ++ (wire (echo_at 5) ++ []))
      (new_session (listener_params zero_opts 32) 3)
    ≡ crashed
unfolding listener_params
receive_frames-crashes_example =
    receive_frames-crashes (data_of 7 (1 ∷ []) ∷ []) (wire (echo_at 5) ++ [])
      (new_session (listener_params zero_opts 32) 3) ((omega arith, omega arith), tt) (tt, tt)
      (untracked 5 [] refl)

receive_frames-crashed_example :
    Panics
      (new_session (listener_params zero_opts 32) 3)
      (wires (data_of 7 (1 ∷ []) ∷ []) ++ (wire (echo_at 5) ++ []))
receive_frames-crashed_example =
    receive_frames-crashed (wires (data_of 7 (1 ∷ []) ∷ []) ++ (wire (echo_at 5) ++ []))
      (new_session (listener_params zero_opts 32) 3) receive_frames-crashes_example
