-- ===== src/Tests/Transfers.antt =====
-- A stream from end to end at a concrete input: two writes and a close, in two packets with a
-- frame of another stream, and two reads.
use plampshade.Base.{ℕ, refl, true, false, List, [], ◌∷◌, none, some, arith}
use plampshade.Base.Int.{◌-ℤ◌}
use plampshade.Wire.{big_endian, new_header, with_frame_type}
use plampshade.Wire.Message.{data_of, rst_of, wire, queued}
use plampshade.Session.{get_or_create_stream, on_session_error, close, close_stream, delete}
use plampshade.Sender.Coalesce.{offers, accepted, stays_open}
use plampshade.Receiver.Delivery.{delivered}
use plampshade.Receiver.Loop.{delivered_all}
use plampshade.Crypto.{overhead}
use plampshade.Link.Turns.{Sending, AreSendings, packets_sent, delivered_packets}
use plampshade.Flow.{
  new_window, new_receive_buffer, sub, read, read_loop, drain, copy_current, on_frame,
  ack_if_necessary, do_send_ack, do_submit, close_buffer,
}
use plampshade.Listener.{is_old}
use plampshade.SendBuffer.{
  Event, accepts, takes, written, requests_close, closes, send_loop, step, on_taken, on_take,
  take_frame, finish, on_written, do_accept, on_request, on_close,
}
use plampshade.Stream.{Stream, Attempt, write, write_one, queued_chunk, send, close as close_half}
use plampshade.Stream.Reads.{close_end, read_stream}
use plampshade.Handshake.Carried.{Carries}
use plampshade.Transfer.{Act, delivers, peer_closes, reads, play, act}
use plampshade.Transfer.EndToEnd.{Reads, new_reader, write-read}
use plampshade.Tests.Encrypted.{zeros_in_front, zeros_in_front-AreCiphers}
use plampshade.Tests.Handshakes.{padded_out, cut_back, padded_out-IsOaep, length-padded_out}
use plampshade.Tests.Inits.{aes_spec, aes_spec-IsSized}
use plampshade.Tests.Loops.{idle_line}
use plampshade.Tests.Sessions.{length-frame_buffer}

abbrev writes : List (List Attempt × List ℕ)
writes = ([], 1 ∷ (2 ∷ [])) ∷ (([], 3 ∷ []) ∷ [])

abbrev turns : List Sending
turns =
    record {
      drawn = 3;
      now = 5;
      clock = 6;
      choices = offers (data_of 8 (9 ∷ [])) ∷ [];
      message = data_of 7 (1 ∷ (2 ∷ []));
    }
    ∷ (record {
      drawn = 0;
      now = 8;
      clock = 9;
      choices = offers (rst_of 7) ∷ [];
      message = data_of 7 (3 ∷ []);
    }
        ∷ [])

turns-AreSendings : AreSendings turns
turns-AreSendings = (
  omega arith,
  (omega arith, omega arith),
  ((omega arith, omega arith), tt),
  omega arith,
  (omega arith, (omega arith, omega arith), (omega arith, tt), omega arith, tt),
)

abbrev events : List Event
events =
    accepts (1 ∷ (2 ∷ []))
    ∷ (accepts (3 ∷ [])
        ∷ (takes
            ∷ (written
                ∷ (takes
                    ∷ (written ∷ (requests_close true ∷ (closes ∷ (takes ∷ (written ∷ [])))))))))

abbrev fresh : Stream
fresh = record {
  closed = false;
  final_read_err = none;
  final_write_err = none;
  rb_closes = 0;
  sb_closes = [];
}

abbrev acts : List Act
acts =
    delivers (wire (data_of 7 (1 ∷ (2 ∷ []))))
    ∷ (reads false [] false 10
        ∷ (delivers (wire (data_of 7 (3 ∷ []))) ∷ (peer_closes ∷ (reads false [] false 10 ∷ []))))

write-read_example :
    Carries zeros_in_front
      (record { max_client_init_age = 60; caches = true })
      (λ ts. 5)
      (λ k. false)
      padded_out
      cut_back
      aes_spec
      (some 1600000000)
      (1453, 32)
      (
        record { max_padding = 32; ack_on_first = false; tracks_rtt = true; notifies = false },
        record { max_padding = 32; ack_on_first = true; tracks_rtt = false; notifies = true },
      )
      (7, 3, 4)
      (0, 3)
      turns
      idle_line
    × Reads writes (play acts (new_reader fresh 1453))
unfolding is_old packets_sent accepted stays_open wire new_header big_endian delivered delivered_all
    queued get_or_create_stream overhead with_frame_type on_session_error close close_stream delete
    delivered_packets new_window new_receive_buffer sub read read_loop drain copy_current on_frame
    ack_if_necessary do_send_ack do_submit close_buffer send_loop step on_taken on_take take_frame
    finish on_written do_accept on_request on_close write write_one queued_chunk send close_half
    close_end read_stream play act ◌-ℤ◌
write-read_example =
    write-read zeros_in_front (record { max_client_init_age = 60; caches = true }) (λ ts. 5)
      (λ k. false) padded_out cut_back aes_spec (some 1600000000) 1453 32
      (record { max_padding = 32; ack_on_first = false; tracks_rtt = true; notifies = false })
      (record { max_padding = 32; ack_on_first = true; tracks_rtt = false; notifies = true }) 7 3 4
      0 3 turns idle_line 7 5 1453 (new_window 5) events writes fresh acts zeros_in_front-AreCiphers
      padded_out-IsOaep length-padded_out aes_spec-IsSized refl refl (omega arith)
      length-frame_buffer (omega arith) turns-AreSendings ((tt, (tt, tt)), ((tt, (tt, tt)), tt))
      refl refl refl refl (tt, (refl, (tt, (tt, (refl, tt))))) refl
