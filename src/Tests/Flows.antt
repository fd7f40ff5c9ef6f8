-- ===== src/Tests/Flows.antt =====
-- window.go and receive_buffer.go: a stream with a window of one frame.
use plampshade.Base.{none, ℕ, ◌≡◌, ◌≢◌, refl, true, false, List, [], ◌∷◌, arith}
use plampshade.Base.Int.{◌-ℤ◌}
use plampshade.Stream.{connection_closed}
use plampshade.Stream.Reads.{
  End, close_end, close_own, of_buffer, final, read_stream, read_stream-close,
}
use plampshade.Flow.{
  eof, close_buffer, ReceiveBuffer, new_window, new_receive_buffer, sub, do_submit, read, read_loop,
  drain, copy_current, on_frame, do_send_ack, ack_if_necessary, ends,
}
use plampshade.Flow.Control.{
  State, initial, send_frame, sends, submits, Reachable, starts, then_step, do_submit-never_blocks,
  read-acknowledges,
}

abbrev frame : List ℕ
frame = 1 ∷ (0 ∷ (7 ∷ (0 ∷ (2 ∷ (8 ∷ (9 ∷ []))))))

abbrev queued_buffer : ReceiveBuffer
queued_buffer = record {
  window_size = 20;
  ack_interval = 2;
  unacked = 1;
  queue = frame ∷ [];
  current = 5 ∷ [];
  is_closed = false;
  acks = [];
}

abbrev sent_one : State
sent_one = send_frame (initial 1)

sent_one-Reachable : Reachable 1 sent_one
sent_one-Reachable = then_step (initial 1) sent_one starts (sends (initial 1) refl)

do_submit-never_blocks_example : (do_submit frame sent_one.buf).1 ≡ true
unfolding send_frame sub ◌-ℤ◌ new_window
do_submit-never_blocks_example = do_submit-never_blocks 1 0 sent_one frame sent_one-Reachable refl

abbrev delivered_one : State
delivered_one = record sent_one { in_flight = 0; buf = (do_submit frame sent_one.buf).0 }

delivered_one-Reachable : Reachable 1 delivered_one
unfolding send_frame sub ◌-ℤ◌ new_window do_submit new_receive_buffer
delivered_one-Reachable =
    then_step sent_one delivered_one sent_one-Reachable (submits sent_one frame 0 refl refl)

abbrev stuck : State
stuck = send_frame delivered_one

stuck-Reachable : Reachable 1 stuck
unfolding send_frame sub ◌-ℤ◌ new_window
stuck-Reachable = then_step delivered_one stuck delivered_one-Reachable (sends delivered_one refl)

read-acknowledges_example : (read true [] false 4 stuck.buf).progress.buf.acks ≢ []
unfolding send_frame sub ◌-ℤ◌ new_window do_submit new_receive_buffer read read_loop drain
    copy_current on_frame ack_if_necessary do_send_ack
read-acknowledges_example =
    read-acknowledges 1 4 true false stuck stuck-Reachable (omega arith) refl refl refl refl

-- The five bytes of the buffer, after the peer has closed the stream, and after the user has.
abbrev open_end : End
open_end = record {
  stream = record {
    closed = false;
    final_read_err = none;
    final_write_err = none;
    rb_closes = 0;
    sb_closes = [];
  };
  rb = queued_buffer;
  read_deadline = none;
  write_deadline = none;
}

read_stream-close_example :
    ((read_stream true (ends ∷ []) false 9 (close_end false none none open_end)).0
      ≡ 5 ∷ (8 ∷ (9 ∷ [])))
    × ((read_stream true (ends ∷ []) false 9 (close_end false none none open_end)).1
        ≡ of_buffer eof)
    × (read_stream true (ends ∷ []) false 9 (close_own open_end)
        ≡ ([], final connection_closed, close_buffer queued_buffer))
read_stream-close_example = read_stream-close true (ends ∷ []) false 9 open_end refl
