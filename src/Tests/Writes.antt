-- ===== src/Tests/Writes.antt =====
-- sendbuffer.go and stream.go: a buffer that sends two frames and closes, and a long write.
use plampshade.Base.{◌≡◌, refl, true, false, List, [], ◌∷◌, ◌++◌, none, some, replicate}
use plampshade.Base.Int.{◌-ℤ◌, ◌+ℤ◌}
use plampshade.Wire.{with_frame_type}
use plampshade.Flow.{new_window, sub, add}
use plampshade.SendBuffer.{
  Hand, on_window, SendBuffer, done, gives_up, times_out, give_up, on_time_out, idle,
  new_send_buffer, Event, accepts, takes, written, requests_close, closes, finish, take_frame,
  on_take, on_taken, do_accept, on_request, on_close, on_written, step, send_loop,
}
use plampshade.SendBuffer.Acks.{Heard, add-Heard}
use plampshade.SendBuffer.Returns.{ending, send_loop-returns}
use plampshade.Stream.{no_deadline, close_timer, connection_closed, write}
use plampshade.Stream.Writing.{Writes, write-Writes}

-- A frame is with the writer, and another one is queued.
abbrev two_accepted : List Event
two_accepted = accepts (4 ∷ []) ∷ (takes ∷ (accepts (5 ∷ []) ∷ []))

abbrev closed_buffer : Hand × SendBuffer
closed_buffer =
    send_loop (two_accepted ++ ending true 1) idle
      (new_send_buffer (1 ∷ (0 ∷ (7 ∷ []))) 2 (new_window 2))

send_loop-returns_example :
    (closed_buffer.0 ≡ done)
    × (closed_buffer.1.accepted ≡ (4 ∷ []) ∷ ((5 ∷ []) ∷ []))
    × (closed_buffer.1.out
        ≡ (4 ∷ (1 ∷ (0 ∷ (7 ∷ [])))) ∷ ((5 ∷ (1 ∷ (0 ∷ (7 ∷ [])))) ∷ ((255 ∷ (0 ∷ (7 ∷ []))) ∷ [])))
unfolding send_loop step do_accept on_taken on_take take_frame sub add new_window ◌-ℤ◌ ◌+ℤ◌
    on_request on_close on_written on_window finish with_frame_type
send_loop-returns_example = send_loop-returns (1 ∷ (0 ∷ (7 ∷ []))) 2 2 two_accepted true refl

-- The first chunk of a long write waits once; the second meets a closed stream.
write-Writes_example : Writes (replicate 1500 5) (
    write
      (record {
        final_write_err = none;
        tries = record { closing = false; deadline = no_deadline; selected = close_timer } ∷ [];
      }
        ∷ (record { final_write_err = some connection_closed; tries = [] } ∷ []))
      (replicate 1500 5))
write-Writes_example =
    write-Writes
      (record {
        final_write_err = none;
        tries = record { closing = false; deadline = no_deadline; selected = close_timer } ∷ [];
      }
        ∷ (record { final_write_err = some connection_closed; tries = [] } ∷ []))
      (replicate 1500 5)

-- The window of one frame is used up, a second frame waits, and the close times out.
abbrev stalling_run : List Event
stalling_run =
    accepts (4 ∷ [])
    ∷ (takes
        ∷ (written
            ∷ (accepts (5 ∷ []) ∷ (takes ∷ (requests_close true ∷ (closes ∷ (times_out ∷ [])))))))

abbrev given_up : Hand × SendBuffer
given_up =
    send_loop (stalling_run ++ (gives_up ∷ (gives_up ∷ []))) idle
      (new_send_buffer (1 ∷ (0 ∷ (7 ∷ []))) 1 (new_window 1))

-- An ACK of one frame comes too late.
add-Heard_example : Heard given_up.0 given_up.1
unfolding send_loop step do_accept on_taken on_take take_frame sub add new_window ◌-ℤ◌ ◌+ℤ◌
    on_request on_close on_time_out on_written finish give_up
add-Heard_example =
    add-Heard (1 ∷ (0 ∷ (7 ∷ []))) 1 1 1 (stalling_run ++ (gives_up ∷ (gives_up ∷ []))) refl
