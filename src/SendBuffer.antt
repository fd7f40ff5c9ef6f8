-- ===== src/SendBuffer.antt =====
-- sendbuffer.go: `sendLoop` of a stream's send buffer as a machine that takes one event at a time.
-- An event that the loop is not waiting for changes nothing.
pub mod Order
pub mod Flush
pub mod Returns
pub mod Acks
pub mod Kept
use plampshade.Base.{
  ℕ, Bool, true, false, not, ◌&&◌, List, [], ◌∷◌, ◌++◌, map, ltb, if◌then◌else◌, length,
}
use plampshade.Base.Int.{pos}
use plampshade.Wire.{with_frame_type, type_rst}
use plampshade.Flow.{Window, add, sub}

-- What `sendLoop` has in hand: nothing, a frame that waits for the window, a frame or the RST that
-- `write` offers to `out`; or it has returned.
pub data Hand : Type 0 where
  idle : Hand
  held : List ℕ → Hand
  writing : List ℕ → Hand
  writing_rst : Hand
  done : Hand

pub record SendBuffer : Type 0 where
  pub default_header : List ℕ
  pub window_size : ℕ
  pub window : Window
  pub queue : List (List ℕ)
  pub send_rst : Bool
  -- Whether the value of `closeRequested` was received; `closeOnce` sends one only.
  pub requested : Bool
  -- `closing`, which goes with the closing of `in`.
  pub closing : Bool
  -- Whether `closeTimedOut` is closed.
  pub close_timed_out : Bool
  -- The frames given to `out`, and those that `send` took.
  pub out : List (List ℕ)
  pub accepted : List (List ℕ)

abbrev pub new_send_buffer : List ℕ → ℕ → Window → SendBuffer
new_send_buffer default_header window_size window = record {
  default_header = default_header;
  window_size = window_size;
  window = window;
  queue = [];
  send_rst = false;
  requested = false;
  closing = false;
  close_timed_out = false;
  out = [];
  accepted = [];
}

pub data Event : Type 0 where
  -- `doSend` puts a frame on the channel `in`.
  accepts : List ℕ → Event
  -- The loop receives from `in`: a frame, or the end of the closed channel.
  takes : Event
  -- `window.add` for an ACK of so many frames; a signal of it is taken if the loop waits for one.
  acks : ℕ → Event
  -- `out` takes what `write` offers.
  written : Event
  requests_close : Bool → Event
  -- The goroutine of `signalClose` closes `in`, and later `closeTimedOut`.
  closes : Event
  times_out : Event
  -- A `select` takes its case for `closeTimedOut`.
  gives_up : Event

-- The deferred function, up to its `write`.
unfoldable pub finish : SendBuffer → Hand × SendBuffer
finish b = if b.send_rst then (writing_rst, b) else (done, b)

-- A frame taken from `in`.
unfoldable pub take_frame : List ℕ → List (List ℕ) → SendBuffer → Hand × SendBuffer
take_frame frame queue b =
    let (w, now) = sub (pos 1) b.window in
    let b' = record b { window = w; queue = queue } in
    if now then (writing frame, b') else (held frame, b')

unfoldable pub on_take : List (List ℕ) → SendBuffer → Hand × SendBuffer
on_take [] b = if b.closing then finish b else (idle, b)
on_take (frame ∷ queue) b = take_frame frame queue b

abbrev pub emit : List ℕ → SendBuffer → SendBuffer
emit frame b = record b { out = b.out ++ (frame ∷ []) }

-- The case of `doSend` that succeeds.
unfoldable pub do_accept : List ℕ → SendBuffer → SendBuffer
do_accept frame b =
    if not b.closing && ltb (length b.queue) b.window_size
    then record b { queue = b.queue ++ (frame ∷ []); accepted = b.accepted ++ (frame ∷ []) }
    else b

unfoldable pub on_request : Bool → SendBuffer → SendBuffer
on_request rst b = if b.requested then b else record b { requested = true; send_rst = rst }

unfoldable pub on_close : SendBuffer → SendBuffer
on_close b = if b.requested then record b { closing = true } else b

unfoldable pub on_time_out : SendBuffer → SendBuffer
on_time_out b = if b.closing then record b { close_timed_out = true } else b

unfoldable pub on_written : Hand → SendBuffer → Hand × SendBuffer
on_written (writing frame) b = (idle, emit (frame ++ b.default_header) b)
on_written writing_rst b = (done, emit (with_frame_type b.default_header type_rst) b)
on_written idle b = (idle, b)
on_written (held frame) b = (held frame, b)
on_written done b = (done, b)

-- `write` gives up on its frame, and the loop on everything.
unfoldable pub give_up : Hand → SendBuffer → Hand × SendBuffer
give_up idle b = finish b
give_up (held frame) b = finish b
give_up (writing frame) b = (idle, b)
give_up writing_rst b = (done, b)
give_up done b = (done, b)

unfoldable pub on_taken : Hand → SendBuffer → Hand × SendBuffer
on_taken idle b = on_take b.queue b
on_taken h b = (h, b)

unfoldable pub on_window : Hand → Hand
on_window (held frame) = writing frame
on_window h = h

unfoldable pub step : Event → Hand → SendBuffer → Hand × SendBuffer
step (accepts frame) h b = (h, do_accept frame b)
step takes h b = on_taken h b
step (acks n) h b =
    let (w, signals) = add (pos n) b.window in
    ((if signals then on_window h else h), record b { window = w })
step written h b = on_written h b
step (requests_close rst) h b = (h, on_request rst b)
step closes h b = (h, on_close b)
step times_out h b = (h, on_time_out b)
step gives_up h b = if b.close_timed_out then give_up h b else (h, b)

unfoldable pub send_loop : List Event → Hand → SendBuffer → Hand × SendBuffer
send_loop [] h b = (h, b)
send_loop (e ∷ events) h b = let (h', b') = step e h b in send_loop events h' b'
