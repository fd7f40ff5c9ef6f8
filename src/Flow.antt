-- ===== src/Flow.antt =====
-- window.go and receive_buffer.go: the two ends of the flow control of one direction of a stream.
-- The sender counts the frames it may send in its `window`; the receiver counts the frames read
-- and acknowledges them.
pub mod Reading
pub mod Counts
pub mod Control
use plampshade.Base.{
  ℕ, zero, suc, ◌+◌, ◌-◌, ◌*◌, ◌/◌, ◌%◌, ◌^◌, Bool, true, false, not, ◌&&◌, List, [], ◌∷◌, ◌++◌,
  ltb, leb, ◌==◌, if◌then◌else◌, length, take, drop,
}
use plampshade.Base.Int.{ℤ, pos, negsuc, ◌+ℤ◌, ◌-ℤ◌, ltb_ℤ}
use plampshade.Wire.{data_header_size}

-- `window`. Its channels are the signals below.
pub record Window : Type 0 where
  pub size : ℤ
  pub is_closed : Bool

unfoldable pub new_window : ℕ → Window
new_window initial = record { size = pos initial; is_closed = false }

-- The new window, and whether `positiveAgain` is signalled.
unfoldable pub add : ℤ → Window → Window × Bool
add delta w =
    let size = w.size +ℤ delta in
    (record w { size = size }, ltb_ℤ w.size (pos 0) && not (ltb_ℤ size (pos 0)))

-- The new window, and whether the channel returned is `immediate`.
unfoldable pub sub : ℤ → Window → Window × Bool
sub delta w = let size = w.size -ℤ delta in (record w { size = size }, not (ltb_ℤ size (pos 0)))

-- `timedOut` gives the subtraction back; its result is `ErrTimeout`.
unfoldable pub timed_out : ℤ → Window → Window
unfolding add
timed_out delta w = (add delta w).0

-- The new window, and whether the channels are closed by this call.
unfoldable pub close : Window → Window × Bool
close w = (record w { is_closed = true }, not w.is_closed)

-- `receiveBuffer`. `queue` is the channel `in`, `acks` the counts sent on `ack`, latest last.
pub record ReceiveBuffer : Type 0 where
  pub window_size : ℕ
  pub ack_interval : ℕ
  pub unacked : ℕ
  pub queue : List (List ℕ)
  pub current : List ℕ
  pub is_closed : Bool
  pub acks : List ℕ

-- `math.Ceil(float64(windowSize) / 10)`
unfoldable pub new_receive_buffer : ℕ → ReceiveBuffer
new_receive_buffer window_size = record {
  window_size = window_size;
  ack_interval = (window_size + 9) / 10;
  unacked = 0;
  queue = [];
  current = [];
  is_closed = false;
  acks = [];
}

-- `doSubmit`: the flag is its result, false where the queue stayed full until the close timer.
unfoldable pub do_submit : List ℕ → ReceiveBuffer → ReceiveBuffer × Bool
do_submit frame buf =
    if buf.is_closed
    then (buf, true)
    else (if ltb (length buf.queue) buf.window_size
        then (record buf { queue = buf.queue ++ (frame ∷ []) }, true)
        else (buf, false))

-- On a closed buffer both cases of the `select` may be ready: `picks_ack` says which one is taken.
unfoldable pub do_send_ack : Bool → ℕ → ReceiveBuffer → ReceiveBuffer
do_send_ack picks_ack unacked buf =
    if buf.is_closed && not picks_ack then buf else record buf { acks = buf.acks ++ (unacked ∷ []) }

unfoldable pub ack_if_necessary : Bool → ReceiveBuffer → ReceiveBuffer
ack_if_necessary picks_ack buf =
    if leb buf.ack_interval buf.unacked
    then record (do_send_ack picks_ack buf.unacked buf) { unacked = 0 }
    else buf

-- `onFrame`, less the return of the previous frame to the pool.
unfoldable pub on_frame : List ℕ → ReceiveBuffer → ReceiveBuffer
on_frame frame buf = record buf { current = drop data_header_size frame; unacked = buf.unacked + 1 }

unfoldable pub close_buffer : ReceiveBuffer → ReceiveBuffer
close_buffer buf = record buf { is_closed = true }

-- The state of `read`: what was copied, how much of `b` is left, and the buffer.
pub record Progress : Type 0 where
  pub out : List ℕ
  pub room : ℕ
  pub buf : ReceiveBuffer

unfoldable pub copy_current : Progress → Progress
copy_current p = record {
  out = p.out ++ take p.room p.buf.current;
  room = p.room - length p.buf.current;
  buf = record p.buf { current = drop p.room p.buf.current };
}

-- The rounds of `read` that find a frame in the channel, whose frames are the first argument.
unfoldable pub drain : List (List ℕ) → Progress → Progress
drain [] p = let p' = copy_current p in record p' { buf = record p'.buf { queue = [] } }
drain (frame ∷ queue) p =
    let p' = copy_current p in
    let more = drain queue (record p' { buf = on_frame frame p'.buf }) in
    if p'.room == 0 then record p' { buf = record p'.buf { queue = frame ∷ queue } } else more

-- What happens while `read` waits: a frame comes, with others behind it, and the deadline has
-- passed by then or not; or the buffer is closed. The end of a list of these is the read timer.
pub data Wait : Type 0 where
  arrives : List ℕ → List (List ℕ) → Bool → Wait
  ends : Wait

pub data ReadError : Type 0 where
  no_error : ReadError
  eof : ReadError
  timeout : ReadError

pub record ReadResult : Type 0 where
  pub progress : Progress
  pub err : ReadError
  pub unused : List Wait

-- The loop of `read`, whose every exit does `ackIfNecessary`. `past` says that there is a deadline
-- and it has passed.
unfoldable pub read_loop : List Wait → Bool → Progress → ReadResult
read_loop [] past p =
    let p' = drain p.buf.queue p in
    let err =
      if p'.room == 0
      then no_error
      else (if p'.buf.is_closed
          then eof
          else (if ltb 0 (length p'.out)
              then no_error
              else (if past then no_error else timeout))) in
    record { progress = p'; err = err; unused = [] }
read_loop (ends ∷ waits) past p =
    let p' = drain p.buf.queue p in
    let waiting =
      not (p'.room == 0) && not p'.buf.is_closed && not (ltb 0 (length p'.out)) && not past in
    if waiting
    then record { progress = record p' { buf = close_buffer p'.buf }; err = eof; unused = waits }
    else record {
      progress = p';
      err = (if not (p'.room == 0) && p'.buf.is_closed then eof else no_error);
      unused = ends ∷ waits;
    }
read_loop (arrives frame queue past' ∷ waits) past p =
    let p' = drain p.buf.queue p in
    let waiting =
      not (p'.room == 0) && not p'.buf.is_closed && not (ltb 0 (length p'.out)) && not past in
    let p'' = record p' { buf = record (on_frame frame p'.buf) { queue = queue } } in
    let more = read_loop waits past' p'' in
    if waiting then more else record {
      progress = p';
      err = (if not (p'.room == 0) && p'.buf.is_closed then eof else no_error);
      unused = arrives frame queue past' ∷ waits;
    }

-- `read` into a slice of length `room`.
unfoldable pub read : Bool → List Wait → Bool → ℕ → ReceiveBuffer → ReadResult
read picks_ack waits past room buf =
    let r = read_loop waits past (record { out = []; room = room; buf = buf }) in
    record r { progress = record r.progress { buf = ack_if_necessary picks_ack r.progress.buf } }
