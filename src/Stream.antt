-- ===== src/Stream.antt =====
-- stream.go: writing to a stream, in chunks that fit a frame, and closing it; and `send` and
-- `doSend` of sendbuffer.go, which queue a chunk. The timers and the other goroutines are lists of
-- what happens.
pub mod Writing
pub mod Reads
use plampshade.Base.{
  ℕ, zero, suc, ◌+◌, Bool, true, false, not, List, [], ◌∷◌, ◌++◌, Option, none, some, ltb,
  if◌then◌else◌, length, take, drop,
}
use plampshade.Wire.{max_data_len}

pub data WriteError : Type 0 where
  -- `ErrTimeout`, `syscall.EPIPE`, `ErrConnectionClosed`, and any other error of a session.
  timeout : WriteError
  broken_pipe : WriteError
  connection_closed : WriteError
  other : ℕ → WriteError

pub data Deadline : Type 0 where
  no_deadline : Deadline
  past : Deadline
  ahead : Deadline

-- Which case the `select` of `doSend` takes: the frame is queued, or a timer fires.
pub data Selected : Type 0 where
  queued : Selected
  write_timer : Selected
  close_timer : Selected

-- The results of `doSend`: `processed`, `n` and the error.
unfoldable pub do_send : Bool → Deadline → Selected → List ℕ → Bool × ℕ × Option WriteError
do_send true d s b = (true, 0, some broken_pipe)
do_send false past s b = (true, 0, some timeout)
do_send false no_deadline queued b = (true, length b, none)
do_send false no_deadline write_timer b = (false, 0, none)
do_send false no_deadline close_timer b = (false, 0, none)
do_send false ahead queued b = (true, length b, none)
do_send false ahead write_timer b = (true, 0, some timeout)
do_send false ahead close_timer b = (false, 0, none)

-- One round of the loop of `send`: whether the buffer is closing, the deadline as the clock stands,
-- and the case taken.
pub record Try : Type 0 where
  pub closing : Bool
  pub deadline : Deadline
  pub selected : Selected

-- `send`. After the tries of the list the frame is queued.
unfoldable pub send : List Try → List ℕ → ℕ × Option WriteError
unfolding do_send
send [] b = (length b, none)
send (t ∷ tries) b =
    let (processed, n, err) = do_send t.closing t.deadline t.selected b in
    let more = send tries b in if processed then (n, err) else more

pub record Stream : Type 0 where
  pub closed : Bool
  pub final_read_err : Option WriteError
  pub final_write_err : Option WriteError
  -- How often the receive buffer was closed, and the RST flags given to the send buffer.
  pub rb_closes : ℕ
  pub sb_closes : List Bool

unfoldable pub close : Bool → Option WriteError → Option WriteError → Stream → Stream
close send_rst read_err write_err c = if c.closed then c else record {
  closed = true;
  final_read_err = read_err;
  final_write_err = write_err;
  rb_closes = c.rb_closes + 1;
  sb_closes = c.sb_closes ++ (send_rst ∷ []);
}

-- What a call of `Write` with at most `MaxDataLen` bytes meets.
pub record Attempt : Type 0 where
  pub final_write_err : Option WriteError
  pub tries : List Try

-- `n`, the error, and the chunks that were queued.
pub record Written : Type 0 where
  pub n : ℕ
  pub err : Option WriteError
  pub chunks : List (List ℕ)

unfoldable pub queued_chunk : List ℕ → ℕ × Option WriteError → Written
queued_chunk b (n, none) = record { n = n; err = none; chunks = b ∷ [] }
queued_chunk b (n, some e) = record { n = n; err = some e; chunks = [] }

-- `Write` below its first test. The buffer of the pool holds a copy of `b`.
unfoldable pub write_one : Attempt → List ℕ → Written
write_one a b = elim a.final_write_err [
  | none ↦ queued_chunk b (send a.tries b)
  | some e ↦ record { n = 0; err = some e; chunks = [] }
]

abbrev pub first_attempt : List Attempt → Attempt
first_attempt [] = record { final_write_err = none; tries = [] }
first_attempt (a ∷ attempts) = a

-- The rest of `writeChunks` after a chunk.
unfoldable pub and_then : Written → Written → Written
and_then w rest = elim w.err [
  | none ↦ record { n = w.n + rest.n; err = rest.err; chunks = w.chunks ++ rest.chunks }
  | some e ↦ w
]

-- The fuel is the number of bytes; each round of the loop that goes on takes some off.
unfoldable pub write_chunks : ℕ → List Attempt → List ℕ → Written
write_chunks zero attempts b = write_one (first_attempt attempts) b
write_chunks (suc fuel) attempts b =
    let rest = write_chunks fuel (drop 1 attempts) (drop max_data_len b) in
    if ltb max_data_len (length b)
    then and_then (write_one (first_attempt attempts) (take max_data_len b)) rest
    else write_one (first_attempt attempts) b

unfoldable pub write : List Attempt → List ℕ → Written
write attempts b =
    if ltb max_data_len (length b)
    then write_chunks (length b) attempts b
    else write_one (first_attempt attempts) b
