-- ===== src/Sender/Loop.antt =====
-- session.go: `session.send` and `sendLoop`.
use plampshade.Base.{ℕ, ◌+◌, Bool, List, [], ◌∷◌, ◌++◌, if◌then◌else◌}
use plampshade.Wire.Message.{Frame}
use plampshade.Session.{Session, close_streams}
use plampshade.Sender.{Outcome, ok, ◌>>=◌, Crypters, Ready, new_sender, send}

-- The fields of `session` that sending changes: the pre-allocated buffer, the time of the last
-- ping, and the table of streams. The encryption in the buffer leaves no trace: each `send`
-- writes what it sends.
pub record Line : Type 0 where
  pub session_frame : List ℕ
  pub last_ping : ℕ
  pub session : Session

-- What one `send` meets: the random number of the padding, the clocks, what is ready behind the
-- frame.
pub record Turn : Type 0 where
  pub drawn : ℕ
  pub now : ℕ
  pub clock : ℕ
  pub ready : List Ready
  pub frame : Frame

-- `session.send`, with the cipher's overhead and the ping interval: `open`, and the bytes written.
unfoldable pub session_send : Crypters → ℕ → ℕ → Turn → Line → Outcome (Line × Bool × List ℕ)
session_send c overhead ping_interval turn line = do
  (snd, is_open, bytes) ←
      send c turn.drawn turn.now turn.clock turn.ready turn.frame
        (new_sender line.session_frame overhead ping_interval line.last_ping)
  ok (
    record {
      session_frame = snd.session_frame;
      last_ping = snd.last_ping;
      session = close_streams snd.closed_streams line.session;
    },
    is_open,
    bytes,
  )

-- The cases of the `select`: the session closed, or a frame from `out` or `echoOut`.
pub data LoopEvent : Type 0 where
  closed : LoopEvent
  takes : Turn → LoopEvent

-- `sendLoop`: the bytes that it writes. The crypters of the packet with the number `k`. The end
-- of the list is a loop that waits.
unfoldable pub send_loop :
    (ℕ → Crypters) → ℕ → ℕ → ℕ → List LoopEvent → Line → Outcome (Line × List ℕ)
send_loop c overhead ping_interval k [] line = ok (line, [])
send_loop c overhead ping_interval k (closed ∷ events) line = ok (line, [])
send_loop c overhead ping_interval k (takes turn ∷ events) line = do
  (line', is_open, bytes) ← session_send (c k) overhead ping_interval turn line
  let rest = send_loop c overhead ping_interval (k + 1) events line'
  if is_open then (do (line'', more) ← rest; ok (line'', bytes ++ more)) else ok (line', bytes)
