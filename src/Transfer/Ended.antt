-- ===== src/Transfer/Ended.antt =====
-- receive_buffer.go: when a read tells of the end of a stream, and what stays after it is closed.
use plampshade.Base.{
  ℕ, ◌≡◌, refl, ◌∙◌, Bool, true, false, not, ◌&&◌, List, [], ◌∷◌, ltb, ◌==◌, length, if◌then◌else◌,
  if_rule, arith, true≢false,
}
use plampshade.Flow.{
  ReceiveBuffer, Progress, Wait, arrives, ends, ReadError, no_error, eof, timeout, ReadResult,
  drain, read_loop, read, do_submit, ack_if_necessary, do_send_ack, close_buffer, on_frame,
}
use plampshade.Flow.Reading.{
  content, waiting, waiting-room, drain-current, ack_if_necessary-content,
}
use plampshade.Stream.Reads.{drain-is_closed}

pub do_submit-closed :
    (frame : List ℕ) (buf : ReceiveBuffer) → buf.is_closed ≡ true → (do_submit frame buf).0 ≡ buf
unfolding do_submit
do_submit-closed frame buf h =
    if_rule (λ (r : ReceiveBuffer × Bool). r.0 ≡ buf) buf.is_closed (λ e. refl)
      (λ e. true≢false buf.is_closed h e)

-- What the end of a stream means, when a read tells of it.
abbrev Ended : ReadResult → Type 0
Ended r = r.err ≡ eof → (r.progress.buf.is_closed ≡ true) × (content r.progress.buf ≡ [])

eof_of :
    (full closed : Bool)
    → (if not full && closed then eof else no_error) ≡ eof
    → (full ≡ false) × (closed ≡ true)
eof_of full closed h = ground arith

last_eof :
    (full closed given past : Bool)
    → (if full
        then no_error
        else (if closed
            then eof
            else (if given then no_error else (if past then no_error else timeout))))
      ≡ eof
    → (full ≡ false) × (closed ≡ true)
last_eof full closed given past h = ground arith

-- A read that has copied what there was, and does not wait.
Ended-drained :
    (p : Progress) (unused : List Wait) (err : ReadError)
    → (err ≡ eof
        → ((drain p.buf.queue p).room == 0) ≡ false × (drain p.buf.queue p).buf.is_closed ≡ true)
    → Ended (record { progress = drain p.buf.queue p; err = err; unused = unused })
Ended-drained p unused err means h =
    let (roomy, closed) = means h in (closed, drain-current p.buf.queue p roomy)

read_loop-Ended : (waits : List Wait) (past : Bool) (p : Progress) → Ended (read_loop waits past p)
unfolding read_loop close_buffer
read_loop-Ended [] past p =
    let q = drain p.buf.queue p in
    Ended-drained p [] _ (λ h. last_eof (q.room == 0) q.buf.is_closed (ltb 0 (length q.out)) past h)
read_loop-Ended (ends ∷ waits) past p =
    let q = drain p.buf.queue p in
    if_rule Ended (waiting q past)
      (λ e h. (refl, drain-current p.buf.queue p (waiting-room q past e)))
      (λ e. Ended-drained p (ends ∷ waits) _ (λ h. eof_of (q.room == 0) q.buf.is_closed h))
read_loop-Ended (arrives f queue past' ∷ waits) past p =
    let q = drain p.buf.queue p in
    if_rule Ended (waiting q past)
      (λ e.
        read_loop-Ended waits past'
          (record q { buf = record (on_frame f q.buf) { queue = queue } }))
      (λ e.
        Ended-drained p (arrives f queue past' ∷ waits) _
          (λ h. eof_of (q.room == 0) q.buf.is_closed h))

-- A closed buffer keeps no read waiting.
abbrev StaysClosed : List Wait → ReadResult → Type 0
StaysClosed waits r = (r.progress.buf.is_closed ≡ true) × (r.unused ≡ waits)

no_wait :
    (waits : List Wait) (past : Bool) (p : Progress)
    → p.buf.is_closed ≡ true
    → (waited : ReadResult) (err : ReadError)
    → StaysClosed waits (
        if waiting (drain p.buf.queue p) past
        then waited
        else record { progress = drain p.buf.queue p; err = err; unused = waits })
no_wait waits past p h waited err =
    let q = drain p.buf.queue p in
    let closed : q.buf.is_closed ≡ true = drain-is_closed p.buf.queue p ∙ h in
    let stuck : waiting q past ≡ false = ground arith in
    if_rule (StaysClosed waits) (waiting q past) (λ w. true≢false (waiting q past) w stuck)
      (λ w. (closed, refl))

read_loop-StaysClosed :
    (waits : List Wait) (past : Bool) (p : Progress)
    → p.buf.is_closed ≡ true
    → StaysClosed waits (read_loop waits past p)
unfolding read_loop
read_loop-StaysClosed [] past p h = (drain-is_closed p.buf.queue p ∙ h, refl)
read_loop-StaysClosed (ends ∷ waits) past p h = no_wait (ends ∷ waits) past p h _ _
read_loop-StaysClosed (arrives f queue past' ∷ waits) past p h =
    no_wait (arrives f queue past' ∷ waits) past p h _ _

-- `ackIfNecessary` touches neither the bytes nor whether the buffer is closed.
ack_if_necessary-is_closed :
    (picks_ack : Bool) (buf : ReceiveBuffer)
    → (ack_if_necessary picks_ack buf).is_closed ≡ buf.is_closed
unfolding ack_if_necessary do_send_ack
ack_if_necessary-is_closed picks_ack buf = ground arith

pub read-Ended :
    (picks_ack : Bool) (waits : List Wait) (past : Bool) (room : ℕ) (buf : ReceiveBuffer)
    → Ended (read picks_ack waits past room buf)
unfolding read
read-Ended picks_ack waits past room buf h =
    let r = read_loop waits past (record { out = []; room = room; buf = buf }) in
    let (closed, empty) =
      read_loop-Ended waits past (record { out = []; room = room; buf = buf }) h in
    (
      ack_if_necessary-is_closed picks_ack r.progress.buf ∙ closed,
      ack_if_necessary-content picks_ack r.progress.buf ∙ empty,
    )

pub read-StaysClosed :
    (picks_ack : Bool) (waits : List Wait) (past : Bool) (room : ℕ) (buf : ReceiveBuffer)
    → buf.is_closed ≡ true
    → StaysClosed waits (read picks_ack waits past room buf)
unfolding read
read-StaysClosed picks_ack waits past room buf h =
    let r = read_loop waits past (record { out = []; room = room; buf = buf }) in
    let (closed, same) =
      read_loop-StaysClosed waits past (record { out = []; room = room; buf = buf }) h in
    (ack_if_necessary-is_closed picks_ack r.progress.buf ∙ closed, same)
