-- ===== src/Stream/Reads.antt =====
-- stream.go: `Read`, `Close` and the deadlines, on the stream with its receive buffer; what a
-- closed stream hands out.
use plampshade.Base.{
  ℕ, zero, suc, ◌-◌, ◌≡◌, refl, sym, ap, ◌∙◌, Bool, true, false, not, ◌&&◌, List, [], ◌∷◌, ◌++◌,
  append_assoc, append-nil, Option, none, some, leb, ltb, ◌==◌, if◌then◌else◌, if_rule, length,
  length-append, take, take-append_of_le, arith, true≢false,
}
use plampshade.Flow.{
  ReceiveBuffer, Progress, Wait, arrives, ends, ReadError, no_error, eof, ReadResult, copy_current,
  drain, read_loop, read, timeout, on_frame, close_buffer,
}
use plampshade.Flow.Reading.{payload, content, waiting}
use plampshade.Stream.{Stream, WriteError, connection_closed, close}

-- A stream with its receive buffer and its deadlines; none is the zero time.
pub record End : Type 0 where
  pub stream : Stream
  pub rb : ReceiveBuffer
  pub read_deadline : Option ℕ
  pub write_deadline : Option ℕ

-- `close`, the receive buffer included.
unfoldable pub close_end : Bool → Option WriteError → Option WriteError → End → End
close_end send_rst read_err write_err c = record c {
  stream = close send_rst read_err write_err c.stream;
  rb = (if c.stream.closed then c.rb else close_buffer c.rb);
}

-- `Close`
unfoldable pub close_own : End → End
unfolding close_end
close_own c = close_end true (some connection_closed) (some connection_closed) c

unfoldable pub set_read_deadline : Option ℕ → End → End
set_read_deadline t c = record c { read_deadline = t }

unfoldable pub set_write_deadline : Option ℕ → End → End
set_write_deadline t c = record c { write_deadline = t }

unfoldable pub set_deadline : Option ℕ → End → End
set_deadline t c = record c { read_deadline = t; write_deadline = t }

pub data ReadErr : Type 0 where
  of_buffer : ReadError → ReadErr
  final : WriteError → ReadErr

-- `Read` into a slice of length `room`: the bytes, the error, and the buffer. `past` says that the
-- deadline has passed.
unfoldable pub read_stream : Bool → List Wait → Bool → ℕ → End → List ℕ × ReadErr × ReceiveBuffer
read_stream picks_ack waits past room c = elim c.stream.final_read_err [
  | some e ↦ ([], final e, c.rb)
  | none ↦
      let r = read picks_ack waits past room c.rb in
      (r.progress.out, of_buffer r.err, r.progress.buf)
]

pub drain-is_closed :
    (queue : List (List ℕ)) (p : Progress) → (drain queue p).buf.is_closed ≡ p.buf.is_closed
unfolding drain copy_current on_frame
drain-is_closed [] p = refl
drain-is_closed (f ∷ queue) p =
    let p' = copy_current p in
    if_rule (λ (q : Progress). q.buf.is_closed ≡ p.buf.is_closed)
      (p.room - length p.buf.current == 0) (λ e. refl)
      (λ e. drain-is_closed queue (record p' { buf = on_frame f p'.buf }))

drain-room :
    (queue : List (List ℕ)) (p : Progress)
    → (drain queue p).room ≡ p.room - length (p.buf.current ++ payload queue)
unfolding drain copy_current on_frame
drain-room [] p = omega (arith, length-append p.buf.current [])
drain-room (f ∷ queue) p =
    let p' = copy_current p in
    let all = length-append p.buf.current (payload (f ∷ queue)) in
    if_rule (λ (q : Progress). q.room ≡ p.room - length (p.buf.current ++ payload (f ∷ queue)))
      (p.room - length p.buf.current == 0) (λ e. ground (arith, all))
      (λ e. drain-room queue (record p' { buf = on_frame f p'.buf }) ∙ omega (arith, all))

take-append_parts :
    (n : ℕ) (xs ys : List ℕ) → take n (xs ++ ys) ≡ take n xs ++ take (n - length xs) ys
take-append_parts zero xs ys = let none_left : 0 - length xs ≡ 0 = omega arith in rw none_left refl
take-append_parts (suc n) [] ys = let all : suc n - 0 ≡ suc n = omega arith in rw all refl
take-append_parts (suc n) (x ∷ xs) ys =
    let less : suc n - suc (length xs) ≡ n - length xs = omega arith in
    rw less (ap (λ zs. x ∷ zs) (take-append_parts n xs ys))

drain-out :
    (queue : List (List ℕ)) (p : Progress)
    → (drain queue p).out ≡ p.out ++ take p.room (p.buf.current ++ payload queue)
unfolding drain copy_current on_frame
drain-out [] p = ap (λ x. p.out ++ take p.room x) (sym (append-nil p.buf.current))
drain-out (f ∷ queue) p =
    let p' = copy_current p in
    let split = take-append_parts p.room p.buf.current (payload (f ∷ queue)) in
    if_rule (λ (q : Progress). q.out ≡ p.out ++ take p.room (p.buf.current ++ payload (f ∷ queue)))
      (p.room - length p.buf.current == 0)
      (λ e.
        ap (λ x. p.out ++ x)
          (sym (take-append_of_le p.room p.buf.current (payload (f ∷ queue)) (ground arith))))
      (λ e.
        drain-out queue (record p' { buf = on_frame f p'.buf })
        ∙ append_assoc p.out (take p.room p.buf.current) _
        ∙ ap (λ x. p.out ++ x) (sym split))

-- What a read of a closed buffer gives: all that is left, as far as there is room, and the end of
-- the stream where there is more room than that.
abbrev Ends : ℕ → ReceiveBuffer → ReadResult → Type 0
Ends room buf r =
    (r.progress.out ≡ take room (content buf))
    × (r.err ≡ (if leb room (length (content buf)) then no_error else eof))

no_more_room :
    (room : ℕ) (buf : ReceiveBuffer)
    → ((drain buf.queue (record { out = []; room = room; buf = buf })).room == 0)
      ≡ leb room (length (content buf))
no_more_room room buf =
    let left = drain-room buf.queue (record { out = []; room = room; buf = buf }) in
    ground (arith, left)

closed_err :
    (full closed : Bool)
    → closed ≡ true
    → (if not full && closed then eof else no_error) ≡ (if full then no_error else eof)
closed_err true closed h = refl
closed_err false closed h = rw h refl

read_loop-Ends :
    (waits : List Wait) (past : Bool) (room : ℕ) (buf : ReceiveBuffer)
    → buf.is_closed ≡ true
    → Ends room buf (read_loop waits past (record { out = []; room = room; buf = buf }))
unfolding read_loop
read_loop-Ends [] past room buf h =
    let p : Progress = record { out = []; room = room; buf = buf } in
    let q = drain buf.queue p in
    let closed : q.buf.is_closed ≡ true = drain-is_closed buf.queue p ∙ h in
    (
      drain-out buf.queue p,
      ap
            (λ b.
              if q.room == 0
              then no_error
              else (if b
                  then eof
                  else (if ltb 0 (length q.out)
                      then no_error
                      else (if past then no_error else timeout))))
            closed
          ∙ ap (λ b. if b then no_error else eof) (no_more_room room buf),
    )
read_loop-Ends (ends ∷ waits) past room buf h =
    let p : Progress = record { out = []; room = room; buf = buf } in
    let q = drain buf.queue p in
    let closed : q.buf.is_closed ≡ true = drain-is_closed buf.queue p ∙ h in
    let stuck : waiting q past ≡ false = ground arith in
    if_rule (Ends room buf) (waiting q past) (λ w. true≢false (waiting q past) w stuck)
      (λ w. (
        drain-out buf.queue p,
        closed_err (q.room == 0) q.buf.is_closed closed
            ∙ ap (λ b. if b then no_error else eof) (no_more_room room buf),
      ))
read_loop-Ends (arrives f queue past' ∷ waits) past room buf h =
    let p : Progress = record { out = []; room = room; buf = buf } in
    let q = drain buf.queue p in
    let closed : q.buf.is_closed ≡ true = drain-is_closed buf.queue p ∙ h in
    let stuck : waiting q past ≡ false = ground arith in
    if_rule (Ends room buf) (waiting q past) (λ w. true≢false (waiting q past) w stuck)
      (λ w. (
        drain-out buf.queue p,
        closed_err (q.room == 0) q.buf.is_closed closed
            ∙ ap (λ b. if b then no_error else eof) (no_more_room room buf),
      ))

-- Once a peer has closed an open stream, a read hands out what is still buffered, in order and as
-- far as there is room, and the end of the stream where there is more room than that, whatever
-- else happens; it neither waits nor times out. Once the user has closed it, a read gives no
-- bytes, what is buffered included, and the error of a closed connection.
pub read_stream-close :
    (picks_ack : Bool) (waits : List Wait) (past : Bool) (room : ℕ) (c : End)
    → c.stream.closed ≡ false
    → ((read_stream picks_ack waits past room (close_end false none none c)).0
        ≡ take room (content c.rb))
      × ((read_stream picks_ack waits past room (close_end false none none c)).1
          ≡ of_buffer (if leb room (length (content c.rb)) then no_error else eof))
      × (read_stream picks_ack waits past room (close_own c)
          ≡ ([], final connection_closed, close_buffer c.rb))
unfolding read_stream close_end close close_own read close_buffer
read_stream-close picks_ack waits past room c h =
    let (out, err) = read_loop-Ends waits past room (close_buffer c.rb) refl in
    rw h (out, ap of_buffer err, refl)
