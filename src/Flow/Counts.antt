-- ===== src/Flow/Counts.antt =====
-- The frames that a receive buffer accounts for: each is queued, read but not yet acknowledged,
-- or acknowledged.
use plampshade.Base.{
  ℕ, suc, ◌+◌, ◌-◌, ◌<◌, ◌≡◌, refl, ap, ◌∙◌, Bool, true, false, not, ◌&&◌, List, [], ◌∷◌, ◌++◌, leb,
  ltb, ◌==◌, length, length-append, arith, if_rule, true≢false,
}
use plampshade.Flow.{
  ReceiveBuffer, Progress, Wait, arrives, ends, ReadResult, copy_current, drain, read_loop, read,
  on_frame, ack_if_necessary, do_send_ack, close_buffer, do_submit,
}
use plampshade.Flow.Reading.{waiting, waiting-room}

abbrev pub sum : List ℕ → ℕ
sum [] = 0
sum (x ∷ xs) = x + sum xs

pub sum-append : (xs ys : List ℕ) → sum (xs ++ ys) ≡ sum xs + sum ys
sum-append [] ys = omega arith
sum-append (x ∷ xs) ys = omega (arith, sum-append xs ys)

abbrev pub arriving : List Wait → ℕ
arriving [] = 0
arriving (arrives f fs past ∷ waits) = suc (length fs) + arriving waits
arriving (ends ∷ waits) = arriving waits

abbrev pub accounted : ReceiveBuffer → ℕ
accounted buf = length buf.queue + buf.unacked + sum buf.acks

-- From `a` to `b` the frames `new` came in, none got lost, and an open buffer was open before.
pub record Accounts (a b : ReceiveBuffer) (new left : ℕ) : Type 0 where
  pub kept : accounted b + left ≡ accounted a + new
  pub interval : b.ack_interval ≡ a.ack_interval
  pub capacity : b.window_size ≡ a.window_size
  pub was_open : b.is_closed ≡ false → a.is_closed ≡ false

drain-Accounts :
    (queue : List (List ℕ)) (p : Progress)
    → Accounts (record p.buf { queue = queue }) (drain queue p).buf 0 0
unfolding drain copy_current on_frame
drain-Accounts [] p = record { kept = refl; interval = refl; capacity = refl; was_open = λ h. h }
drain-Accounts (f ∷ queue) p =
    let p' = copy_current p in
    let rest = drain-Accounts queue (record p' { buf = on_frame f p'.buf }) in
    if_rule (λ (q : Progress). Accounts (record p.buf { queue = f ∷ queue }) q.buf 0 0)
      (p.room - length p.buf.current == 0)
      (λ e. record { kept = refl; interval = refl; capacity = refl; was_open = λ h. h })
      (λ e. record {
        kept = omega (arith, rest.kept);
        interval = rest.interval;
        capacity = rest.capacity;
        was_open = rest.was_open;
      })

drain-queue :
    (queue : List (List ℕ)) (p : Progress)
    → ((drain queue p).room == 0) ≡ false
    → (drain queue p).buf.queue ≡ []
unfolding drain copy_current
drain-queue [] p e = refl
drain-queue (f ∷ queue) p e =
    let p' = copy_current p in
    if_rule (λ (q : Progress). (q.room == 0) ≡ false → q.buf.queue ≡ [])
      (p.room - length p.buf.current == 0)
      (λ e h. true≢false (p.room - length p.buf.current == 0) e h)
      (λ e h. drain-queue queue (record p' { buf = on_frame f p'.buf }) h) e

abbrev Reads : ReceiveBuffer → ℕ → ReadResult → Type 0
Reads a new r = Accounts a r.progress.buf new (arriving r.unused)

unread : (p : Progress) (n : ℕ) → Accounts p.buf (drain p.buf.queue p).buf n n
unread p n =
    let d = drain-Accounts p.buf.queue p in
    record {
      kept = omega (arith, d.kept);
      interval = d.interval;
      capacity = d.capacity;
      was_open = d.was_open;
    }

read_loop-Accounts :
    (waits : List Wait) (past : Bool) (p : Progress)
    → Reads p.buf (arriving waits) (read_loop waits past p)
unfolding read_loop on_frame close_buffer
read_loop-Accounts [] past p = unread p 0
read_loop-Accounts (ends ∷ waits) past p =
    let d = unread p (arriving waits) in
    if_rule (Reads p.buf (arriving waits)) (waiting (drain p.buf.queue p) past)
      (λ e. record {
        kept = d.kept;
        interval = d.interval;
        capacity = d.capacity;
        was_open = λ h. absurd (ground arith);
      })
      (λ e. d)
read_loop-Accounts (arrives f queue past' ∷ waits) past p =
    let q = drain p.buf.queue p in
    let new = arriving (arrives f queue past' ∷ waits) in
    let q' : Progress = record q { buf = record (on_frame f q.buf) { queue = queue } } in
    let d = unread p new in
    let more = read_loop-Accounts waits past' q' in
    if_rule (Reads p.buf new) (waiting q past)
      (λ e. record {
        kept = omega (
          arith,
          more.kept,
          d.kept,
          ap (length {A = List ℕ}) (drain-queue p.buf.queue p (waiting-room q past e)),
        );
        interval = more.interval ∙ d.interval;
        capacity = more.capacity ∙ d.capacity;
        was_open = λ h. d.was_open (more.was_open h);
      })
      (λ e. d)

ack_if_necessary-Accounts :
    (picks_ack : Bool) (buf : ReceiveBuffer)
    → (ack_if_necessary picks_ack buf).is_closed ≡ false
    → Accounts buf (ack_if_necessary picks_ack buf) 0 0
unfolding ack_if_necessary do_send_ack
ack_if_necessary-Accounts picks_ack buf =
    let P : ReceiveBuffer → Type 0 = λ b. b.is_closed ≡ false → Accounts buf b 0 0 in
    if_rule P (leb buf.ack_interval buf.unacked)
      (λ e.
        if_rule (λ (b : ReceiveBuffer). P (record b { unacked = 0 }))
          (buf.is_closed && not picks_ack) (λ c h. absurd (ground arith))
          (λ c h. record {
            kept = omega (arith, sum-append buf.acks (buf.unacked ∷ []));
            interval = refl;
            capacity = refl;
            was_open = λ h. h;
          }))
      (λ e h. record { kept = refl; interval = refl; capacity = refl; was_open = λ h. h })

pub read-Accounts :
    (picks_ack : Bool) (waits : List Wait) (past : Bool) (room : ℕ) (buf : ReceiveBuffer)
    → (read picks_ack waits past room buf).progress.buf.is_closed ≡ false
    → Reads buf (arriving waits) (read picks_ack waits past room buf)
unfolding read
read-Accounts picks_ack waits past room buf h =
    let r = read_loop waits past (record { out = []; room = room; buf = buf }) in
    let a = ack_if_necessary-Accounts picks_ack r.progress.buf h in
    let l = read_loop-Accounts waits past (record { out = []; room = room; buf = buf }) in
    record {
      kept = omega (arith, a.kept, l.kept);
      interval = a.interval ∙ l.interval;
      capacity = a.capacity ∙ l.capacity;
      was_open = λ k. l.was_open (a.was_open k);
    }

-- After a read fewer frames than the interval are unacknowledged.
pub read-unacked :
    (picks_ack : Bool) (waits : List Wait) (past : Bool) (room : ℕ) (buf : ReceiveBuffer)
    → 0 < buf.ack_interval
    → (read picks_ack waits past room buf).progress.buf.unacked < buf.ack_interval
unfolding read ack_if_necessary
read-unacked picks_ack waits past room buf h =
    let p : Progress = record { out = []; room = room; buf = buf } in
    let r = read_loop waits past p in
    let l = read_loop-Accounts waits past p in
    if_rule (λ (b : ReceiveBuffer). b.unacked < buf.ack_interval)
      (leb r.progress.buf.ack_interval r.progress.buf.unacked) (λ e. omega arith)
      (λ e. ground (arith, l.interval))

-- An open buffer with room takes a frame.
pub do_submit-Accounts :
    (frame : List ℕ) (buf : ReceiveBuffer)
    → buf.is_closed ≡ false
    → length buf.queue < buf.window_size
    → Accounts buf (do_submit frame buf).0 1 0 × ((do_submit frame buf).1 ≡ true)
unfolding do_submit
do_submit-Accounts frame buf h k =
    let fits : ltb (length buf.queue) buf.window_size ≡ true = ground arith in
    rw (h, fits)
      (
        record {
          kept = omega (arith, length-append buf.queue (frame ∷ []));
          interval = refl;
          capacity = refl;
          was_open = λ k. k;
        },
        refl,
      )
