-- ===== src/Flow/Reading.antt =====
-- receive_buffer.go: the bytes that reads take out of a receive buffer.
use plampshade.Base.{
  true≢false, ℕ, zero, suc, ◌-◌, ◌≡◌, refl, sym, ap, ◌∙◌, Bool, true, false, not, ◌&&◌, List, [],
  ◌∷◌, ◌++◌, append_assoc, ltb, leb, ◌==◌, length, take, drop, take-append-drop, arith, if_rule,
}
use plampshade.Flow.{
  ReceiveBuffer, Progress, Wait, arrives, ends, ReadResult, copy_current, drain, read_loop, read,
  on_frame, ack_if_necessary, do_send_ack, close_buffer,
}

-- The bytes of frames that were queued.
abbrev pub payload : List (List ℕ) → List ℕ
payload [] = []
payload (f ∷ fs) = drop 5 f ++ payload fs

-- The bytes a buffer still has to hand out.
abbrev pub content : ReceiveBuffer → List ℕ
content buf = buf.current ++ payload buf.queue

abbrev pub arrivals : List Wait → List ℕ
arrivals [] = []
arrivals (arrives f fs past ∷ waits) = payload (f ∷ fs) ++ arrivals waits
arrivals (ends ∷ waits) = arrivals waits

-- `take n` takes all where the rest of the room is not used up.
copies_all : (n : ℕ) (xs : List ℕ) → (n - length xs == 0) ≡ false → drop n xs ≡ []
copies_all zero xs e = absurd (ground arith)
copies_all (suc n) [] e = refl
copies_all (suc n) (x ∷ xs) e = copies_all n xs (ground arith)

recombined : (out c t : List ℕ) (n : ℕ) → (out ++ take n c) ++ (drop n c ++ t) ≡ out ++ (c ++ t)
recombined out c t n =
    append_assoc out (take n c) (drop n c ++ t)
    ∙ ap (◌++◌ out)
        (sym (append_assoc (take n c) (drop n c) t) ∙ ap (λ x. x ++ t) (take-append-drop n c))

drain-content :
    (queue : List (List ℕ)) (p : Progress)
    → (drain queue p).out ++ content (drain queue p).buf ≡ p.out ++ (p.buf.current ++ payload queue)
unfolding drain copy_current on_frame
drain-content [] p = recombined p.out p.buf.current [] p.room
drain-content (f ∷ queue) p =
    let p' = copy_current p in
    if_rule
      (λ (q : Progress). q.out ++ content q.buf ≡ p.out ++ (p.buf.current ++ payload (f ∷ queue)))
      (p.room - length p.buf.current == 0)
      (λ e. recombined p.out p.buf.current (payload (f ∷ queue)) p.room)
      λ e.
        drain-content queue (record p' { buf = on_frame f p'.buf })
        ∙ ap (λ x. (p.out ++ take p.room p.buf.current) ++ (x ++ payload (f ∷ queue)))
            (sym (copies_all p.room p.buf.current e))
        ∙ recombined p.out p.buf.current (payload (f ∷ queue)) p.room

-- Copying what there is uses up the room, or the buffer.
pub drain-current :
    (queue : List (List ℕ)) (p : Progress)
    → ((drain queue p).room == 0) ≡ false
    → content (drain queue p).buf ≡ []
unfolding drain copy_current
drain-current [] p e = rw (copies_all p.room p.buf.current e) refl
drain-current (f ∷ queue) p e =
    let p' = copy_current p in
    if_rule (λ (q : Progress). (q.room == 0) ≡ false → content q.buf ≡ [])
      (p.room - length p.buf.current == 0)
      (λ e h. true≢false (p.room - length p.buf.current == 0) e h)
      (λ e h. drain-current queue (record p' { buf = on_frame f p'.buf }) h) e

abbrev pub Conserves : List ℕ → ReadResult → Type 0
Conserves before r = r.progress.out ++ (content r.progress.buf ++ arrivals r.unused) ≡ before

drained :
    (p : Progress) (rest : List ℕ)
    → (drain p.buf.queue p).out ++ (content (drain p.buf.queue p).buf ++ rest)
      ≡ p.out ++ (content p.buf ++ rest)
drained p rest =
    let q = drain p.buf.queue p in
    sym (append_assoc q.out (content q.buf) rest)
    ∙ ap (λ x. x ++ rest) (drain-content p.buf.queue p)
    ∙ append_assoc p.out (content p.buf) rest

-- Whether `read` gets to wait.
abbrev pub waiting : Progress → Bool → Bool
waiting q past = not (q.room == 0) && not q.buf.is_closed && not (ltb 0 (length q.out)) && not past

pub waiting-room : (q : Progress) (past : Bool) → waiting q past ≡ true → (q.room == 0) ≡ false
waiting-room q past e = ground arith

read_loop-content :
    (waits : List Wait) (past : Bool) (p : Progress)
    → Conserves (p.out ++ (content p.buf ++ arrivals waits)) (read_loop waits past p)
unfolding read_loop on_frame close_buffer
read_loop-content [] past p = drained p []
read_loop-content (ends ∷ waits) past p =
    let before = p.out ++ (content p.buf ++ arrivals waits) in
    if_rule (Conserves before) (waiting (drain p.buf.queue p) past)
      (λ e. drained p (arrivals waits)) (λ e. drained p (arrivals waits))
read_loop-content (arrives f queue past' ∷ waits) past p =
    let q = drain p.buf.queue p in
    let new = arrivals (arrives f queue past' ∷ waits) in
    let q' : Progress = record q { buf = record (on_frame f q.buf) { queue = queue } } in
    if_rule (Conserves (p.out ++ (content p.buf ++ new))) (waiting q past)
      (λ e.
        read_loop-content waits past' q'
        ∙ ap (λ x. q.out ++ (x ++ new)) (sym (drain-current p.buf.queue p (waiting-room q past e)))
        ∙ drained p new)
      (λ e. drained p new)

pub ack_if_necessary-content :
    (picks_ack : Bool) (buf : ReceiveBuffer)
    → content (ack_if_necessary picks_ack buf) ≡ content buf
unfolding ack_if_necessary do_send_ack
ack_if_necessary-content picks_ack buf =
    if_rule (λ (b : ReceiveBuffer). content b ≡ content buf) (leb buf.ack_interval buf.unacked)
      (λ e.
        if_rule (λ (b : ReceiveBuffer). content b ≡ content buf) (buf.is_closed && not picks_ack)
          (λ c. refl) (λ c. refl))
      (λ e. refl)

-- Reading hands out the bytes in the order in which they came: what was read, then what is still
-- buffered, then the frames that have yet to come, are what was buffered and what was to come.
pub read-content :
    (picks_ack : Bool) (waits : List Wait) (past : Bool) (room : ℕ) (buf : ReceiveBuffer)
    → Conserves (content buf ++ arrivals waits) (read picks_ack waits past room buf)
unfolding read
read-content picks_ack waits past room buf =
    let r = read_loop waits past (record { out = []; room = room; buf = buf }) in
    ap (λ x. r.progress.out ++ (x ++ arrivals r.unused))
      (ack_if_necessary-content picks_ack r.progress.buf)
    ∙ read_loop-content waits past (record { out = []; room = room; buf = buf })
