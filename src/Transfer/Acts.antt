-- ===== src/Transfer/Acts.antt =====
-- stream.go and receive_buffer.go: what comes out of a stream through any sequence of deliveries,
-- closings and reads.
use mathlib.Core.Path.{subst}
use plampshade.Base.{
  ℕ, ◌≡◌, refl, sym, ap, ap₂, ◌∙◌, Bool, true, false, List, [], ◌∷◌, ◌++◌, append-nil, append_assoc,
  Option, none, some, ltb, length, drop, if_rule, Bool-cases, inl, inr,
}
use plampshade.Flow.{
  ReceiveBuffer, Wait, arrives, ends, ReadError, no_error, eof, timeout, read, do_submit,
  close_buffer,
}
use plampshade.Flow.Reading.{payload, content, arrivals, read-content}
use plampshade.Stream.{WriteError, connection_closed}
use plampshade.Stream.Reads.{End, close_end, close_own, read_stream, ReadErr, of_buffer, final}
use plampshade.Transfer.{
  Act, delivers, peer_closes, own_closes, reads, Reader, frames_of, is_eof, came, kept, act, play,
  AllWait, Waits,
}
use plampshade.Transfer.Ended.{do_submit-closed, read-Ended, read-StaysClosed}

pub payload-append : (xs ys : List (List ℕ)) → payload (xs ++ ys) ≡ payload xs ++ payload ys
payload-append [] ys = refl
payload-append (x ∷ xs) ys =
    ap (λ zs. drop 5 x ++ zs) (payload-append xs ys)
    ∙ sym (append_assoc (drop 5 x) (payload xs) (payload ys))

arrivals-frames_of : (waits : List Wait) → arrivals waits ≡ payload (frames_of waits)
arrivals-frames_of [] = refl
arrivals-frames_of (ends ∷ waits) = arrivals-frames_of waits
arrivals-frames_of (arrives f fs past ∷ waits) =
    rw (payload-append (f ∷ fs) (frames_of waits), arrivals-frames_of waits) refl

do_submit-content :
    (frame : List ℕ) (buf : ReceiveBuffer)
    → content (do_submit frame buf).0 ≡ content buf ++ payload (kept frame buf)
unfolding do_submit
do_submit-content frame buf = elim (Bool-cases buf.is_closed) [
  | inl e ↦ rw e (sym (append-nil (content buf)))
  | inr e ↦ rw e (
      if_rule
        (λ (r : ReceiveBuffer × Bool).
          content r.0 ≡ content buf ++ payload (elim r.1 [ true ↦ frame ∷ [] | false ↦ [] ]))
        (ltb (length buf.queue) buf.window_size)
        (λ room.
          ap (λ q. buf.current ++ q) (payload-append buf.queue (frame ∷ []))
          ∙ sym (append_assoc buf.current (payload buf.queue) (payload (frame ∷ []))))
        (λ full. sym (append-nil (content buf))))
]

append-eq-nil : (xs ys : List ℕ) → xs ++ ys ≡ [] → ys ≡ []
append-eq-nil [] ys h = h
append-eq-nil (x ∷ xs) ys h = cc

-- The bytes that were read and those still buffered are those of the frames taken, in their
-- order; after the end of the stream none are buffered.
pub record IsInOrder (r : Reader) : Type 0 where
  pub conserved : r.out ++ content r.end.rb ≡ payload r.taken
  pub complete : r.told_eof ≡ true → (r.end.rb.is_closed ≡ true) × (content r.end.rb ≡ [])

delivers-IsInOrder :
    (frame : List ℕ) (r : Reader) → IsInOrder r → IsInOrder (act (delivers frame) r)
unfolding act
delivers-IsInOrder frame r v = record {
  conserved =
      ap (λ c. r.out ++ c) (do_submit-content frame r.end.rb)
      ∙ sym (append_assoc r.out (content r.end.rb) _)
      ∙ ap (λ c. c ++ payload (kept frame r.end.rb)) v.conserved
      ∙ sym (payload-append r.taken (kept frame r.end.rb));
  complete = λ t.
      let (closed, empty) = v.complete t in
      subst (λ b. (b.is_closed ≡ true) × (content b ≡ []))
        (sym (do_submit-closed frame r.end.rb closed)) (closed, empty);
}

closed_by :
    (r : Reader) (e : End)
    → (content e.rb ≡ content r.end.rb)
    → (r.end.rb.is_closed ≡ true → e.rb.is_closed ≡ true)
    → IsInOrder r
    → IsInOrder (record r { end = e })
closed_by r e same closes v = record {
  conserved = ap (λ c. r.out ++ c) same ∙ v.conserved;
  complete = λ t. let (closed, empty) = v.complete t in (closes closed, same ∙ empty);
}

close_end-rb :
    (send_rst : Bool) (read_err write_err : Option WriteError) (c : End)
    → (content (close_end send_rst read_err write_err c).rb ≡ content c.rb)
      × (c.rb.is_closed ≡ true → (close_end send_rst read_err write_err c).rb.is_closed ≡ true)
unfolding close_end close_buffer
close_end-rb send_rst read_err write_err c =
    if_rule
      (λ (b : ReceiveBuffer).
        (content b ≡ content c.rb) × (c.rb.is_closed ≡ true → b.is_closed ≡ true))
      c.stream.closed (λ e. (refl, λ h. h)) (λ e. (refl, λ h. refl))

eof-of-is_eof : (err : ReadError) → is_eof (of_buffer err) ≡ true → err ≡ eof
eof-of-is_eof eof h = refl
eof-of-is_eof no_error h = cc
eof-of-is_eof timeout h = cc

-- A read of an open stream.
reads_open-IsInOrder :
    (picks_ack : Bool) (waits : List Wait) (past : Bool) (room : ℕ) (r : Reader)
    → (read picks_ack waits past room r.end.rb).unused ≡ []
    → IsInOrder r
    → let x = read picks_ack waits past room r.end.rb in
      IsInOrder (record {
        end = record r.end { rb = x.progress.buf };
        taken = r.taken ++ frames_of waits;
        out = r.out ++ x.progress.out;
        told_eof = (elim (is_eof (of_buffer x.err)) [ true ↦ true | false ↦ r.told_eof ]);
      })
reads_open-IsInOrder picks_ack waits past room r u v =
    let x = read picks_ack waits past room r.end.rb in
    let moved : x.progress.out ++ content x.progress.buf ≡ content r.end.rb ++ arrivals waits =
      ap (λ c. x.progress.out ++ c) (sym (append-nil (content x.progress.buf)))
      ∙ ap (λ w. x.progress.out ++ (content x.progress.buf ++ arrivals w)) (sym u)
      ∙ read-content picks_ack waits past room r.end.rb in
    record {
      conserved =
          append_assoc r.out x.progress.out (content x.progress.buf)
          ∙ ap (λ c. r.out ++ c) moved
          ∙ sym (append_assoc r.out (content r.end.rb) (arrivals waits))
          ∙ ap₂ ◌++◌ v.conserved (arrivals-frames_of waits)
          ∙ sym (payload-append r.taken (frames_of waits));
      complete = λ t. elim (Bool-cases (is_eof (of_buffer x.err))) [
        | inl e ↦ read-Ended picks_ack waits past room r.end.rb (eof-of-is_eof x.err e)
        | inr e ↦
            let (closed, empty) = v.complete (rw e at t) in
            let (still, none_used) = read-StaysClosed picks_ack waits past room r.end.rb closed in
            let no_waits : waits ≡ [] = sym none_used ∙ u in
            (
              still,
              append-eq-nil x.progress.out (content x.progress.buf)
                  (moved ∙ ap₂ ◌++◌ empty (ap arrivals no_waits)),
            )
      ];
    }

abbrev after_read : Option WriteError → Bool → List Wait → Bool → ℕ → Reader → Reader
after_read o picks_ack waits past room r =
    let (out, err, buf) : List ℕ × ReadErr × ReceiveBuffer = elim o [
      | some e ↦ ([], final e, r.end.rb)
      | none ↦
          let x = read picks_ack waits past room r.end.rb in
          (x.progress.out, of_buffer x.err, x.progress.buf)
    ] in
    record {
      end = record r.end { rb = buf };
      taken = r.taken ++ came o waits;
      out = r.out ++ out;
      told_eof = (elim (is_eof err) [ true ↦ true | false ↦ r.told_eof ]);
    }

after_read-IsInOrder :
    (o : Option WriteError) (picks_ack : Bool) (waits : List Wait) (past : Bool) (room : ℕ)
    (r : Reader)
    → (read picks_ack waits past room r.end.rb).unused ≡ []
    → IsInOrder r
    → IsInOrder (after_read o picks_ack waits past room r)
after_read-IsInOrder none picks_ack waits past room r u v =
    reads_open-IsInOrder picks_ack waits past room r u v
after_read-IsInOrder (some e) picks_ack waits past room r u v = record {
  conserved =
      append_assoc r.out [] (content r.end.rb)
      ∙ v.conserved
      ∙ ap payload (sym (append-nil r.taken));
  complete = v.complete;
}

reads-IsInOrder :
    (picks_ack : Bool) (waits : List Wait) (past : Bool) (room : ℕ) (r : Reader)
    → (read picks_ack waits past room r.end.rb).unused ≡ []
    → IsInOrder r
    → IsInOrder (act (reads picks_ack waits past room) r)
unfolding act read_stream
reads-IsInOrder picks_ack waits past room r u v =
    after_read-IsInOrder r.end.stream.final_read_err picks_ack waits past room r u v

act-IsInOrder : (a : Act) (r : Reader) → Waits a r → IsInOrder r → IsInOrder (act a r)
act-IsInOrder (delivers frame) r w v = delivers-IsInOrder frame r v
act-IsInOrder peer_closes r w v =
    let (same, closes) = close_end-rb false none none r.end in
    unfold act in closed_by r (close_end false none none r.end) same closes v
act-IsInOrder own_closes r w v =
    let (same, closes) =
      close_end-rb true (some connection_closed) (some connection_closed) r.end in
    unfold act close_own in closed_by r (close_own r.end) same closes v
act-IsInOrder (reads picks_ack waits past room) r w v =
    reads-IsInOrder picks_ack waits past room r w v

pub play-IsInOrder :
    (acts : List Act) (r : Reader) → AllWait acts r → IsInOrder r → IsInOrder (play acts r)
unfolding play
play-IsInOrder [] r w v = v
play-IsInOrder (a ∷ acts) r w v = play-IsInOrder acts (act a r) w.1 (act-IsInOrder a r w.0 v)
