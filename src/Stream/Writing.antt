-- ===== src/Stream/Writing.antt =====
-- stream.go: what a write queues, and what it returns.
use plampshade.Base.{
  ℕ, zero, suc, ◌+◌, ◌≤◌, ◌≡◌, refl, sym, ap, ◌∙◌, false, List, [], ◌∷◌, ◌++◌, Option, none, some,
  ltb, if◌then◌else◌, if_rule, length, length-take, length-drop, take, drop, All, All-append, arith,
  take-all, take-take, append-nil, Option-cases, inl, inr, Bool-cases, append_assoc, take-add, ap₂,
}
use plampshade.Stream.{
  WriteError, do_send, Try, send, Attempt, Written, queued_chunk, write_one, first_attempt,
  and_then, write_chunks, write, no_deadline, past, ahead, queued, write_timer, close_timer,
  Deadline, Selected,
}

abbrev pub joined : List (List ℕ) → List ℕ
joined [] = []
joined (c ∷ cs) = c ++ joined cs

abbrev pub Fits : List ℕ → Type 0
Fits c = length c ≤ 1443

-- The chunks fit a frame and are the first `n` bytes; without an error they are all of `b`, and
-- with one fewer.
pub record Writes (b : List ℕ) (w : Written) : Type 0 where
  pub sized : All Fits w.chunks
  pub prefix : joined w.chunks ≡ take w.n b
  pub complete : w.err ≡ none → w.n ≡ length b
  pub bounded : w.n ≤ length b

abbrev AllOrNone : List ℕ → ℕ × Option WriteError → Type 0
AllOrNone b (n, none) = n ≡ length b
AllOrNone b (n, some e) = n ≡ 0

-- `send` queues the bytes and counts them all, or gives an error and counts none.
tried :
    (d : Deadline) (s : Selected) (tries : List Try) (b : List ℕ)
    → AllOrNone b (send tries b)
    → AllOrNone b (
        let (processed, n, err) = do_send false d s b in
        if processed then (n, err) else send tries b)
unfolding do_send
tried no_deadline queued tries b h = refl
tried no_deadline write_timer tries b h = h
tried no_deadline close_timer tries b h = h
tried past queued tries b h = refl
tried past write_timer tries b h = refl
tried past close_timer tries b h = refl
tried ahead queued tries b h = refl
tried ahead write_timer tries b h = refl
tried ahead close_timer tries b h = h

send-AllOrNone : (tries : List Try) (b : List ℕ) → AllOrNone b (send tries b)
unfolding send do_send
send-AllOrNone [] b = refl
send-AllOrNone (t ∷ tries) b = elim (Bool-cases t.closing) [
  | inl c ↦ rw (c, do_send) refl
  | inr c ↦ rw (c, do_send) (tried t.deadline t.selected tries b (send-AllOrNone tries b))
]

queued_chunk-Writes :
    (b : List ℕ) (r : ℕ × Option WriteError) → Fits b → AllOrNone b r → Writes b (queued_chunk b r)
unfolding queued_chunk
queued_chunk-Writes b (n, none) f h = record {
  sized = (f, tt);
  prefix = append-nil b ∙ sym (take-all n b (omega (arith, h)));
  complete = λ e. h;
  bounded = omega (arith, h);
}
queued_chunk-Writes b (n, some e) f h = record {
  sized = tt;
  prefix = ap (λ n. take n b) (sym h);
  complete = λ e. cc;
  bounded = omega (arith, h);
}

write_one-Writes : (a : Attempt) (b : List ℕ) → Fits b → Writes b (write_one a b)
unfolding write_one
write_one-Writes a b f = elim (Option-cases a.final_write_err) [
  | inl e ↦ rw (e, write_one) (queued_chunk-Writes b (send a.tries b) f (send-AllOrNone a.tries b))
  | inr (x, e) ↦
      rw (e, write_one)
        (record { sized = tt; prefix = refl; complete = λ e. cc; bounded = omega arith })
]

pub joined-append : (xs ys : List (List ℕ)) → joined (xs ++ ys) ≡ joined xs ++ joined ys
joined-append [] ys = refl
joined-append (x ∷ xs) ys =
    ap (◌++◌ x) (joined-append xs ys) ∙ sym (append_assoc x (joined xs) (joined ys))

-- A chunk of `k` bytes and then the rest.
and_then-Writes :
    (k : ℕ) (b : List ℕ) (w rest : Written)
    → k ≤ length b
    → Writes (take k b) w
    → Writes (drop k b) rest
    → Writes b (and_then w rest)
unfolding and_then
and_then-Writes k b w rest h v r = elim (Option-cases w.err) [
  | inl e ↦
      let whole : w.n ≡ k = omega (arith, v.complete e, length-take k b) in
      rw (e, and_then)
        (record {
          sized = All-append Fits w.chunks rest.chunks v.sized r.sized;
          prefix =
              joined-append w.chunks rest.chunks
              ∙ ap₂ ◌++◌ (v.prefix ∙ take-all w.n (take k b) (omega (arith, length-take k b)))
                  r.prefix
              ∙ sym (take-add k rest.n b)
              ∙ ap (λ m. take (m + rest.n) b) (sym whole);
          complete = λ n. omega (arith, whole, r.complete n, length-drop k b);
          bounded = omega (arith, whole, r.bounded, length-drop k b);
        })
  | inr (x, e) ↦
      rw (e, and_then)
        (record {
          sized = v.sized;
          prefix = v.prefix ∙ take-take w.n k b (omega (arith, v.bounded, length-take k b));
          complete = λ n. cc;
          bounded = omega (arith, v.bounded, length-take k b);
        })
]

write_chunks-Writes :
    (fuel : ℕ) (attempts : List Attempt) (b : List ℕ)
    → length b ≤ fuel
    → Writes b (write_chunks fuel attempts b)
unfolding write_chunks
write_chunks-Writes zero attempts b h = write_one-Writes (first_attempt attempts) b (omega arith)
write_chunks-Writes (suc fuel) attempts b h =
    if_rule (Writes b) (ltb 1443 (length b))
      (λ e.
        and_then-Writes 1443 b _ _ (ground arith)
          (write_one-Writes (first_attempt attempts) (take 1443 b)
            (omega (arith, length-take 1443 b)))
          (write_chunks-Writes fuel (drop 1 attempts) (drop 1443 b)
            (omega (arith, length-drop 1443 b))))
      (λ e. write_one-Writes (first_attempt attempts) b (ground arith))

-- A write queues chunks that fit a frame and together are the first bytes of its argument, as many
-- as it returns; it returns no error just when these are all the bytes.
pub write-Writes : (attempts : List Attempt) (b : List ℕ) → Writes b (write attempts b)
unfolding write
write-Writes attempts b =
    if_rule (Writes b) (ltb 1443 (length b))
      (λ e. write_chunks-Writes (length b) attempts b (omega arith))
      (λ e. write_one-Writes (first_attempt attempts) b (ground arith))
