-- ===== src/Idle/Transfer.antt =====
-- How many bytes a write transfers.
use mathlib.Core.Path.{subst}
use plampshade.Base.{
  ℕ, ◌+◌, ◌-◌, ◌≤◌, ◌<◌, ◌≡◌, refl, false, not, ◌||◌, List, [], ◌∷◌, Option, none, some, ◌==◌,
  if◌then◌else◌, if_rule, true≢false, arith, length, drop, length-drop,
}
use plampshade.Idle.{
  IoError, IdleConn, IoCall, IoResult, returned, blocks, plus, is_timeout, mark_active, uses_caller,
  hit_max_deadline, half_idle_timeout, io_loop, check_closed, do_write, io_checked,
}

-- Calls as `io.Writer` documents them: for any slice, none takes more than it is given, and one that
-- takes less gives an error.
abbrev pub AreCalls : List IoCall → Type 0
AreCalls [] = Unit {0}
AreCalls (call ∷ calls) =
    ((b : List ℕ)
      → ((call.answer b).0 ≤ length b) × ((call.answer b).1 ≡ none → (call.answer b).0 ≡ length b))
    × AreCalls calls

-- No call times out without having taken a byte.
abbrev pub NeverStall : List IoCall → Type 0
NeverStall [] = Unit {0}
NeverStall (call ∷ calls) =
    ((b : List ℕ) → (call.answer b).0 ≡ 0 → is_timeout (call.answer b).1 ≡ false) × NeverStall calls

-- A result within `room` bytes, without an error only for all of them.
abbrev pub Completes : ℕ → IoResult → Type 0
Completes room (returned n none) = n ≡ room
Completes room (returned n (some e)) = n ≤ room
Completes room blocks = Unit {0}

plus-Completes :
    (n room : ℕ) (r : IoResult) → n ≤ room → Completes (room - n) r → Completes room (plus n r)
plus-Completes n room (returned m none) h c = omega arith
plus-Completes n room (returned m (some e)) h c = omega arith
plus-Completes n room blocks h c = tt

call-Completes :
    (room n : ℕ) (err : Option IoError)
    → n ≤ room
    → (err ≡ none → n ≡ room)
    → Completes room (returned n err)
call-Completes room n none h k = k refl
call-Completes room n (some e) h k = h

io_loop-Completes :
    (deadline : Option ℕ) (calls : List IoCall) (b : List ℕ) (c : IdleConn)
    → AreCalls calls
    → NeverStall calls
    → Completes (length b) (io_loop deadline calls b c).1
unfolding io_loop
io_loop-Completes deadline [] b c a s = tt
io_loop-Completes deadline (call ∷ calls) b c (answers, a) (moves, s) =
    let P = λ (r : IdleConn × IoResult). Completes (length b) r.1 in
    let (n, err) = call.answer b in
    let (fits, full) = answers b in
    let c' = mark_active n c in
    let max_deadline = call.now + half_idle_timeout c in
    let hit = hit_max_deadline err call.after max_deadline in
    if_rule P (uses_caller deadline max_deadline) (λ e. call-Completes (length b) n err fits full)
      (λ e.
        if_rule P ((n == 0) || not hit)
          (λ f.
            if_rule (λ (e : Option IoError). Completes (length b) (returned n e)) hit
              (λ h.
                let none_moved : n ≡ 0 = ground arith in
                true≢false (is_timeout err) (ground arith) (moves b none_moved))
              (λ h. call-Completes (length b) n err fits full))
          (λ f. plus-Completes n (length b) _ fits (
            subst (λ k. Completes k (io_loop deadline calls (drop n b) c').1) (length-drop n b)
              (io_loop-Completes deadline calls (drop n b) c' a s))))

-- What the calls take of a slice, up to one of them, where each is given what is behind the bytes
-- that those before it took.
pub data Takes : List IoCall → List ℕ → ℕ → Type 0 where
  ends :
      (call : IoCall) (calls : List IoCall) (b : List ℕ) → Takes (call ∷ calls) b (call.answer b).0
  goes_on :
      (call : IoCall) (calls : List IoCall) (b : List ℕ) (m : ℕ)
      → Takes calls (drop (call.answer b).0 b) m
      → Takes (call ∷ calls) b ((call.answer b).0 + m)

-- A result that has the number of bytes that the calls took.
abbrev pub Returns : List IoCall → List ℕ → IoResult → Type 0
Returns calls b r = (n : ℕ) × (err : Option IoError) × (r ≡ returned n err) × Takes calls b n

-- Enough calls return: each round that goes on transfers a byte.
io_loop-Returns :
    (deadline : Option ℕ) (calls : List IoCall) (b : List ℕ) (c : IdleConn)
    → AreCalls calls
    → length b < length calls
    → Returns calls b (io_loop deadline calls b c).1
unfolding io_loop
io_loop-Returns deadline [] b c a h = absurd (omega arith)
io_loop-Returns deadline (call ∷ calls) b c (answers, a) h =
    let P = λ (r : IdleConn × IoResult). Returns (call ∷ calls) b r.1 in
    let (n, err) = call.answer b in
    let (fits, full) = answers b in
    let c' = mark_active n c in
    let max_deadline = call.now + half_idle_timeout c in
    let hit = hit_max_deadline err call.after max_deadline in
    if_rule P (uses_caller deadline max_deadline) (λ e. (n, err, refl, ends call calls b))
      (λ e.
        if_rule P ((n == 0) || not hit)
          (λ f. (n, (if hit then none else err), refl, ends call calls b))
          (λ f.
            let (m, err', r, t) =
              io_loop-Returns deadline calls (drop n b) c' a (ground (arith, length-drop n b)) in
            (n + m, err', rw r refl, goes_on call calls b m t)))

-- A write to a connection that is not closed for idling, where the wrapped connection keeps to the
-- contract of `io.Writer` and never times out without having taken a byte, returns once the wrapped
-- connection has answered often enough: with the number of bytes that this took of the slice, each
-- time given those behind the ones it took before; and with no error only if it took all of them.
pub do_write-Completes :
    (calls : List IoCall) (b : List ℕ) (c : IdleConn)
    → check_closed c ≡ none
    → AreCalls calls
    → NeverStall calls
    → length b < length calls
    → (n : ℕ) × (err : Option IoError) × ((do_write calls b c).1 ≡ returned n err)
      × Takes calls b n
      × Completes (length b) (returned n err)
unfolding do_write io_checked
do_write-Completes calls b c o a s h =
    let (n, err, r, t) = io_loop-Returns c.write_deadline calls b c a h in
    rw (o, io_checked)
      (
        n,
        err,
        r,
        t,
        subst (Completes (length b)) r (io_loop-Completes c.write_deadline calls b c a s),
      )
