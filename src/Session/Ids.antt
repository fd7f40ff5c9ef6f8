-- ===== src/Session/Ids.antt =====
-- The ids that a dialing session gives its streams, and how many streams it allows.
use plampshade.Base.{
  ℕ, zero, suc, ◌+◌, ◌-◌, ◌%◌, ◌^◌, ◌≤◌, ◌<◌, min, ◌≡◌, refl, ap, ◌∙◌, true, false, not, ◌∷◌, some,
  ltb, ◌==◌, if◌then◌else◌, arith, Bool-cases, inl, inr, length,
}
use plampshade.Session.{
  Session, has, get_or_create_stream, create_stream, allow_new_stream, emit, opened,
}

-- No id from `next_id` on was used: the other side has opened no stream of its own.
pub record IsFresh (s : Session) : Type 0 where
  pub unopened : (j : ℕ) → s.next_id ≤ j → has j s.streams ≡ false
  pub unclosed : (j : ℕ) → s.next_id ≤ j → has j s.closed ≡ false

stream_id : (n : ℕ) → n < 65536 → ((n + 1) % 2 ^ 32 + 2 ^ 32 - 1) % 2 ^ 32 % 2 ^ 16 ≡ n
stream_id n h = omega arith

get_or_create_stream-new :
    (id : ℕ) (s : Session)
    → has id s.streams ≡ false
    → has id s.closed ≡ false
    → get_or_create_stream id s
      ≡ (emit (record s { streams = id ∷ s.streams }) (opened id s.notifies), true)
unfolding get_or_create_stream
get_or_create_stream-new id s h k = rw (h, k)

pub record Created (s t : Session) : Type 0 where
  pub numbered : t.next_id ≡ s.next_id + 1
  pub listed : t.streams ≡ s.next_id ∷ s.streams
  pub closed_kept : t.closed ≡ s.closed
  pub open_kept : t.is_closed ≡ s.is_closed

pub create_stream-Created :
    (now : ℕ) (s : Session)
    → IsFresh s
    → s.next_id < 65536
    → Created s (create_stream now s).0 × ((create_stream now s).1 ≡ some s.next_id)
unfolding create_stream
create_stream-Created now s f h =
    let s1 : Session = record s { next_id = (s.next_id + 1) % 2 ^ 32 } in
    rw
      (
        stream_id s.next_id h,
        get_or_create_stream-new s.next_id s1 (f.unopened s.next_id (omega arith))
            (f.unclosed s.next_id (omega arith)),
      )
      (record { numbered = omega arith; listed = refl; closed_kept = refl; open_kept = refl }, refl)

pub Created-IsFresh : (s t : Session) → Created s t → IsFresh s → IsFresh t
Created-IsFresh s t c f = record {
  unopened = λ j h.
      (let below : (s.next_id == j) ≡ false = ground (arith, c.numbered) in
        ap (has j) c.listed ∙ rw below (f.unopened j (omega (arith, c.numbered))));
  unclosed = λ j h. ap (has j) c.closed_kept ∙ f.unclosed j (omega (arith, c.numbered));
}

-- Each stream of a fresh session gets the next id, which no other stream has or had.
pub create_stream-id :
    (now : ℕ) (s : Session)
    → IsFresh s
    → s.next_id < 65536
    → ((create_stream now s).1 ≡ some s.next_id)
      × ((create_stream now s).0.streams ≡ s.next_id ∷ s.streams)
      × (has s.next_id s.streams ≡ false)
      × (has s.next_id s.closed ≡ false)
      × IsFresh (create_stream now s).0
create_stream-id now s f h =
    let (c, e) = create_stream-Created now s f h in
    (
      e,
      c.listed,
      f.unopened s.next_id (omega arith),
      f.unclosed s.next_id (omega arith),
      Created-IsFresh s (create_stream now s).0 c f,
    )

-- What a dial makes of a session: a stream if one is allowed.
unfoldable pub dial_once : ℕ → ℕ → Session → Session
dial_once max_streams now s =
    if allow_new_stream max_streams 0 now s then (create_stream now s).0 else s

unfoldable pub dial_times : ℕ → ℕ → ℕ → Session → Session
dial_times zero max_streams now s = s
dial_times (suc n) max_streams now s = dial_times n max_streams now (dial_once max_streams now s)

-- Whether a stream is allowed, by the number of ids given out.
allow_new_stream-next_id :
    (max_streams now : ℕ) (s : Session)
    → s.is_closed ≡ false
    → allow_new_stream max_streams 0 now s ≡ not (ltb max_streams s.next_id)
unfolding allow_new_stream
allow_new_stream-next_id max_streams now s e = ground arith

dial_once-allowed :
    (max_streams now : ℕ) (s : Session)
    → s.is_closed ≡ false
    → s.next_id ≤ max_streams
    → dial_once max_streams now s ≡ (create_stream now s).0
unfolding dial_once
dial_once-allowed max_streams now s e h =
    let below : ltb max_streams s.next_id ≡ false = ground arith in
    rw (allow_new_stream-next_id max_streams now s e, below)

dial_times-refused :
    (n max_streams now : ℕ) (s : Session)
    → s.is_closed ≡ false
    → max_streams < s.next_id
    → dial_times n max_streams now s ≡ s
unfolding dial_times dial_once
dial_times-refused zero max_streams now s e h = refl
dial_times-refused (suc n) max_streams now s e h =
    let above : ltb max_streams s.next_id ≡ true = ground arith in
    rw (allow_new_stream-next_id max_streams now s e, above)
      (dial_times-refused n max_streams now s e h)

dial_times-allowed :
    (n max_streams now : ℕ) (s : Session)
    → s.is_closed ≡ false
    → s.next_id ≤ max_streams
    → dial_times (suc n) max_streams now s ≡ dial_times n max_streams now (create_stream now s).0
unfolding dial_times
dial_times-allowed n max_streams now s e h =
    ap (dial_times n max_streams now) (dial_once-allowed max_streams now s e h)

-- Without an idle interval, a fresh open session with `next_id` ids given out allows streams until
-- there are `max_streams + 1` of them, one more than the limit, and then no more.
dial_times-length :
    (n max_streams now : ℕ) (s : Session)
    → IsFresh s
    → s.is_closed ≡ false
    → max_streams < 65536
    → length (dial_times n max_streams now s).streams
      ≡ length s.streams + min n (max_streams + 1 - s.next_id)
dial_times-length zero max_streams now s f e h = unfold dial_times in (omega arith)
dial_times-length (suc n) max_streams now s f e h = elim (Bool-cases (ltb max_streams s.next_id)) [
  | inl above ↦ rw (dial_times-refused (suc n) max_streams now s e (ground arith)) (ground arith)
  | inr below ↦
      let t = (create_stream now s).0 in
      let c = (create_stream-Created now s f (ground arith)).0 in
      rw (dial_times-allowed n max_streams now s e (ground arith)) (
        ground (
          arith,
          dial_times-length n max_streams now t (Created-IsFresh s t c f) (c.open_kept ∙ e) h,
          c.numbered,
          ap (length {A = ℕ}) c.listed,
        ))
]
