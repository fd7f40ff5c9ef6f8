-- ===== src/Receiver/Chunks.antt =====
-- session.go: `readFull` of `recvLoop`, and idletiming/reader.go, which it reads with: the bytes
-- of a connection come in chunks, with timeouts in between.
use plampshade.Base.{
  ℕ, ◌+◌, ◌-◌, ◌≤◌, ◌<◌, ◌≡◌, refl, ap, sym, ◌∙◌, Bool, false, List, [], ◌∷◌, ◌++◌, Option, none,
  some, ◌==◌, ltb, if◌then◌else◌, length, length-append, take, drop, take-append, take-add,
  drop-append, arith, Bool-cases, inl, inr,
}
use plampshade.Idle.{IoError, eof, is_timeout}
use plampshade.Receiver.{read_full}

-- What a `Read` of the connection returned, and whether the session was found closed after it.
pub record Chunk : Type 0 where
  pub bytes : List ℕ
  pub err : Option IoError
  pub session_closed : Bool

-- `reader.Read`: the error that is left.
unfoldable pub reader_err : Option IoError → Option IoError
reader_err err = if is_timeout err then none else err

-- What `readFull` returns; the bytes are those in the caller's slice. `waits` is a `Read` that
-- has not returned, where the list of chunks ends.
pub data FullRead : Type 0 where
  got : List ℕ → FullRead
  fails : IoError → FullRead
  waits : FullRead

abbrev pub behind : List ℕ → FullRead → FullRead
behind b (got rest) = got (b ++ rest)
behind b (fails e) = fails e
behind b waits = waits

-- `readFull` for a slice of `n` bytes.
unfoldable pub read_chunks : ℕ → List Chunk → FullRead
read_chunks n [] = waits
read_chunks n (c ∷ chunks) =
    let rest = read_chunks (n - length c.bytes) chunks in
    if length c.bytes == n then got c.bytes else (elim (reader_err c.err) [
      | some e ↦ fails e
      | none ↦ if c.session_closed then fails eof else behind c.bytes rest
    ])

abbrev pub bytes_of : List Chunk → List ℕ
bytes_of [] = []
bytes_of (c ∷ chunks) = c.bytes ++ bytes_of chunks

-- Chunks of an open session, none larger than the room that is left in the slice, and no error but
-- timeouts.
abbrev pub AreSteady : ℕ → List Chunk → Type 0
AreSteady n [] = Unit {0}
AreSteady n (c ∷ chunks) =
    (length c.bytes ≤ n)
    × (reader_err c.err ≡ none)
    × (c.session_closed ≡ false)
    × AreSteady (n - length c.bytes) chunks

take-split : (n : ℕ) (a b : List ℕ) → length a ≤ n → take n (a ++ b) ≡ a ++ take (n - length a) b
take-split n a b h =
    let parts : n ≡ length a + (n - length a) = omega arith in
    ap (λ k. take k (a ++ b)) parts
    ∙ take-add (length a) (n - length a) (a ++ b)
    ∙ rw (take-append (length a) a b refl, drop-append (length a) a b refl) refl

read_chunks-got :
    (n : ℕ) (chunks : List Chunk)
    → AreSteady n chunks
    → 0 < n
    → n ≤ length (bytes_of chunks)
    → read_chunks n chunks ≡ got (take n (bytes_of chunks))
unfolding read_chunks
read_chunks-got n [] v p h = absurd (omega arith)
read_chunks-got n (c ∷ chunks) (fits, steady, running, v) p h =
    elim (Bool-cases (length c.bytes == n)) [
      | inl e ↦ rw e (ap got (sym (take-append n c.bytes (bytes_of chunks) (ground arith))))
      | inr e ↦
          let room : 0 < n - length c.bytes = ground arith in
          let enough : n - length c.bytes ≤ length (bytes_of chunks) =
            omega (arith, length-append c.bytes (bytes_of chunks)) in
          rw
            (
              e,
              steady,
              read_chunks,
              running,
              read_chunks-got (n - length c.bytes) chunks v room enough,
            )
            (ap got (sym (take-split n c.bytes (bytes_of chunks) fits)))
    ]

-- However the bytes of a connection are cut up by its reads, and whatever timeouts come in
-- between: if there are as many as a slice that is not empty takes, the session stays open and
-- there is no other error, `readFull` returns with the same bytes as a single read of them all.
pub read_chunks-read_full :
    (n : ℕ) (chunks : List Chunk)
    → AreSteady n chunks
    → 0 < n
    → n ≤ length (bytes_of chunks)
    → (b rest : List ℕ) × (read_full n (bytes_of chunks) ≡ some (b, rest))
      × (read_chunks n chunks ≡ got b)
unfolding read_full
read_chunks-read_full n chunks v p h =
    let enough : ltb (length (bytes_of chunks)) n ≡ false = ground arith in
    (
      take n (bytes_of chunks),
      drop n (bytes_of chunks),
      rw enough refl,
      read_chunks-got n chunks v p h,
    )
