-- ===== src/Sender/Wired.antt =====
-- `writeToWire`: the length prefix, then the encrypted data and padding.
use plampshade.Base.{
  ℕ, ◌+◌, ◌-◌, ◌≤◌, ◌≡◌, sym, inl, inr, Bool, false, ◌&&◌, List, ◌++◌, arith, ltb, if◌then◌else◌,
  length, take, drop, replicate, length-replicate, copy_at, length-copy_at, take-copy_at,
  length-take, drop-append_of_le, Bool-cases, copy_at-nil, take-copy_at_of_le, take-copy_at-copy_at,
}
use plampshade.Wire.{coalesce_threshold, big_endian}
use plampshade.Wire.Laws.{length-big_endian}
use plampshade.Sender.{
  ok, Crypters, padding_length, add_padding, padded_size, padded, write_to_wire,
}

-- How many zero bytes of padding the frame is given.
pub padding : Crypters → ℕ → List ℕ → ℕ → ℕ → Bool → ℕ
padding c drawn b start frame_size with_padding =
    if with_padding && ltb (start + frame_size) coalesce_threshold
    then padding_length c.padding_enabled drawn (length b - (start + frame_size))
    else 0

-- The data of the frame, and zero bytes of padding.
unfoldable pub plain_text : Crypters → ℕ → List ℕ → ℕ → ℕ → Bool → List ℕ
unfolding padding
plain_text c drawn b start frame_size with_padding =
    drop start (take (start + frame_size) b)
    ++ replicate (padding c drawn b start frame_size with_padding) 0

pub padding-le :
    (c : Crypters) (drawn : ℕ) (b : List ℕ) (start frame_size : ℕ) (with_padding : Bool)
    → padding c drawn b start frame_size with_padding ≤ drawn + 1
unfolding padding padding_length
padding-le c drawn b start frame_size with_padding = ground arith

padding_fits :
    (c : Crypters) (drawn : ℕ) (b : List ℕ) (start frame_size : ℕ) (with_padding : Bool)
    → start + frame_size ≤ length b
    → start + frame_size + padding c drawn b start frame_size with_padding ≤ length b
unfolding padding padding_length
padding_fits c drawn b start frame_size with_padding h = ground arith

padded_size-eq :
    (c : Crypters) (drawn : ℕ) (b : List ℕ) (start frame_size : ℕ) (with_padding : Bool)
    → padded_size c drawn b start frame_size with_padding
      ≡ frame_size + padding c drawn b start frame_size with_padding
unfolding padding padded_size
padded_size-eq c drawn b start frame_size with_padding = ground arith

padded-eq :
    (c : Crypters) (drawn : ℕ) (b : List ℕ) (start frame_size : ℕ) (with_padding : Bool)
    → start + frame_size ≤ length b
    → padded c drawn b start frame_size with_padding
      ≡ copy_at
          (start + frame_size)
          b
          (replicate (padding c drawn b start frame_size with_padding) 0)
unfolding padding padded add_padding
padded-eq c drawn b start frame_size with_padding h =
    elim (Bool-cases (with_padding && ltb (start + frame_size) coalesce_threshold)) [
      | inl e ↦ rw e
      | inr e ↦ rw e (sym (copy_at-nil _ b))
    ]

-- The slice that is encrypted.
plain_text-eq :
    (c : Crypters) (drawn : ℕ) (b : List ℕ) (start frame_size : ℕ) (with_padding : Bool)
    → start + frame_size ≤ length b
    → drop start (
        take
          (start + padded_size c drawn b start frame_size with_padding)
          (padded c drawn b start frame_size with_padding))
      ≡ plain_text c drawn b start frame_size with_padding
unfolding plain_text
plain_text-eq c drawn b start frame_size with_padding h =
    let l = padding c drawn b start frame_size with_padding in
    let z : List ℕ = replicate l 0 in
    let n : length z ≡ l = length-replicate l 0 in
    let e : start + (frame_size + l) ≡ start + frame_size + length z = omega arith in
    rw
      (
        padded-eq c drawn b start frame_size with_padding h,
        padded_size-eq c drawn b start frame_size with_padding,
        e,
        take-copy_at (start + frame_size) b z
            (omega (arith, padding_fits c drawn b start frame_size with_padding h)),
      )
      (drop-append_of_le start (take (start + frame_size) b) z
        (omega (arith, length-take (start + frame_size) b)))

length-padded :
    (c : Crypters) (drawn : ℕ) (b : List ℕ) (start frame_size : ℕ) (with_padding : Bool)
    → start + frame_size ≤ length b
    → length (padded c drawn b start frame_size with_padding) ≡ length b
length-padded c drawn b start frame_size with_padding h =
    rw (padded-eq c drawn b start frame_size with_padding h) (length-copy_at _ b _)

take-padded :
    (c : Crypters) (drawn : ℕ) (b : List ℕ) (start frame_size k : ℕ) (with_padding : Bool)
    → start + frame_size ≤ length b
    → k ≤ start
    → take k (padded c drawn b start frame_size with_padding) ≡ take k b
take-padded c drawn b start frame_size k with_padding h hk =
    rw (padded-eq c drawn b start frame_size with_padding h)
      (take-copy_at_of_le (start + frame_size) k b _ (omega arith))

-- Writing `enc` at `start` and then a prefix of two bytes in front of it.
prefixed :
    (b enc prefix : List ℕ) (start : ℕ)
    → 2 ≤ start
    → length prefix ≡ 2
    → start + length enc ≤ length b
    → take (start + length enc) (copy_at (start - 2) (copy_at start b enc) prefix)
      ≡ take (start - 2) b ++ (prefix ++ enc)
prefixed b enc prefix start h2 hp fits =
    let at : start - 2 + length prefix ≡ start = omega arith in
    rw at at (take-copy_at-copy_at (start - 2) b prefix enc (omega arith))

-- `writeToWire` on data that fits does not panic. It writes what stood in front of the length
-- prefix, the prefix with the size of the encrypted data, and the data and padding encrypted.
pub write_to_wire-frame :
    (c : Crypters) (drawn : ℕ) (b : List ℕ) (start frame_size : ℕ) (with_padding : Bool)
    → ((x : List ℕ) → length (c.meta_encrypt x) ≡ length x)
    → 2 ≤ start
    → start + frame_size ≤ length b
    → start + length (c.data_encrypt (plain_text c drawn b start frame_size with_padding))
      ≤ length b
    → let e = c.data_encrypt (plain_text c drawn b start frame_size with_padding) in
      write_to_wire c drawn b start frame_size with_padding
      ≡ ok (take (start - 2) b ++ (c.meta_encrypt (big_endian 2 (length e)) ++ e))
unfolding write_to_wire
write_to_wire-frame c drawn b start frame_size with_padding keeps h2 h fits =
    let e = c.data_encrypt (plain_text c drawn b start frame_size with_padding) in
    let b' = padded c drawn b start frame_size with_padding in
    let size : length b' ≡ length b = length-padded c drawn b start frame_size with_padding h in
    let enough : ltb start 2 ≡ false = ground arith in
    let whole : ltb (length b) (start + length e) ≡ false = ground arith in
    rw (
      enough,
      plain_text-eq c drawn b start frame_size with_padding h,
      whole,
      prefixed b' e (c.meta_encrypt (big_endian 2 (length e))) start h2
          (omega (arith, keeps (big_endian 2 (length e)), length-big_endian 2 (length e)))
          (omega arith),
      take-padded c drawn b start frame_size (start - 2) with_padding h (omega arith),
    )
