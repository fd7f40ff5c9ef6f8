-- ===== src/Pool/Buffers.antt =====
-- bpool/bufferpool.go and bpool/sizedbufferpool.go: pools of bytes.Buffer, of which a buffer has
-- its bytes and the capacity of the slice behind it.
use plampshade.Base.{
  ℕ, ◌≤◌, ◌≡◌, refl, List, [], ◌∷◌, ◌++◌, ltb, if◌then◌else◌, if_rule, length, length-append, arith,
  All, All-snoc,
}

pub record Buffer : Type 0 where
  pub bytes : List ℕ
  pub capacity : ℕ

-- `Reset`, which keeps the slice.
abbrev pub reset : Buffer → Buffer
reset b = record b { bytes = [] }

abbrev pub new_buffer : ℕ → Buffer
new_buffer capacity = record { bytes = []; capacity = capacity }

-- A send that discards its value where the channel is full.
unfoldable pub offer : ℕ → Buffer → List Buffer → List Buffer
offer size b channel = if ltb (length channel) size then channel ++ (b ∷ []) else channel

-- A receive, or else a new buffer.
unfoldable pub receive_or : Buffer → List Buffer → List Buffer × Buffer
receive_or b [] = ([], b)
receive_or b (c ∷ channel) = (channel, c)

-- `BufferPool`
pub record BufferPool : Type 0 where
  pub channel : List Buffer
  pub size : ℕ

unfoldable pub new_buffers : ℕ → BufferPool
new_buffers size = record { channel = []; size = size }

unfoldable pub get_buffer : BufferPool → BufferPool × Buffer
get_buffer p =
    let (channel, b) = receive_or (new_buffer 0) p.channel in (record p { channel = channel }, b)

unfoldable pub put_buffer : Buffer → BufferPool → BufferPool
put_buffer b p = record p { channel = offer p.size (reset b) p.channel }

-- `SizedBufferPool`
pub record SizedBufferPool : Type 0 where
  pub channel : List Buffer
  pub size : ℕ
  pub alloc : ℕ

unfoldable pub new_sized : ℕ → ℕ → SizedBufferPool
new_sized size alloc = record { channel = []; size = size; alloc = alloc }

unfoldable pub get_sized : SizedBufferPool → SizedBufferPool × Buffer
get_sized p =
    let (channel, b) = receive_or (new_buffer p.alloc) p.channel in
    (record p { channel = channel }, b)

unfoldable pub put_sized : Buffer → SizedBufferPool → SizedBufferPool
put_sized b p =
    let kept = if ltb p.alloc (reset b).capacity then new_buffer p.alloc else reset b in
    record p { channel = offer p.size kept p.channel }

pub data Call : Type 0 where
  gets : Call
  puts : Buffer → Call

-- The buffers that the calls give.
unfoldable pub run_buffers : List Call → BufferPool → BufferPool × List Buffer
run_buffers [] p = (p, [])
run_buffers (gets ∷ cs) p =
    let (p', b) = get_buffer p in let (p'', bs) = run_buffers cs p' in (p'', b ∷ bs)
run_buffers (puts b ∷ cs) p = run_buffers cs (put_buffer b p)

unfoldable pub run_sized : List Call → SizedBufferPool → SizedBufferPool × List Buffer
run_sized [] p = (p, [])
run_sized (gets ∷ cs) p =
    let (p', b) = get_sized p in let (p'', bs) = run_sized cs p' in (p'', b ∷ bs)
run_sized (puts b ∷ cs) p = run_sized cs (put_sized b p)

-- What a channel holds when each of its values satisfies `P`.
record Holds (P : Buffer → Type 0) (size : ℕ) (channel : List Buffer) : Type 0 where
  each : All P channel
  bounded : length channel ≤ size

offer-Holds :
    (P : Buffer → Type 0) (size : ℕ) (b : Buffer) (channel : List Buffer)
    → P b
    → Holds P size channel
    → Holds P size (offer size b channel)
unfolding offer
offer-Holds P size b channel p h =
    if_rule (Holds P size) (ltb (length channel) size)
      (λ e. record {
        each = All-snoc P channel b h.each p;
        bounded = ground (arith, length-append channel (b ∷ []));
      })
      (λ e. h)

receive_or-Holds :
    (P : Buffer → Type 0) (size : ℕ) (b : Buffer) (channel : List Buffer)
    → P b
    → Holds P size channel
    → Holds P size (receive_or b channel).0 × P (receive_or b channel).1
unfolding receive_or
receive_or-Holds P size b [] p h = (h, p)
receive_or-Holds P size b (c ∷ channel) p h =
    (record { each = h.each.1; bounded = omega (arith, h.bounded) }, h.each.0)

abbrev pub IsEmpty : Buffer → Type 0
IsEmpty b = b.bytes ≡ []

abbrev pub IsSmall : ℕ → Buffer → Type 0
IsSmall alloc b = (b.bytes ≡ []) × (b.capacity ≤ alloc)

kept-IsSmall :
    (alloc : ℕ) (b : Buffer)
    → IsSmall alloc (if ltb alloc b.capacity then new_buffer alloc else reset b)
kept-IsSmall alloc b =
    if_rule (IsSmall alloc) (ltb alloc b.capacity) (λ e. (refl, omega arith))
      (λ e. (refl, ground arith))

run_buffers-Holds :
    (cs : List Call) (p : BufferPool)
    → Holds IsEmpty p.size p.channel
    → All IsEmpty (run_buffers cs p).1 × (length (run_buffers cs p).0.channel ≤ p.size)
unfolding run_buffers get_buffer put_buffer
run_buffers-Holds [] p h = (tt, h.bounded)
run_buffers-Holds (gets ∷ cs) p h =
    let (h', e) = receive_or-Holds IsEmpty p.size (new_buffer 0) p.channel refl h in
    let rest = run_buffers-Holds cs (get_buffer p).0 h' in ((e, rest.0), rest.1)
run_buffers-Holds (puts b ∷ cs) p h =
    run_buffers-Holds cs (put_buffer b p) (offer-Holds IsEmpty p.size (reset b) p.channel refl h)

run_sized-Holds :
    (cs : List Call) (p : SizedBufferPool)
    → Holds (IsSmall p.alloc) p.size p.channel
    → All (IsSmall p.alloc) (run_sized cs p).1 × (length (run_sized cs p).0.channel ≤ p.size)
unfolding run_sized get_sized put_sized
run_sized-Holds [] p h = (tt, h.bounded)
run_sized-Holds (gets ∷ cs) p h =
    let (h', e) =
      receive_or-Holds (IsSmall p.alloc) p.size (new_buffer p.alloc) p.channel (refl, omega arith)
        h in
    let rest = run_sized-Holds cs (get_sized p).0 h' in ((e, rest.0), rest.1)
run_sized-Holds (puts b ∷ cs) p h =
    run_sized-Holds cs (put_sized b p)
      (offer-Holds (IsSmall p.alloc) p.size _ p.channel (kept-IsSmall p.alloc b) h)

-- Whatever buffers are put into the pools: each buffer that they give is empty, a pool holds no
-- more than its size, and no buffer of a sized pool has more than the capacity of its new ones.
run-AreEmpty :
    (cs : List Call) (size alloc : ℕ)
    → All IsEmpty (run_buffers cs (new_buffers size)).1
      × (length (run_buffers cs (new_buffers size)).0.channel ≤ size)
      × All (IsSmall alloc) (run_sized cs (new_sized size alloc)).1
      × (length (run_sized cs (new_sized size alloc)).0.channel ≤ size)
unfolding new_buffers new_sized
run-AreEmpty cs size alloc =
    let a = run_buffers-Holds cs (new_buffers size) (record { each = tt; bounded = omega arith }) in
    let b =
      run_sized-Holds cs (new_sized size alloc) (record { each = tt; bounded = omega arith }) in
    (a.0, a.1, b.0, b.1)
