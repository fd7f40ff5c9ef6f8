-- ===== src/Pool/Frames.antt =====
-- lampshade.go: `BufferPool`, the pool of frames that sessions and streams share.
use mathlib.Core.Path.{subst}
use plampshade.Base.{
  ℕ, ◌*◌, ◌/◌, ◌≤◌, ◌≡◌, refl, ◌∙◌, List, [], ◌∷◌, Option, none, some, ltb, if◌then◌else◌, if_rule,
  length, arith,
}
use plampshade.Pool.{Slice, BytePool, new_byte_pool, get_from, get, put}
use plampshade.Pool.Width.{IsWide, IsValid, get-put-IsValid}
use plampshade.Wire.{max_frame_size, max_data_len}

unfoldable pub new_buffer_pool : ℕ → BytePool
new_buffer_pool max_bytes = new_byte_pool (max_bytes / max_frame_size) max_frame_size

unfoldable pub get_for_frame : BytePool → BytePool × Slice
get_for_frame p = get p

-- `Get`; none is the panic of a slice that is shorter than `MaxDataLen` to its capacity.
unfoldable pub get_for_data : BytePool → BytePool × Option Slice
get_for_data p =
    let (p', b) = get p in
    (p', if ltb (length b.array) max_data_len then none else some (record b { len = max_data_len }))

pub data Call : Type 0 where
  gets_for_frame : Call
  gets : Call
  puts : Slice → Call

pub data Answer : Type 0 where
  done : Answer
  gave : Slice → Answer
  panicked : Answer

abbrev pub given : Option Slice → Answer
given none = panicked
given (some b) = gave b

unfoldable pub step : Call → BytePool → BytePool × Answer
step gets_for_frame p = let (p', b) = get_for_frame p in (p', gave b)
step gets p = let (p', o) = get_for_data p in (p', given o)
step (puts b) p = (put b p, done)

unfoldable pub run : List Call → BytePool → BytePool × List Answer
run [] p = (p, [])
run (c ∷ cs) p = let (p', a) = step c p in let (p'', rest) = run cs p' in (p'', a ∷ rest)

-- A frame has room for the largest one, and a buffer for data is as long as the data of a frame at
-- most, with room behind it.
abbrev pub IsFor : Call → Answer → Type 0
IsFor gets_for_frame (gave b) = IsWide max_frame_size b
IsFor gets (gave b) = (b.len ≡ max_data_len) × (max_frame_size ≤ length b.array)
IsFor (puts b) done = Unit
IsFor c a = ⊥

-- A valid pool of frames for so many of them.
record IsFramePool (m : ℕ) (p : BytePool) : Type 0 where
  slices : IsValid p
  width : p.w ≡ max_frame_size
  size : p.max_size ≡ m

get_from-width :
    (channel : List Slice) (p : BytePool)
    → ((get_from channel p).0.w ≡ p.w) × ((get_from channel p).0.max_size ≡ p.max_size)
unfolding get_from
get_from-width [] p = (refl, refl)
get_from-width (b ∷ rest) p = (refl, refl)

get-width : (p : BytePool) → ((get p).0.w ≡ p.w) × ((get p).0.max_size ≡ p.max_size)
unfolding get
get-width p = get_from-width p.channel p

put-width : (b : Slice) (p : BytePool) → ((put b p).w ≡ p.w) × ((put b p).max_size ≡ p.max_size)
unfolding put
put-width b p =
    let P : BytePool → Type 0 = λ q. (q.w ≡ p.w) × (q.max_size ≡ p.max_size) in
    if_rule P (ltb (length b.array) p.w) (λ e. (refl, refl))
      (λ e. if_rule P (ltb (length p.channel) p.max_size) (λ f. (refl, refl)) (λ f. (refl, refl)))

get-IsFramePool :
    (m : ℕ) (p : BytePool)
    → IsFramePool m p
    → IsFramePool m (get p).0 × IsWide max_frame_size (get p).1
get-IsFramePool m p v =
    let g = get-put-IsValid (get p).1 p v.slices in
    let kept = get-width p in
    (
      record { slices = g.1; width = kept.0 ∙ v.width; size = kept.1 ∙ v.size },
      subst (λ w. IsWide w (get p).1) v.width g.2,
    )

step-IsFor :
    (c : Call) (m : ℕ) (p : BytePool)
    → IsFramePool m p
    → IsFramePool m (step c p).0 × IsFor c (step c p).1
unfolding step get_for_frame get_for_data
step-IsFor gets_for_frame m p v = get-IsFramePool m p v
step-IsFor gets m p v =
    let (v', w) = get-IsFramePool m p v in
    let b = (get p).1 in
    (
      v',
      if_rule (λ o. IsFor gets (given o)) (ltb (length b.array) max_data_len)
          (λ e. absurd (ground (arith, w.1))) (λ e. (refl, w.1)),
    )
step-IsFor (puts b) m p v =
    let kept = put-width b p in
    (
      record {
        slices = (get-put-IsValid b p v.slices).0;
        width = kept.0 ∙ v.width;
        size = kept.1 ∙ v.size;
      },
      tt,
    )

abbrev pub AreFor : List Call → List Answer → Type 0
AreFor [] [] = Unit
AreFor (c ∷ cs) (a ∷ rest) = IsFor c a × AreFor cs rest
AreFor cs answers = ⊥

run-IsFramePool :
    (cs : List Call) (m : ℕ) (p : BytePool)
    → IsFramePool m p
    → IsFramePool m (run cs p).0 × AreFor cs (run cs p).1
unfolding run
run-IsFramePool [] m p v = (v, tt)
run-IsFramePool (c ∷ cs) m p v =
    let (v', a) = step-IsFor c m p v in
    let (v'', rest) = run-IsFramePool cs m (step c p).0 v' in (v'', (a, rest))

-- Whatever is taken from a buffer pool and put into it, also slices that are not its own: no call
-- panics, each frame that it gives has the size of the largest frame, each buffer for data has
-- `MaxDataLen` bytes and room up to that size, and the slices that it keeps hold no more than
-- `maxBytes`.
pub run-AreFor :
    (max_bytes : ℕ) (cs : List Call)
    → AreFor cs (run cs (new_buffer_pool max_bytes)).1
      × (length (run cs (new_buffer_pool max_bytes)).0.channel * max_frame_size ≤ max_bytes)
unfolding new_buffer_pool new_byte_pool
run-AreFor max_bytes cs =
    let m = max_bytes / max_frame_size in
    let (v, a) = run-IsFramePool cs m (new_buffer_pool max_bytes) (record {
      slices = record { wide = tt; bounded = omega arith };
      width = refl;
      size = refl;
    }) in
    (a, omega (arith, v.slices.bounded, v.size))
