-- ===== src/Pool.antt =====
-- bpool/bytepool.go and bpool/byteslice.go: leaky pools of byte slices. A slice is the array from
-- its start to its capacity, and its length.
pub mod Width
pub mod Frames
pub mod Buffers
use plampshade.Base.{
  ℕ, zero, suc, ◌+◌, ◌-◌, Bool, true, false, List, [], ◌∷◌, ◌++◌, Option, none, some, ltb,
  if◌then◌else◌, length, take, drop, replicate,
}

pub record Slice : Type 0 where
  pub array : List ℕ
  pub len : ℕ

-- `BytePool`: the channel `c` with its capacity, `w` and `h`.
pub record BytePool : Type 0 where
  pub channel : List Slice
  pub max_size : ℕ
  pub w : ℕ
  pub h : ℕ

unfoldable pub new_byte_pool : ℕ → ℕ → BytePool
new_byte_pool max_size width = record { channel = []; max_size = max_size; w = width; h = 0 }

unfoldable pub new_header_preserving_pool : ℕ → ℕ → ℕ → BytePool
new_header_preserving_pool max_size width header_length = record {
  channel = [];
  max_size = max_size;
  w = width + header_length;
  h = header_length;
}

unfoldable pub get_from : List Slice → BytePool → BytePool × Slice
get_from [] bp = (bp, record { array = replicate bp.w 0; len = bp.w })
get_from (b ∷ rest) bp = (record bp { channel = rest }, b)

unfoldable pub get : BytePool → BytePool × Slice
get bp = get_from bp.channel bp

unfoldable pub put : Slice → BytePool → BytePool
put b bp =
    if ltb (length b.array) bp.w
    then bp
    else (if ltb (length bp.channel) bp.max_size
        then record bp { channel = bp.channel ++ (record b { len = bp.w } ∷ []) }
        else bp)

-- `ByteSlice`, by the whole slice, the header's length and the end of the current one.
pub record ByteSlice : Type 0 where
  pub full : Slice
  pub current : Slice
  pub head : ℕ
  pub end : ℕ

-- `none` is a panic: the header is longer than the slice.
unfoldable pub wrap_byte_slice : Slice → ℕ → Option ByteSlice
wrap_byte_slice full header_length =
    if ltb full.len header_length
    then none
    else some (record {
      full = full;
      current = record { array = drop header_length full.array; len = full.len - header_length };
      head = header_length;
      end = full.len;
    })

-- `none` is a panic: the end is above the capacity.
unfoldable pub reslice_to : ℕ → ByteSlice → Option ByteSlice
reslice_to end b =
    if ltb (length b.current.array) end
    then none
    else some (record b { current = record b.current { len = end }; end = b.head + end })

abbrev pub bytes_of : Slice → List ℕ
bytes_of s = take s.len s.array

-- `Bytes` and `BytesWithHeader`.
unfoldable pub bytes : ByteSlice → List ℕ
bytes b = bytes_of b.current

unfoldable pub bytes_with_header : ByteSlice → List ℕ
bytes_with_header b = take b.end b.full.array

unfoldable pub get_slice : BytePool → BytePool × Option ByteSlice
get_slice bp = let (bp', b) = get bp in (bp', wrap_byte_slice b bp.h)

unfoldable pub put_slice : ByteSlice → BytePool → BytePool
put_slice b bp = put b.full bp
