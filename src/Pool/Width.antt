-- ===== src/Pool/Width.antt =====
-- bpool: what a pool hands out.
use plampshade.Base.{
  length-drop, ℕ, ◌+◌, ◌-◌, ◌≤◌, ◌≡◌, refl, false, List, [], ◌∷◌, ◌++◌, some, ltb, if_rule, length,
  length-append, length-replicate, take, drop, All, All-snoc, arith, take-add,
}
use plampshade.Pool.{
  Slice, BytePool, get_from, get, put, ByteSlice, wrap_byte_slice, reslice_to, bytes,
  bytes_with_header,
}

-- A slice of the pool's width.
abbrev pub IsWide : ℕ → Slice → Type 0
IsWide w b = (b.len ≡ w) × (w ≤ length b.array)

pub record IsValid (bp : BytePool) : Type 0 where
  pub wide : All (IsWide bp.w) bp.channel
  pub bounded : length bp.channel ≤ bp.max_size

get_from-IsValid :
    (channel : List Slice) (bp : BytePool)
    → All (IsWide bp.w) channel
    → length channel ≤ bp.max_size
    → IsValid bp
    → IsValid (get_from channel bp).0 × IsWide bp.w (get_from channel bp).1
unfolding get_from
get_from-IsValid [] bp a l v = (v, (refl, omega (arith, length-replicate {A = ℕ} bp.w 0)))
get_from-IsValid (b ∷ rest) bp a l v = (record { wide = a.1; bounded = omega arith }, a.0)

put-IsValid : (b : Slice) (bp : BytePool) → IsValid bp → IsValid (put b bp)
unfolding put
put-IsValid b bp v =
    if_rule IsValid (ltb (length b.array) bp.w) (λ e. v)
      (λ e.
        if_rule IsValid (ltb (length bp.channel) bp.max_size)
          (λ f. record {
            wide = All-snoc (IsWide bp.w) bp.channel _ v.wide (refl, ground arith);
            bounded = ground (arith, length-append bp.channel (record b { len = bp.w } ∷ []));
          })
          (λ f. v))

-- A valid pool holds at most `maxSize` slices, all of its width: any slice may be put, the pool
-- stays valid, and each slice that it hands out has its width.
pub get-put-IsValid :
    (b : Slice) (bp : BytePool)
    → IsValid bp
    → IsValid (put b bp) × IsValid (get bp).0 × IsWide bp.w (get bp).1
unfolding get
get-put-IsValid b bp v =
    let g = get_from-IsValid bp.channel bp v.wide v.bounded v in (put-IsValid b bp v, g.0, g.1)

-- A slice with a header inside it can be resliced up to its capacity, and is then, with its header,
-- the header and the bytes of the slice.
pub bytes_with_header-reslice_to :
    (full : Slice) (header_length end : ℕ)
    → header_length ≤ full.len
    → end + header_length ≤ length full.array
    → (b : ByteSlice) × (c : ByteSlice) × (wrap_byte_slice full header_length ≡ some b)
      × (reslice_to end b ≡ some c)
      × (bytes_with_header c ≡ take header_length full.array ++ bytes c)
unfolding wrap_byte_slice reslice_to bytes bytes_with_header
bytes_with_header-reslice_to full header_length end h k =
    let inside : ltb full.len header_length ≡ false = ground arith in
    let fits : ltb (length (drop header_length full.array)) end ≡ false =
      ground (arith, length-drop header_length full.array) in
    let b : ByteSlice = record {
      full = full;
      current = record { array = drop header_length full.array; len = full.len - header_length };
      head = header_length;
      end = full.len;
    } in
    (
      b,
      record b { current = record b.current { len = end }; end = header_length + end },
      rw inside refl,
      rw fits refl,
      take-add header_length end full.array,
    )
