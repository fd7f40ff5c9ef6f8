-- ===== src/Wire/Laws.antt =====
-- Round trips of the number encoding and of the headers of lampshade.go.
use native.Mathlib.Nat.{pow-suc}
use plampshade.Base.{
  ℕ, zero, suc, ◌+◌, ◌*◌, ◌/◌, ◌%◌, ◌^◌, ◌<◌, ◌≡◌, refl, List, [], ◌∷◌, ◌++◌, arith, length,
  length-append, take-all, All, All-append,
}
use plampshade.Wire.{
  big_endian, from_big_endian, from_big_endian_onto, new_header, with_frame_type, frame_type_and_id,
}

pub length-big_endian : (k v : ℕ) → length (big_endian k v) ≡ k
unfolding big_endian
length-big_endian zero v = refl
length-big_endian (suc k) v =
    omega
      (arith, length-append (big_endian k (v / 256)) (v % 256 ∷ []), length-big_endian k (v / 256))

abbrev pub IsByte : ℕ → Type 0
IsByte b = b < 256

pub big_endian-IsByte : (k v : ℕ) → All IsByte (big_endian k v)
unfolding big_endian
big_endian-IsByte zero v = tt
big_endian-IsByte (suc k) v =
    All-append IsByte (big_endian k (v / 256)) (v % 256 ∷ []) (big_endian-IsByte k (v / 256))
      (omega arith, tt)

from_big_endian_onto-append :
    (acc : ℕ) (xs : List ℕ) (b : ℕ)
    → from_big_endian_onto acc (xs ++ (b ∷ [])) ≡ from_big_endian_onto acc xs * 256 + b
unfolding from_big_endian_onto
from_big_endian_onto-append acc [] b = refl
from_big_endian_onto-append acc (x ∷ xs) b = from_big_endian_onto-append (acc * 256 + x) xs b

-- A number that fits k bytes is read back.
pub from_big_endian-big_endian : (k v : ℕ) → v < 256 ^ k → from_big_endian (big_endian k v) ≡ v
unfolding from_big_endian big_endian
from_big_endian-big_endian zero v h = omega arith
from_big_endian-big_endian (suc k) v h = omega (
  arith,
  from_big_endian_onto-append 0 (big_endian k (v / 256)) (v % 256),
  from_big_endian-big_endian k (v / 256) (omega (arith, pow-suc 256 k)),
)

pub new_header-eq : (t id : ℕ) → new_header t id ≡ t ∷ big_endian 2 id
unfolding new_header
new_header-eq t id = refl

pub length-new_header : (t id : ℕ) → length (new_header t id) ≡ 3
length-new_header t id = rw new_header-eq (omega (arith, length-big_endian 2 id))

pub with_frame_type-new_header :
    (t u id : ℕ) → with_frame_type (new_header t id) u ≡ new_header u id
unfolding with_frame_type new_header
with_frame_type-new_header t u id = refl

-- The type and the id of a header are read back, for an id of 16 bits.
pub frame_type_and_id-new_header :
    (t id : ℕ) → id < 65536 → frame_type_and_id (new_header t id) ≡ (t, id)
unfolding frame_type_and_id
frame_type_and_id-new_header t id h =
    rw (new_header-eq, take-all 2 (big_endian 2 id) (omega (arith, length-big_endian 2 id)))
      λ i. (t, from_big_endian-big_endian 2 id h i)
