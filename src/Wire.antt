-- ===== src/Wire.antt =====
-- lampshade.go: the sizes and frame types of the protocol, and the functions that build frames.
-- A byte slice is a list of numbers below 256; `encoding/binary` in big-endian order is
-- `big_endian` and `from_big_endian`.
pub mod Laws
pub mod Message
use plampshade.Base.{
  ℕ, zero, suc, ◌+◌, ◌-◌, ◌*◌, ◌/◌, ◌%◌, ◌^◌, List, [], ◌∷◌, ◌++◌, take, drop, replicate, copy,
  copy_at,
}
use plampshade.Base.Int.{ℤ, pos, negsuc}

abbrev pub client_init_size : ℕ
client_init_size = 256

abbrev pub win_size : ℕ
win_size = 4

abbrev pub ts_size : ℕ
ts_size = 8

abbrev pub max_secret_size : ℕ
max_secret_size = 32

abbrev pub meta_iv_size : ℕ
meta_iv_size = 12

abbrev pub header_size : ℕ
header_size = 3

abbrev pub len_size : ℕ
len_size = 2

abbrev pub data_header_size : ℕ
data_header_size = header_size + len_size

abbrev pub coalesce_threshold : ℕ
coalesce_threshold = 1448

abbrev pub max_frame_size : ℕ
max_frame_size = coalesce_threshold

abbrev pub ack_frame_size : ℕ
ack_frame_size = header_size + win_size

abbrev pub ping_frame_size : ℕ
ping_frame_size = header_size + ts_size

abbrev pub max_data_len : ℕ
max_data_len = max_frame_size - data_header_size

abbrev pub max_session_frame_size : ℕ
max_session_frame_size = 65535

abbrev pub type_padding : ℕ
type_padding = 0

abbrev pub type_data : ℕ
type_data = 1

abbrev pub type_ping : ℕ
type_ping = 252

abbrev pub type_echo : ℕ
type_echo = 253

abbrev pub type_ack : ℕ
type_ack = 254

abbrev pub type_rst : ℕ
type_rst = 255

-- `PutUint16`, `PutUint32` and `PutUint64` write 2, 4 and 8 bytes: the value modulo 256 ^ k.
unfoldable pub big_endian : ℕ → ℕ → List ℕ
big_endian zero v = []
big_endian (suc k) v = big_endian k (v / 256) ++ (v % 256 ∷ [])

unfoldable pub from_big_endian_onto : ℕ → List ℕ → ℕ
from_big_endian_onto acc [] = acc
from_big_endian_onto acc (b ∷ bs) = from_big_endian_onto (acc * 256 + b) bs

unfoldable pub from_big_endian : List ℕ → ℕ
unfolding from_big_endian_onto
from_big_endian bs = from_big_endian_onto 0 bs

-- `b[0]`. Go panics on the empty slice; every header here has three bytes.
abbrev pub first_byte : List ℕ → ℕ
first_byte [] = 0
first_byte (b ∷ bs) = b

unfoldable pub set_frame_type_and_id : List ℕ → ℕ → ℕ → List ℕ
unfolding big_endian
set_frame_type_and_id header frame_type id =
    copy_at 1 (copy header (frame_type ∷ [])) (big_endian 2 id)

unfoldable pub new_header : ℕ → ℕ → List ℕ
unfolding set_frame_type_and_id
new_header frame_type id = set_frame_type_and_id (replicate header_size 0) frame_type id

unfoldable pub with_frame_type : List ℕ → ℕ → List ℕ
with_frame_type header frame_type = copy (copy (replicate header_size 0) header) (frame_type ∷ [])

unfoldable pub frame_type_and_id : List ℕ → ℕ × ℕ
unfolding from_big_endian
frame_type_and_id header = (first_byte header, from_big_endian (take 2 (drop 1 header)))

-- `uint32(frames)` of an `int32`.
abbrev pub uint32_of : ℤ → ℕ
uint32_of (pos n) = n % 2 ^ 32
uint32_of (negsuc n) = 2 ^ 32 - 1 - n % 2 ^ 32

-- The header stands behind the count, as it stands behind the data of a data frame.
unfoldable pub ack_with_frames : List ℕ → ℤ → List ℕ
unfolding big_endian
ack_with_frames header frames =
    let ack = copy_at win_size (replicate ack_frame_size 0) header in
    let ack' = copy_at win_size ack (type_ack ∷ []) in copy ack' (big_endian 4 (uint32_of frames))

-- The argument is `uint64(mtime.Now())`.
unfoldable pub ping : ℕ → List ℕ
unfolding big_endian
ping now = copy (copy_at ts_size (replicate ping_frame_size 0) (type_ping ∷ [])) (big_endian 8 now)

unfoldable pub echo : List ℕ
echo = copy_at ts_size (replicate ping_frame_size 0) (type_echo ∷ [])
