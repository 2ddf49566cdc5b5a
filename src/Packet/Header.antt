-- ===== src/Packet/Header.antt =====
-- Serialising and parsing the header.
use iog.Prelude.{
  ◌^◌, take, get_or, zero, suc, ℕ, ◌≤◌, ◌<◌, ◌≡◌, refl, ◌↔◌, none, some, List, [], ◌∷◌, ◌++◌, arith,
  length, All, ◌-◌, drop, length-take, length-drop,
}
use iog.Bytes.{
  from_le_bytes, from_le_bytes-lt, IsByte, to_le_bytes, slice, from_le_bytes-to_le_bytes,
}
use iog.Packet.{PacketGw, IsPacket, packet_header_size, type_code, to_bytes, from_bytes}
use iog.Packet.Codes.{type_from-type_code, type_code-lt}

-- The wire layout: type, identifier, link, size, flags, two reserved zeros.
abbrev pub layout : PacketGw → List ℕ
layout p =
    (type_code p.packet_type ∷ to_le_bytes 8 p.packet_id)
    ++ to_le_bytes 2 p.link_id
    ++ to_le_bytes 2 p.data_size
    ++ p.flags ∷ 0 ∷ 0 ∷ []

pub to_bytes-layout : (p : PacketGw) → to_bytes p ≡ layout p
unfolding to_bytes to_le_bytes
to_bytes-layout p = refl

-- Parsing a serialised header, with anything after it, gives the packet back, if its fields are
-- within the ranges of their types.
pub from_bytes-to_bytes :
    (p : PacketGw) (rest : List ℕ) → IsPacket p → from_bytes (to_bytes p ++ rest) ≡ some p
unfolding from_bytes to_bytes to_le_bytes
from_bytes-to_bytes p rest v = ground (
  arith,
  from_le_bytes-to_le_bytes 8 p.packet_id,
  from_le_bytes-to_le_bytes 2 p.link_id,
  from_le_bytes-to_le_bytes 2 p.data_size,
  type_from-type_code p.packet_type,
)

-- A serialised header has 16 bytes.
pub length-to_bytes : (p : PacketGw) → length (to_bytes p) ≡ packet_header_size
unfolding to_bytes to_le_bytes
length-to_bytes p = refl

-- Every element of a serialised header is a byte.
pub to_bytes-IsByte : (p : PacketGw) → IsPacket p → All IsByte (to_bytes p)
unfolding to_bytes to_le_bytes
to_bytes-IsByte p v = omega (arith, type_code-lt p.packet_type)

length-slice :
    (lo hi : ℕ) (bytes : List ℕ)
    → lo ≤ hi
    → hi ≤ length bytes
    → length (slice lo hi bytes) ≡ hi - lo
unfolding slice
length-slice lo hi bytes h k =
    omega (arith, length-take (hi - lo) (drop lo bytes), length-drop lo bytes)

-- Parsing fails exactly on buffers shorter than the header.
pub from_bytes-none :
    (bytes : List ℕ) → (from_bytes bytes ≡ none) ↔ (length bytes < packet_header_size)
unfolding from_bytes
from_bytes-none bytes =
    ground (arith, length-slice 1 9 bytes, length-slice 9 11 bytes, length-slice 11 13 bytes)

All-take : (n : ℕ) (bytes : List ℕ) → All IsByte bytes → All IsByte (take n bytes)
All-take zero bytes b = tt
All-take (suc n) [] b = tt
All-take (suc n) (x ∷ bytes) b = (b.0, All-take n bytes b.1)

All-drop : (n : ℕ) (bytes : List ℕ) → All IsByte bytes → All IsByte (drop n bytes)
All-drop zero bytes b = b
All-drop (suc n) [] b = tt
All-drop (suc n) (x ∷ bytes) b = All-drop n bytes b.1

All-get_or : (i : ℕ) (bytes : List ℕ) → All IsByte bytes → get_or bytes i 0 < 256
All-get_or i [] b = omega arith
All-get_or zero (x ∷ bytes) b = b.0
All-get_or (suc i) (x ∷ bytes) b = All-get_or i bytes b.1

-- A slice of bytes, read as a number, is below 256 to the power of its length.
slice-lt :
    (lo hi : ℕ) (bytes : List ℕ)
    → lo ≤ hi
    → hi ≤ length bytes
    → All IsByte bytes
    → from_le_bytes (slice lo hi bytes) < 256 ^ (hi - lo)
unfolding slice
slice-lt lo hi bytes h k b = rw (length-slice lo hi bytes h k) at (
    from_le_bytes-lt (slice lo hi bytes) (All-take (hi - lo) (drop lo bytes) (All-drop lo bytes b)))

-- Whatever the bytes, the fields of a header that is parsed from them are within the ranges of
-- their types.
pub from_bytes-IsPacket :
    (bytes : List ℕ) (p : PacketGw) → All IsByte bytes → from_bytes bytes ≡ some p → IsPacket p
unfolding from_bytes
from_bytes-IsPacket bytes p b e =
    let long : packet_header_size ≤ length bytes = ground (arith, from_bytes-none bytes) in
    record {
      id_fits = ground (arith, slice-lt 1 9 bytes (omega arith) (omega arith) b);
      link_fits = ground (arith, slice-lt 9 11 bytes (omega arith) (omega arith) b);
      size_fits = ground (arith, slice-lt 11 13 bytes (omega arith) (omega arith) b);
      flags_fit = ground (arith, All-get_or 13 bytes b);
    }
