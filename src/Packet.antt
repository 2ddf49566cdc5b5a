-- ===== src/Packet.antt =====
-- gateway/packet.rs: the 16-byte packet header and the enumerations of the protocol.
-- A `u8`, `u16` or `u64` field is a number; its range is the predicate `IsPacket`.
pub mod Codes
pub mod Header
pub mod Flags
pub mod Stream
use Prim.Native.Nat.{bit_and, bit_or}
use iog.Prelude.{
  ℕ, ◌^◌, ◌<◌, Bool, true, false, not, Option, none, some, List, [], ◌∷◌, if◌then◌else◌, ◌==◌, ltb,
  length, get_or, replicate,
}
use iog.Bytes.{to_le_bytes, from_le_bytes, copy_at, slice, to_array}

abbrev pub packet_header_size : ℕ
packet_header_size = 16

abbrev pub protocol_version_major : ℕ
protocol_version_major = 0

abbrev pub protocol_version_minor : ℕ
protocol_version_minor = 2

abbrev pub protocol_version_patch : ℕ
protocol_version_patch = 0

abbrev pub flag_compressed : ℕ
flag_compressed = 0x01

pub data DisconnectReason : Type 0 where
  auth_failed version_mismatch server_full banned rate_limited session_not_found : DisconnectReason

-- `reason as u8`
unfoldable pub reason_code : DisconnectReason → ℕ
reason_code auth_failed = 0
reason_code version_mismatch = 1
reason_code server_full = 2
reason_code banned = 3
reason_code rate_limited = 4
reason_code session_not_found = 5

unfoldable pub reason_from : ℕ → DisconnectReason
reason_from value =
    if value == 0
    then auth_failed
    else if value == 1
    then version_mismatch
    else if value == 2
    then server_full
    else if value == 3
    then banned
    else if value == 4
    then rate_limited
    else if value == 5
    then session_not_found
    else auth_failed

-- `open_link` is the source's `Open`.
pub data PacketType : Type 0 where
  regular ping pong open_link opened open_fail close closed : PacketType
  gw_auth gw_connected gw_deny : PacketType
  protocol_version gw_auth_challenge gw_auth_response session_restore : PacketType

unfoldable pub is_common : PacketType → Bool
is_common gw_auth = false
is_common gw_connected = false
is_common gw_deny = false
is_common regular = true
is_common ping = true
is_common pong = true
is_common open_link = true
is_common opened = true
is_common open_fail = true
is_common close = true
is_common closed = true
is_common protocol_version = true
is_common gw_auth_challenge = true
is_common gw_auth_response = true
is_common session_restore = true

-- `packet_type as u8`
unfoldable pub type_code : PacketType → ℕ
type_code regular = 0
type_code ping = 1
type_code pong = 2
type_code gw_auth = 3
type_code gw_connected = 4
type_code gw_deny = 5
type_code open_link = 6
type_code opened = 7
type_code open_fail = 8
type_code close = 9
type_code closed = 10
type_code protocol_version = 11
type_code gw_auth_challenge = 12
type_code gw_auth_response = 13
type_code session_restore = 30

unfoldable pub type_from : ℕ → PacketType
type_from value =
    if value == 0
    then regular
    else if value == 1
    then ping
    else if value == 2
    then pong
    else if value == 3
    then gw_auth
    else if value == 4
    then gw_connected
    else if value == 5
    then gw_deny
    else if value == 6
    then open_link
    else if value == 7
    then opened
    else if value == 8
    then open_fail
    else if value == 9
    then close
    else if value == 10
    then closed
    else if value == 11
    then protocol_version
    else if value == 12
    then gw_auth_challenge
    else if value == 13
    then gw_auth_response
    else if value == 30
    then session_restore
    else regular

pub record PacketGw : Type 0 where
  pub packet_type : PacketType
  pub packet_id : ℕ
  pub link_id : ℕ
  pub data_size : ℕ
  pub flags : ℕ

-- The ranges of the fields' Rust types.
pub record IsPacket (p : PacketGw) : Type 0 where
  pub id_fits : p.packet_id < 2 ^ 64
  pub link_fits : p.link_id < 2 ^ 16
  pub size_fits : p.data_size < 2 ^ 16
  pub flags_fit : p.flags < 2 ^ 8

unfoldable pub new : PacketType → ℕ → ℕ → ℕ → PacketGw
new packet_type packet_id link_id data_size = record {
  packet_type = packet_type;
  packet_id = packet_id;
  link_id = link_id;
  data_size = data_size;
  flags = 0;
}

unfoldable pub is_compressed : PacketGw → Bool
is_compressed p = not (bit_and p.flags flag_compressed == 0)

unfoldable pub set_flag : PacketGw → ℕ → PacketGw
set_flag p flag = record p { flags = bit_or p.flags flag }

unfoldable pub to_bytes : PacketGw → List ℕ
unfolding copy_at
to_bytes p =
    let zeros = replicate packet_header_size 0 in
    let typed = copy_at 0 (type_code p.packet_type ∷ []) zeros in
    let with_id = copy_at 1 (to_le_bytes 8 p.packet_id) typed in
    let with_link = copy_at 9 (to_le_bytes 2 p.link_id) with_id in
    let with_size = copy_at 11 (to_le_bytes 2 p.data_size) with_link in
    copy_at 13 (p.flags ∷ []) with_size

infixl 5 ◌>>=◌
abbrev ◌>>=◌ : {A B : Type 0} → Option A → (A → Option B) → Option B
none >>= f = none
some a >>= f = f a

unfoldable pub from_bytes : List ℕ → Option PacketGw
unfolding slice to_array
from_bytes bytes = if ltb (length bytes) packet_header_size then none else do
  id_bytes ← to_array 8 (slice 1 9 bytes)
  link_bytes ← to_array 2 (slice 9 11 bytes)
  size_bytes ← to_array 2 (slice 11 13 bytes)
  some (record {
    packet_type = type_from (get_or bytes 0 0);
    packet_id = from_le_bytes id_bytes;
    link_id = from_le_bytes link_bytes;
    data_size = from_le_bytes size_bytes;
    flags = get_or bytes 13 0;
  })
