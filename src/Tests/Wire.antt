-- ===== src/Tests/Wire.antt =====
-- The protocol's theorems on concrete packets and streams.
use iog.Prelude.{
  ℕ, ◌≤◌, ◌<◌, ◌≡◌, ◌↔◌, refl, true, false, none, some, List, [], ◌∷◌, ◌++◌, arith, length,
  replicate,
}
use iog.Packet
use iog.Packet.{
  PacketGw, IsPacket, regular, to_bytes, from_bytes, set_flag, is_compressed, flag_compressed,
  packet_header_size,
}
use iog.Packet.Header.{from_bytes-to_bytes, from_bytes-none}
use iog.Compression.{compress_data, decompress_data}
use iog.Compression.RoundTrip.{decompress_data-compress_data, compress_data-length}
use iog.Auth.{verify_response, compute_response}
use iog.Auth.Verify.{verify_response_iff}
use iog.Gateway
use iog.Gateway.{Gateway, next_packet_id}
use iog.Gateway.Send.{send_gw_packet}
use iog.Gateway.Receive.{read_gw_packet}
use iog.Gateway.RoundTrip.{read_gw_packet-send_gw_packet}
use iog.Handshake.Agreement.{authenticate_client-gw_authenticate}
use iog.Server.Handshake.{authenticate_client, challenge_packet, connected_packet, version_data}
use iog.Client.Handshake.{gw_authenticate, response_packet}
use iog.Tests.{
  writing, writing_laws, reading, reading_laws, counting, counting_laws, summing, summing_laws,
  replicate-IsByte, gateway,
}

abbrev payload : List ℕ
payload = replicate 1024 0

abbrev packet : PacketGw
packet = record { packet_type = regular; packet_id = 7; link_id = 3; data_size = 1024; flags = 0 }

packet-IsPacket : IsPacket packet
packet-IsPacket = record {
  id_fits = omega arith;
  link_fits = omega arith;
  size_fits = omega arith;
  flags_fit = omega arith;
}

-- 1024 zeros travel as a frame of one number.
abbrev on_wire : List ℕ
on_wire = (send_gw_packet gateway [] packet (some payload)).1

sent : (send_gw_packet gateway [] packet (some payload)).0 ≡ true
unfolding send_gw_packet
sent = refl

read_gw_packet-send_gw_packet_example :
    (q : PacketGw) × ((read_gw_packet gateway (on_wire ++ (9 ∷ []))).0 ≡ some (q, some payload))
    × (q.packet_type ≡ regular)
    × (q.packet_id ≡ 7)
    × (q.link_id ≡ 3)
    × ((read_gw_packet gateway (on_wire ++ (9 ∷ []))).1 ≡ 9 ∷ [])
unfolding is_compressed send_gw_packet
read_gw_packet-send_gw_packet_example =
    read_gw_packet-send_gw_packet writing_laws reading_laws counting_laws gateway gateway []
      (on_wire ++ (9 ∷ [])) packet (some payload) on_wire (9 ∷ []) packet-IsPacket refl refl sent
      refl refl

from_bytes-to_bytes_example : from_bytes (to_bytes packet ++ 9 ∷ []) ≡ some packet
from_bytes-to_bytes_example = from_bytes-to_bytes packet (9 ∷ []) packet-IsPacket

from_bytes-none_example : (from_bytes (1 ∷ 2 ∷ []) ≡ none) ↔ (2 < packet_header_size)
from_bytes-none_example = from_bytes-none (1 ∷ 2 ∷ [])

decompress_data-compress_data_example :
    decompress_data (compress_data payload).bytes (compress_data payload).is_compressed
    ≡ some payload
decompress_data-compress_data_example = decompress_data-compress_data counting_laws payload

compress_data-length_example :
    (length (compress_data payload).bytes ≤ 1024)
    × ((compress_data payload).is_compressed ≡ true
        → (length (compress_data payload).bytes < 1024) × (1024 ≤ 1024))
    × ((compress_data payload).is_compressed ≡ false → (compress_data payload).bytes ≡ payload)
compress_data-length_example = compress_data-length payload

abbrev nonce : List ℕ
nonce = replicate 32 5

abbrev key : List ℕ
key = 1 ∷ 2 ∷ []

abbrev tag : List ℕ
tag = replicate 32 163

verify_response_iff_example :
    (verify_response key nonce tag ≡ true) ↔ (tag ≡ compute_response key nonce)
verify_response_iff_example =
    verify_response_iff summing_laws key nonce tag (replicate-IsByte 32 163 (omega arith))

-- What the two sides write when their keys are the same.
abbrev pub from_server : List ℕ
from_server =
    to_bytes (challenge_packet 1 nonce) ++ nonce ++ to_bytes (connected_packet 1) ++ version_data

abbrev from_client : List ℕ
from_client = to_bytes (response_packet 1 tag) ++ tag

server_wrote : (authenticate_client gateway from_client [] nonce false).2 ≡ from_server
unfolding authenticate_client iog.Packet.Stream.write_both iog.Server.Handshake.await_response
    iog.Server.Handshake.read_response iog.Server.Handshake.answer iog.Client.Handshake.respond
    iog.Client.Handshake.read_challenge iog.Client.Handshake.read_verdict verify_response
    compute_response next_packet_id challenge_packet connected_packet response_packet
    iog.Server.Handshake.deny_packet version_data to_bytes from_bytes Packet.type_from Gateway.new
server_wrote = refl

client_wrote : (gw_authenticate gateway from_server []).2 ≡ from_client
unfolding gw_authenticate iog.Packet.Stream.write_both iog.Server.Handshake.await_response
    iog.Server.Handshake.read_response iog.Server.Handshake.answer iog.Client.Handshake.respond
    iog.Client.Handshake.read_challenge iog.Client.Handshake.read_verdict verify_response
    compute_response next_packet_id challenge_packet connected_packet response_packet
    iog.Server.Handshake.deny_packet version_data to_bytes from_bytes Packet.type_from Gateway.new
client_wrote = refl

authenticate_client-gw_authenticate_example :
    ((gw_authenticate gateway from_server []).0
      ≡ (authenticate_client gateway from_client [] nonce false).0)
    × (((authenticate_client gateway from_client [] nonce false).0 ≡ true)
        ↔ (compute_response key nonce ≡ compute_response key nonce))
unfolding Gateway.new to_bytes version_data
authenticate_client-gw_authenticate_example =
    authenticate_client-gw_authenticate writing_laws (λ w d. refl) reading_laws summing_laws gateway
      gateway from_client from_server [] [] nonce from_server from_client [] [] refl server_wrote
      client_wrote refl refl
