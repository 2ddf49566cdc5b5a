-- ===== src/Server/Handshake.antt =====
-- `authenticate_client` of gateway/server.rs. The nonce comes from `generate_nonce`; `expired` is
-- whether the timeout of the read went off. The result is `true` for an authenticated client, with
-- the new states of the reader, the writer and the gateway.
use iog.Prelude.{
  ℕ, Bool, false, ◌++◌, Option, none, some, List, [], ◌∷◌, if◌then◌else◌, ◌==◌, length,
}
use iog.Bytes.{to_le_bytes, as_u16}
use iog.Transport.{WriteHalf, ReadHalf}
use iog.Packet.{
  PacketGw, PacketType, gw_auth_challenge, gw_auth_response, gw_connected, gw_deny, type_code,
  to_bytes, new, auth_failed, reason_code, protocol_version_major, protocol_version_minor,
  protocol_version_patch,
}
use iog.Packet.Stream.{read_header, write_both}
use iog.Auth.{Hmac, verify_response}
use iog.Gateway.{Gateway, next_packet_id}

-- `a == b` on packet types, which compares their codes.
unfoldable pub same_type : PacketType → PacketType → Bool
unfolding type_code
same_type a b = type_code a == type_code b

unfoldable pub challenge_packet : ℕ → List ℕ → PacketGw
unfolding new
challenge_packet packet_id nonce = new gw_auth_challenge packet_id 0 (as_u16 (length nonce))

unfoldable pub version_data : List ℕ
unfolding to_le_bytes
version_data =
    to_le_bytes 4 protocol_version_major
    ++ to_le_bytes 4 protocol_version_minor
    ++ to_le_bytes 4 protocol_version_patch

unfoldable pub connected_packet : ℕ → PacketGw
unfolding new version_data
connected_packet packet_id = new gw_connected packet_id 0 (as_u16 (length version_data))

unfoldable pub deny_packet : ℕ → PacketGw
unfolding new
deny_packet packet_id = new gw_deny packet_id 0 1

module _ {R : Type 0} ⦃io : ReadHalf R⦄ where
  -- The body of the `timeout`: a response packet and its data.
  unfoldable pub read_body : Option PacketGw × R → Option (PacketGw × List ℕ) × R
  unfolding same_type
  read_body (none, r) = (none, r)
  read_body (some pkt, r) =
      let (resp, r') = io.read_exact r pkt.data_size in
      if same_type pkt.packet_type gw_auth_response
      then (elim resp [ none ↦ none | some bytes ↦ some (pkt, bytes) ], r')
      else (none, r)

  unfoldable pub read_response : R → Option (PacketGw × List ℕ) × R
  unfolding read_header read_body
  read_response r = read_body (read_header r)

module _ {W : Type 0} ⦃io : WriteHalf W⦄ ⦃h : Hmac⦄ where
  -- Step 3: verify the response and answer. Of a refusal both writes are tried.
  unfoldable pub answer : W → List ℕ → List ℕ → ℕ → List ℕ → Bool × W
  answer w key nonce packet_id response =
      let w1 = (io.write_all w (to_bytes (deny_packet packet_id))).1 in
      let w2 = (io.write_all w1 (reason_code auth_failed ∷ [])).1 in
      if verify_response key nonce response
      then write_both w (to_bytes (connected_packet packet_id)) version_data
      else (false, w2)

module _ {W R : Type 0} ⦃io : WriteHalf W⦄ ⦃ir : ReadHalf R⦄ ⦃h : Hmac⦄ where
  -- Steps 2 and 3, after the challenge has been sent.
  unfoldable pub await_response :
      Gateway W → Option (PacketGw × List ℕ) × R → W → List ℕ → Bool → Bool × R × W × Gateway W
  await_response g (none, r) w nonce expired = (false, r, w, g)
  await_response g (some (pkt, response), r) w nonce expired =
      let (accepted, w') = answer w g.config.general.key nonce pkt.packet_id response in
      if expired then (false, r, w, g) else (accepted, r, w', g)

  unfoldable pub authenticate_client : Gateway W → R → W → List ℕ → Bool → Bool × R × W × Gateway W
  authenticate_client g r w nonce expired =
      let (packet_id, g') = next_packet_id g in
      let (challenged, w') = write_both w (to_bytes (challenge_packet packet_id nonce)) nonce in
      let rest = await_response g' (read_response r) w' nonce expired in
      if challenged then rest else (false, r, w', g')
