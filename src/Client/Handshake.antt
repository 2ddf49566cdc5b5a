-- ===== src/Client/Handshake.antt =====
-- `gw_authenticate` of gateway/client.rs. The result is `true` when the server has confirmed, with
-- the new states of the reader, the writer and the gateway.
use iog.Prelude.{
  ℕ, Bool, true, false, not, Option, none, some, List, if◌then◌else◌, ◌==◌, leb, ltb, length,
}
use iog.Bytes.{from_le_bytes, slice, as_u16}
use iog.Transport.{WriteHalf, ReadHalf}
use iog.Packet.{
  PacketGw, PacketType, regular, ping, pong, open_link, opened, open_fail, close, closed, gw_auth,
  gw_connected, gw_deny, protocol_version, gw_auth_challenge, gw_auth_response, session_restore,
  type_code, to_bytes, new, protocol_version_major,
}
use iog.Packet.Stream.{read_header, write_both}
use iog.Auth.{Hmac, compute_response, nonce_size}
use iog.Gateway.{Gateway, next_packet_id}

unfoldable pub response_packet : ℕ → List ℕ → PacketGw
unfolding new
response_packet packet_id response = new gw_auth_response packet_id 0 (as_u16 (length response))

unfoldable pub is_challenge : PacketType → Bool
unfolding type_code
is_challenge t = type_code t == type_code gw_auth_challenge

-- `major == PROTOCOL_VERSION_MAJOR`, of the version that the server sent.
unfoldable pub is_compatible : List ℕ → Bool
unfolding from_le_bytes slice
is_compatible version = from_le_bytes (slice 0 4 version) == protocol_version_major

module _ {R : Type 0} ⦃io : ReadHalf R⦄ where
  unfoldable pub read_nonce : Option PacketGw × R → Option (List ℕ) × R
  unfolding is_challenge
  read_nonce (none, r) = (none, r)
  read_nonce (some pkt, r) =
      let read = io.read_exact r pkt.data_size in
      if not (is_challenge pkt.packet_type)
      then (none, r)
      else if not (pkt.data_size == nonce_size)
      then (none, r)
      else read

  -- Step 1: the nonce of the challenge.
  unfoldable pub read_challenge : R → Option (List ℕ) × R
  unfolding read_header read_nonce
  read_challenge r = read_nonce (read_header r)

  -- A confirmation: its version is read and compared if it has one.
  unfoldable pub check_version : PacketGw → R → Bool × R
  unfolding is_compatible
  check_version pkt r =
      let (version, r') = io.read_exact r 12 in
      if leb 12 pkt.data_size
      then (elim version as (λ x. Bool) [ none ↦ false | some v ↦ is_compatible v ], r')
      else (true, r)

  -- A refusal: its reason is read, for the log.
  unfoldable pub read_reason : PacketGw → R → Bool × R
  read_reason pkt r =
      let (reason, r') = io.read_exact r pkt.data_size in
      if ltb 0 pkt.data_size then (false, r') else (false, r)

  unfoldable pub by_type : PacketType → PacketGw → R → Bool × R
  unfolding check_version read_reason
  by_type gw_connected pkt r = check_version pkt r
  by_type gw_deny pkt r = read_reason pkt r
  by_type regular pkt r = (false, r)
  by_type ping pkt r = (false, r)
  by_type pong pkt r = (false, r)
  by_type open_link pkt r = (false, r)
  by_type opened pkt r = (false, r)
  by_type open_fail pkt r = (false, r)
  by_type close pkt r = (false, r)
  by_type closed pkt r = (false, r)
  by_type gw_auth pkt r = (false, r)
  by_type protocol_version pkt r = (false, r)
  by_type gw_auth_challenge pkt r = (false, r)
  by_type gw_auth_response pkt r = (false, r)
  by_type session_restore pkt r = (false, r)

  unfoldable pub verdict : Option PacketGw × R → Bool × R
  unfolding by_type
  verdict (none, r) = (false, r)
  verdict (some pkt, r) = by_type pkt.packet_type pkt r

  -- Step 3: the server's verdict.
  unfoldable pub read_verdict : R → Bool × R
  unfolding read_header verdict
  read_verdict r = verdict (read_header r)

module _ {W R : Type 0} ⦃io : WriteHalf W⦄ ⦃ir : ReadHalf R⦄ ⦃h : Hmac⦄ where
  -- Step 2 and on, with what step 1 read.
  unfoldable pub respond : Gateway W → Option (List ℕ) × R → W → Bool × R × W × Gateway W
  respond g (none, r) w = (false, r, w, g)
  respond g (some nonce, r) w =
      let response = compute_response g.config.general.key nonce in
      let (packet_id, g') = next_packet_id g in
      let (written, w') = write_both w (to_bytes (response_packet packet_id response)) response in
      let (confirmed, r') = read_verdict r in
      if written then (confirmed, r', w', g') else (false, r, w', g')

  unfoldable pub gw_authenticate : Gateway W → R → W → Bool × R × W × Gateway W
  gw_authenticate g r w = respond g (read_challenge r) w
