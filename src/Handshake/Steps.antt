-- ===== src/Handshake/Steps.antt =====
-- Each side reads what the other writes.
use iog.Prelude.{ℕ, ◌^◌, ◌<◌, ◌≡◌, true, false, some, List, ◌++◌, length, arith}
use iog.Transport.{ReadHalf, ReadLaws}
use iog.Packet.{IsPacket, to_bytes}
use iog.Packet.Stream.{read_header, read_header-to_bytes}
use iog.Auth.{nonce_size, response_size}
use iog.Server.Handshake.{
  challenge_packet, connected_packet, deny_packet, version_data, read_response,
}
use iog.Client.Handshake.{response_packet, read_challenge, read_verdict}

challenge-IsPacket : (id : ℕ) (nonce : List ℕ) → id < 2 ^ 64 → IsPacket (challenge_packet id nonce)
unfolding challenge_packet
challenge-IsPacket id nonce h = omega arith

response-IsPacket : (id : ℕ) (tag : List ℕ) → id < 2 ^ 64 → IsPacket (response_packet id tag)
unfolding response_packet
response-IsPacket id tag h = omega arith

connected-IsPacket : (id : ℕ) → id < 2 ^ 64 → IsPacket (connected_packet id)
unfolding connected_packet
connected-IsPacket id h = omega arith

deny-IsPacket : (id : ℕ) → id < 2 ^ 64 → IsPacket (deny_packet id)
unfolding deny_packet
deny-IsPacket id h = omega arith

module _ {R : Type 0} ⦃io : ReadHalf R⦄ (laws : ReadLaws R io) where
  -- The client reads the server's challenge.
  pub read_challenge_lem :
      (r : R) (id : ℕ) (nonce rest : List ℕ)
      → id < 2 ^ 64
      → length nonce ≡ nonce_size
      → laws.pending r ≡ to_bytes (challenge_packet id nonce) ++ (nonce ++ rest)
      → ((read_challenge r).0 ≡ some nonce) × (laws.pending (read_challenge r).1 ≡ rest)
  unfolding read_challenge challenge_packet
  read_challenge_lem r id nonce rest h n e =
      let (header, left) =
        read_header-to_bytes laws r (challenge_packet id nonce) (nonce ++ rest)
          (challenge-IsPacket id nonce h) e in
      let (filled, left') = laws.read_exact-pending (read_header r).1 nonce rest left in
      (ground (arith, header, filled), ground (arith, header, left'))

  -- The server reads the client's response.
  pub read_response_lem :
      (r : R) (id : ℕ) (tag rest : List ℕ)
      → id < 2 ^ 64
      → length tag ≡ response_size
      → laws.pending r ≡ to_bytes (response_packet id tag) ++ (tag ++ rest)
      → (read_response r).0 ≡ some (response_packet id tag, tag)
  unfolding read_response response_packet
  read_response_lem r id tag rest h n e =
      let (header, left) =
        read_header-to_bytes laws r (response_packet id tag) (tag ++ rest)
          (response-IsPacket id tag h) e in
      let (filled, left') = laws.read_exact-pending (read_header r).1 tag rest left in
      ground (arith, header, filled)

  -- The client takes a confirmation with the server's version for one.
  pub read_verdict_connected :
      (r : R) (id : ℕ) (rest : List ℕ)
      → id < 2 ^ 64
      → laws.pending r ≡ to_bytes (connected_packet id) ++ (version_data ++ rest)
      → (read_verdict r).0 ≡ true
  unfolding read_verdict connected_packet
  read_verdict_connected r id rest h e =
      let (header, left) =
        read_header-to_bytes laws r (connected_packet id) (version_data ++ rest)
          (connected-IsPacket id h) e in
      let (filled, _) = laws.read_exact-pending (read_header r).1 version_data rest left in
      ground (arith, header, filled)

  -- A refusal is no confirmation.
  pub read_verdict_deny :
      (r : R) (id : ℕ) (rest : List ℕ)
      → id < 2 ^ 64
      → laws.pending r ≡ to_bytes (deny_packet id) ++ rest
      → (read_verdict r).0 ≡ false
  unfolding read_verdict deny_packet
  read_verdict_deny r id rest h e =
      let (header, _) = read_header-to_bytes laws r (deny_packet id) rest (deny-IsPacket id h) e in
      ground (arith, header)
