-- ===== src/Server/Exchange.antt =====
-- `client_exchange` of gateway/server.rs: what the server does with each packet of a client.
pub mod Termination
use iog.Prelude.{
  ℕ, zero, suc, Bool, true, false, Option, none, some, List, [], ◌∷◌, if◌then◌else◌, get_elem?,
  modify, nat_eq,
}
use iog.Map
use iog.Transport.{WriteHalf, ReadHalf}
use iog.Packet.{
  PacketGw, PacketType, regular, ping, pong, open_link, opened, open_fail, close, closed, gw_auth,
  gw_connected, gw_deny, protocol_version, gw_auth_challenge, gw_auth_response, session_restore,
}
use iog.Compression.{Zstd}
use iog.Link
use iog.Gateway.{Gateway, with_link}
use iog.Gateway.Send.{send_pong}
use iog.Gateway.Receive.{read_gw_packet}
use iog.Server.{SocketAddr, GatewayServer}
use iog.Server.Links.{remove_link, cleanup_client}

-- Whether the loop goes on.
pub data Control : Type 0 where
  continues breaks : Control

module _ {W : Type 0} where
  -- `base.links.read().await.get(&link_id).cloned()` and a method on the link.
  unfoldable pub on_link : GatewayServer W → ℕ → (Link.Link W → Link.Link W) → GatewayServer W
  on_link s link_id f = elim (Map.get s.base.links link_id) [
    | none ↦ s
    | some ref ↦ record s { base = with_link s.base ref f }
  ]

module _ {W : Type 0} ⦃io : WriteHalf W⦄ ⦃z : Zstd⦄ where
  unfoldable pub pong_to : GatewayServer W → ℕ → GatewayServer W
  pong_to s writer = elim (get_elem? s.writers writer) [
    | none ↦ s
    | some w ↦
        let (w', base) = send_pong s.base w in
        record s { base = base; writers = modify s.writers writer (λ x. w') }
  ]

  -- The `match` on the packet type, for a client whose replies go to `writer`.
  unfoldable pub dispatch :
      PacketType → GatewayServer W → ℕ → ℕ → Option (List ℕ) → Control × GatewayServer W
  dispatch ping s writer link_id d = (continues, pong_to s writer)
  dispatch pong s writer link_id d = (continues, s)
  dispatch regular s writer link_id none = (continues, s)
  dispatch regular s writer link_id (some payload) =
      (continues, on_link s link_id (λ l. Link.send_packet l (some payload)))
  dispatch opened s writer link_id d =
      (continues, on_link s link_id (λ l. Link.set_state l Link.connected))
  dispatch open_fail s writer link_id d = (continues, remove_link s link_id)
  dispatch close s writer link_id d = (continues, remove_link s link_id)
  dispatch gw_deny s writer link_id d = (breaks, s)
  dispatch open_link s writer link_id d = (continues, s)
  dispatch closed s writer link_id d = (continues, s)
  dispatch gw_auth s writer link_id d = (continues, s)
  dispatch gw_connected s writer link_id d = (continues, s)
  dispatch protocol_version s writer link_id d = (continues, s)
  dispatch gw_auth_challenge s writer link_id d = (continues, s)
  dispatch gw_auth_response s writer link_id d = (continues, s)
  dispatch session_restore s writer link_id d = (continues, s)

module _ {W R : Type 0} ⦃io : WriteHalf W⦄ ⦃ir : ReadHalf R⦄ ⦃z : Zstd⦄ where
  -- One round of the loop: `none` once it ends, by a failed read or by `break`.
  unfoldable pub round : GatewayServer W → R → ℕ → Option R × GatewayServer W
  round s r writer =
      let (packet, r', base) = read_gw_packet s.base r in
      elim packet [
        | none ↦ (none, record s { base = base })
        | some (p, d) ↦
            let (control, s') =
              dispatch p.packet_type (record s { base = base }) writer p.link_id d in
            (elim control [ continues ↦ some r' | breaks ↦ none ], s')
      ]

  -- The loop on fuel, undisturbed by other tasks; `none` is that the fuel ran out.
  unfoldable pub client_exchange :
      ℕ → GatewayServer W → R → ℕ → SocketAddr → ℕ → Option (GatewayServer W)
  client_exchange zero s r writer addr session_id = none
  client_exchange (suc fuel) s r writer addr session_id =
      let (next, s') = round s r writer in
      elim next [
        | none ↦ some (cleanup_client s' addr session_id)
        | some r' ↦ client_exchange fuel s' r' writer addr session_id
      ]
