-- ===== src/Client/Exchange.antt =====
-- `gateway_exchange` of gateway/client.rs: what the client does with each packet of the server.
-- The time and the outcome of connecting to the application (`none` is an error) are arguments.
pub mod Termination
use iog.Prelude.{zero, suc, ℕ, Option, none, some, List, get_elem?, modify, nat_eq}
use iog.Map
use iog.Transport.{WriteHalf, ReadHalf}
use iog.Statistics.{Timestamp}
use iog.Packet
use iog.Packet.{
  PacketGw, PacketType, regular, ping, pong, open_link, opened, open_fail, close, closed, gw_auth,
  gw_connected, gw_deny, protocol_version, gw_auth_challenge, gw_auth_response, session_restore,
}
use iog.Compression.{Zstd}
use iog.Link
use iog.Gateway
use iog.Gateway.{Gateway, with_link, alloc}
use iog.Gateway.Drop.{drop_link}
use iog.Gateway.Send.{send_pong}
use iog.Gateway.Receive.{read_gw_packet}
use iog.Client.{GatewayClient, send_control}

-- Whether the loop goes on.
pub data Control : Type 0 where
  continues breaks : Control

module _ {W : Type 0} ⦃io : WriteHalf W⦄ ⦃z : Zstd⦄ where
  unfoldable pub pong_to : GatewayClient W → ℕ → GatewayClient W
  unfolding send_pong
  pong_to c writer = elim (get_elem? c.writers writer) [
    | none ↦ c
    | some w ↦
        let (w', base) = send_pong c.base w in
        record c { base = base; writers = modify c.writers writer (λ x. w') }
  ]

  -- The link of the forwarding task to spawn, if the application was reached.
  unfoldable pub connect_client : GatewayClient W → ℕ → ℕ → Option W → Option ℕ × GatewayClient W
  unfolding alloc Gateway.add_link with_link Link.new Link.set_state send_control
  connect_client c writer conn_id none =
      (none, (send_control c writer (λ id. Packet.new open_fail id conn_id 0)).1)
  connect_client c writer conn_id (some stream) =
      let (ref, base) = alloc c.base (Link.new stream conn_id) in
      let base' =
        with_link (Gateway.add_link base ref) ref (λ l. Link.set_state l Link.connected) in
      (
        some ref,
        (send_control (record c { base = base' }) writer (λ id. Packet.new opened id conn_id 0)).1,
      )

  unfoldable pub forward_to_app : GatewayClient W → ℕ → List ℕ → GatewayClient W
  unfolding with_link Link.send_packet
  forward_to_app c link_id d = elim (Map.get c.base.links link_id) [
    | none ↦ c
    | some ref ↦ record c { base = with_link c.base ref (λ l. Link.send_packet l (some d)) }
  ]

  -- The `match` on the packet type.
  unfoldable pub dispatch :
      PacketType
      → GatewayClient W
      → ℕ
      → ℕ
      → Option (List ℕ)
      → Timestamp
      → Option W
      → Control × GatewayClient W
  dispatch ping c writer link_id d now stream =
      (continues, record (pong_to c writer) { last_activity = now })
  dispatch pong c writer link_id d now stream =
      (continues, record c { last_activity = now; base = Gateway.update_keepalive c.base now })
  dispatch open_link c writer link_id d now stream =
      (continues, (connect_client c writer link_id stream).1)
  dispatch close c writer link_id d now stream =
      (continues, record c { base = drop_link c.base link_id })
  dispatch regular c writer link_id none now stream = (continues, c)
  dispatch regular c writer link_id (some payload) now stream =
      (continues, forward_to_app c link_id payload)
  dispatch gw_deny c writer link_id d now stream = (breaks, c)
  dispatch opened c writer link_id d now stream = (continues, c)
  dispatch open_fail c writer link_id d now stream = (continues, c)
  dispatch closed c writer link_id d now stream = (continues, c)
  dispatch gw_auth c writer link_id d now stream = (continues, c)
  dispatch gw_connected c writer link_id d now stream = (continues, c)
  dispatch protocol_version c writer link_id d now stream = (continues, c)
  dispatch gw_auth_challenge c writer link_id d now stream = (continues, c)
  dispatch gw_auth_response c writer link_id d now stream = (continues, c)
  dispatch session_restore c writer link_id d now stream = (continues, c)

module _ {W R : Type 0} ⦃io : WriteHalf W⦄ ⦃ir : ReadHalf R⦄ ⦃z : Zstd⦄ where
  -- One round of the loop: `none` once it ends, by a failed read or by `break`.
  unfoldable pub round : GatewayClient W → R → ℕ → Timestamp → Option W → Option R × GatewayClient W
  round c r writer now stream =
      let (packet, r', base) = read_gw_packet c.base r in
      elim packet [
        | none ↦ (none, record c { base = base })
        | some (p, d) ↦
            let (control, c') =
              dispatch p.packet_type (record c { base = base }) writer p.link_id d now stream in
            (elim control [ continues ↦ some r' | breaks ↦ none ], c')
      ]

  -- `gateway_exchange`, the loop on fuel, undisturbed by other tasks, with the time and the outcome
  -- of connecting for each round; `none` is that the fuel ran out.
  unfoldable pub gateway_exchange :
      (ℕ → Timestamp) → (ℕ → Option W) → ℕ → GatewayClient W → R → ℕ → Option (GatewayClient W)
  gateway_exchange now streams zero c r writer = none
  gateway_exchange now streams (suc fuel) c r writer =
      let (next, c') = round c r writer (now fuel) (streams fuel) in
      elim next [ none ↦ some c' | some r' ↦ gateway_exchange now streams fuel c' r' writer ]
