-- ===== src/Relay/Mux/AtClient.antt =====
-- What the handling of packets in gateway/client.rs does to a link that they are not about.
pub mod Round
use iog.Prelude.{
  ℕ, ◌≡◌, ◌≢◌, refl, sym, ap, ◌∙◌, Option, Option-cases, inl, inr, none, some, List, [], ◌∷◌, ◌++◌,
  arith, length, get_elem?, nat_eq,
}
use iog.Map
use iog.Transport.{WriteHalf, ReadHalf, ReadLaws}
use iog.Statistics.{Timestamp}
use iog.Packet
use iog.Packet.{
  PacketGw, PacketType, regular, ping, pong, open_link, opened, open_fail, close, closed, gw_auth,
  gw_connected, gw_deny, protocol_version, gw_auth_challenge, gw_auth_response, session_restore,
}
use iog.Compression.{Zstd}
use iog.Link
use iog.Link.{Link}
use iog.Gateway
use iog.Gateway.{Gateway, with_link, add_link, alloc, next_packet_id}
use iog.Gateway.Drop.{drop_link}
use iog.Gateway.Send.{send_pong}
use iog.Gateway.Receive.{read_gw_packet}
use iog.Gateway.RoundTrip.{received}
use iog.Gateway.Frame.{SameLinks, read_gw_packet-SameLinks, send_gw_packet-SameLinks}
use iog.Gateway.Apart.{
  IsApart, Kept, Kept-refl, SameLinks-Kept, SameLinks-IsApart, with_link-IsApart, with_link-Kept,
  other_place, add_link-IsApart, add_link-Kept, drop_link-IsApart, drop_link-Kept,
}
use iog.Relay.Arrival.{Arrives}
use iog.Relay.Mux.Put.{PassesBy}
use iog.Relay.Mux.Reader.{Reader}
use iog.Relay.Stream.Client
use iog.Client.{GatewayClient, send_to, send_control}
use iog.Client.Exchange.{continues, dispatch, forward_to_app, connect_client, pong_to, round}

module _ {W : Type 0} ⦃io : WriteHalf W⦄ ⦃z : Zstd⦄ where
  pub send_to-SameLinks :
      (c : GatewayClient W) (writer : ℕ) (p : PacketGw) (d : Option (List ℕ))
      → SameLinks c.base (send_to c writer p d).1.base
  unfolding send_to
  send_to-SameLinks c writer p d = elim (Option-cases (get_elem? c.writers writer)) [
    | inl e ↦ rw (e, send_to) (refl, refl)
    | inr (w, e) ↦ rw (e, send_to) (send_gw_packet-SameLinks c.base w p d)
  ]

  pub send_control-SameLinks :
      (c : GatewayClient W) (writer : ℕ) (packet : ℕ → PacketGw)
      → SameLinks c.base (send_control c writer packet).1.base
  unfolding send_control next_packet_id
  send_control-SameLinks c writer packet =
      let (links, heap) =
        send_to-SameLinks (record c { base = (next_packet_id c.base).1 }) writer
          (packet (next_packet_id c.base).0) none in
      (links, heap)

  pub pong_to-SameLinks :
      (c : GatewayClient W) (writer : ℕ) → SameLinks c.base (pong_to c writer).base
  unfolding pong_to send_pong next_packet_id
  pong_to-SameLinks c writer = elim (Option-cases (get_elem? c.writers writer)) [
    | inl e ↦ rw (e, pong_to) (refl, refl)
    | inr (w, e) ↦
        let g = (next_packet_id c.base).1 in
        let (links, heap) =
          send_gw_packet-SameLinks g w (Packet.new pong (next_packet_id c.base).0 0 0) none in
        rw (e, pong_to) (links, heap)
  ]

module _ {W : Type 0} ⦃io : WriteHalf W⦄ ⦃z : Zstd⦄ (c : GatewayClient W) (id ref : ℕ)
    (a : IsApart c.base id ref) where
  pub forward_to_app-IsApart :
      (link_id : ℕ) (d : List ℕ) → IsApart (forward_to_app c link_id d).base id ref
  unfolding forward_to_app
  forward_to_app-IsApart link_id d = elim (Option-cases (Map.get c.base.links link_id)) [
    | inl e ↦ rw (e, forward_to_app) a
    | inr (r, e) ↦
        rw (e, forward_to_app)
          (with_link-IsApart c.base id ref a r (λ l. Link.send_packet l (some d)))
  ]

  pub forward_to_app-Kept :
      (link_id : ℕ) (d : List ℕ)
      → link_id ≢ id
      → Kept c.base (forward_to_app c link_id d).base id ref
  unfolding forward_to_app
  forward_to_app-Kept link_id d h = elim (Option-cases (Map.get c.base.links link_id)) [
    | inl e ↦ rw (e, forward_to_app) (Kept-refl c.base id ref)
    | inr (r, e) ↦
        rw (e, forward_to_app)
          (with_link-Kept c.base id ref a r (λ l. Link.send_packet l (some d))
            (other_place c.base id ref a link_id r h e))
  ]

  -- The gateway with a link for a connection that was opened.
  abbrev connected_base : ℕ → W → Gateway W
  connected_base conn_id stream =
      let (ref, base) = alloc c.base (Link.new stream conn_id) in
      with_link (add_link base ref) ref (λ l. Link.set_state l Link.connected)

  connect_client_failed :
      (writer conn_id : ℕ) → SameLinks c.base (connect_client c writer conn_id none).1.base
  unfolding connect_client
  connect_client_failed writer conn_id =
      send_control-SameLinks c writer (λ i. Packet.new open_fail i conn_id 0)

  connect_client_opened :
      (writer conn_id : ℕ) (stream : W)
      → SameLinks
          (connected_base conn_id stream)
          (connect_client c writer conn_id (some stream)).1.base
  unfolding connect_client
  connect_client_opened writer conn_id stream =
      send_control-SameLinks (record c { base = connected_base conn_id stream }) writer
        (λ i. Packet.new opened i conn_id 0)

  connected_base-IsApart :
      (conn_id : ℕ) (stream : W) → IsApart (connected_base conn_id stream) id ref
  unfolding alloc
  connected_base-IsApart conn_id stream =
      let (r, base) = alloc c.base (Link.new stream conn_id) in
      with_link-IsApart (add_link base r) id ref
        (add_link-IsApart c.base id ref a (Link.new stream conn_id)) r
        (λ l. Link.set_state l Link.connected)

  connected_base-Kept :
      (conn_id : ℕ) (stream : W) → conn_id ≢ id → Kept c.base (connected_base conn_id stream) id ref
  unfolding alloc Link.new
  connected_base-Kept conn_id stream h =
      let l = Link.new stream conn_id in
      let (r, base) = alloc c.base l in
      let added = add_link-Kept c.base id ref a l h in
      let set =
        with_link-Kept (add_link base r) id ref (add_link-IsApart c.base id ref a l) r
          (λ x. Link.set_state x Link.connected) (λ e. omega (arith, a.used)) in
      record { known = set.known ∙ added.known; there = set.there ∙ added.there }

  pub connect_client-IsApart :
      (writer conn_id : ℕ) (stream : Option W)
      → IsApart (connect_client c writer conn_id stream).1.base id ref
  connect_client-IsApart writer conn_id none =
      SameLinks-IsApart c.base _ id ref (connect_client_failed writer conn_id) a
  connect_client-IsApart writer conn_id (some stream) =
      SameLinks-IsApart (connected_base conn_id stream) _ id ref
        (connect_client_opened writer conn_id stream) (connected_base-IsApart conn_id stream)

  pub connect_client-Kept :
      (writer conn_id : ℕ) (stream : Option W)
      → conn_id ≢ id
      → Kept c.base (connect_client c writer conn_id stream).1.base id ref
  connect_client-Kept writer conn_id none h =
      SameLinks-Kept c.base _ id ref (connect_client_failed writer conn_id)
  connect_client-Kept writer conn_id (some stream) h =
      let added = connected_base-Kept conn_id stream h in
      let sent =
        SameLinks-Kept (connected_base conn_id stream)
          (connect_client c writer conn_id (some stream)).1.base id ref
          (connect_client_opened writer conn_id stream) in
      record { known = sent.known ∙ added.known; there = sent.there ∙ added.there }
