-- ===== src/Relay/Downstream.antt =====
-- From the server's application to the client's.
use iog.Prelude.{
  ℕ, ◌^◌, ◌≤◌, ◌<◌, ◌≡◌, refl, sym, ap, ◌∙◌, true, Option, some, List, ◌∷◌, ◌++◌, length, get_elem?,
  modify_at, nat_eq,
}
use iog.Map
use iog.Transport.{WriteHalf, WriteLaws, ReadHalf, ReadLaws}
use iog.Statistics.{Timestamp, buffer_size}
use iog.Packet
use iog.Packet.{PacketGw, IsPacket, is_compressed, regular}
use iog.Compression.{Zstd, ZstdLaws}
use iog.Link
use iog.Link.{Link, connected}
use iog.Link.Silence.{send_packet-sent}
use iog.Gateway.{Gateway, next_packet_id, with_link}
use iog.Gateway.Send.{send_gw_packet}
use iog.Gateway.Receive.{read_gw_packet}
use iog.Gateway.RoundTrip.{read_gw_packet-send_gw_packet}
use iog.Gateway.Frame.{read_gw_packet-SameLinks}
use iog.Relay.Data.{data_packet, data_packet-IsPacket, data_packet-plain, data_packet-sized}
use iog.Server.{GatewayServer, send_to}
use iog.Server.App.{Pending, app_round}
use iog.Client.{GatewayClient}
use iog.Client.Exchange.{continues, dispatch, forward_to_app, round}

module _ {W : Type 0} ⦃io : WriteHalf W⦄ ⦃z : Zstd⦄ where
  -- A send through a shared writer is a `send_gw_packet` with what is in its place.
  pub send_to-send :
      (s : GatewayServer W) (writer : ℕ) (w : W) (p : PacketGw) (d : Option (List ℕ))
      → get_elem? s.writers writer ≡ some w
      → ((send_to s writer p d).0 ≡ (send_gw_packet s.base w p d).0)
        × (get_elem? (send_to s writer p d).1.writers writer ≡ some (send_gw_packet s.base w p d).1)
  unfolding send_to
  send_to-send s writer w p d h =
      rw (h, send_to) (refl, modify_at s.writers writer (λ x. (send_gw_packet s.base w p d).1) w h)

  -- A round of the server's loop is a `send_gw_packet` of that packet.
  pub app_round-send :
      (s : GatewayServer W) (p : Pending) (w : W) (b : ℕ) (bs : List ℕ)
      → get_elem? s.writers p.client_writer ≡ some w
      → (g : Gateway W) × (let sent =
            send_gw_packet
              (next_packet_id g).1
              w
              (data_packet g p.link_id (b ∷ bs))
              (some (b ∷ bs)) in
          let t = app_round s p (some (b ∷ bs)) in
          (t.0 ≡ sent.0) × (get_elem? t.1.writers p.client_writer ≡ some sent.1))
  unfolding app_round send_to data_packet
  app_round-send s p w b bs h = (
    with_link s.base p.ref (λ l. Link.add_incoming l (length (b ∷ bs))),
    send_to-send _ p.client_writer w _ _ h,
  )

  -- The client's loop hands the data of a packet to a connected link.
  dispatch-forward :
      (writes : WriteLaws W io) (c : GatewayClient W) (writer link_id ref : ℕ) (l : Link W)
      (d : List ℕ) (now : Timestamp) (stream : Option W)
      → Map.get c.base.links link_id ≡ some ref
      → get_elem? c.base.heap ref ≡ some l
      → l.state ≡ connected
      → (io.write_all l.writer d).0 ≡ true
      → let t = dispatch regular c writer link_id (some d) now stream in
        (t.0 ≡ continues)
        × ((m : Link W) × (get_elem? t.1.base.heap ref ≡ some m)
            × (writes.sent m.writer ≡ writes.sent l.writer ++ d))
  unfolding dispatch forward_to_app with_link
  dispatch-forward writes c writer link_id ref l d now stream e h on ok = (
    refl,
    (
      Link.send_packet l (some d),
      rw (e, forward_to_app) (modify_at c.base.heap ref (λ x. Link.send_packet x (some d)) l h),
      ((send_packet-sent writes l d on).1 ok).0,
    ),
  )

module _ {W R : Type 0} ⦃io : WriteHalf W⦄ ⦃ir : ReadHalf R⦄ ⦃z : Zstd⦄ where
  -- A regular packet that was read is dispatched.
  round_regular :
      (c : GatewayClient W) (r : R) (writer link_id : ℕ) (q : PacketGw) (d : Option (List ℕ))
      (now : Timestamp) (stream : Option W)
      → (read_gw_packet c.base r).0 ≡ some (q, d)
      → q.packet_type ≡ regular
      → q.link_id ≡ link_id
      → let base = (read_gw_packet c.base r).2 in
        let t = dispatch regular (record c { base = base }) writer link_id d now stream in
        t.0 ≡ continues → round c r writer now stream ≡ (some (read_gw_packet c.base r).1, t.1)
  unfolding round
  round_regular c r writer link_id q d now stream got typed linked on =
      rw (got, round, typed, linked, on) refl

  -- Data that the server reads from its application in one go reaches the application behind the
  -- client's link. Given streams and a codec that keep their laws, a link identifier of 16 bits, a
  -- read of 1 to 16384 bytes that the server's loop sends without an error, and a client that
  -- reads what was sent: one round of the client's loop goes on, leaves the stream behind the
  -- packet, and has the writer of the link, which is registered under the same identifier,
  -- connected and accepts the write, send exactly those bytes.
  pub app_round-round :
      (writes : WriteLaws W io) (reads : ReadLaws R ir) (codec : ZstdLaws z) (s : GatewayServer W)
      (p : Pending) (w w' : W) (b : ℕ) (bs : List ℕ) (c : GatewayClient W) (r : R) (writer ref : ℕ)
      (l : Link W) (delivered rest : List ℕ) (now : Timestamp) (stream : Option W)
      → p.link_id < 2 ^ 16
      → length (b ∷ bs) ≤ buffer_size
      → get_elem? s.writers p.client_writer ≡ some w
      → let sent = app_round s p (some (b ∷ bs)) in
        sent.0 ≡ true
        → get_elem? sent.1.writers p.client_writer ≡ some w'
        → writes.sent w' ≡ writes.sent w ++ delivered
        → reads.pending r ≡ delivered ++ rest
        → Map.get c.base.links p.link_id ≡ some ref
        → get_elem? c.base.heap ref ≡ some l
        → l.state ≡ connected
        → (io.write_all l.writer (b ∷ bs)).0 ≡ true
        → let t = round c r writer now stream in
          (r' : R) × (t.0 ≡ some r')
          × (reads.pending r' ≡ rest)
          × (m : Link W) × (get_elem? t.1.base.heap ref ≡ some m)
          × (writes.sent m.writer ≡ writes.sent l.writer ++ (b ∷ bs))
  unfolding data_packet Packet.new
  app_round-round writes reads codec s p w w' b bs c r writer ref l delivered rest now stream
        id_fits size_fits at ok at' carried e known there on accepts =
      let (g, same_moved) = app_round-send s p w b bs at in
      let d = b ∷ bs in
      let packet = data_packet g p.link_id d in
      let g' = (next_packet_id g).1 in
      let writer' : (send_gw_packet g' w packet (some d)).1 ≡ w' = cc in
      let (q, got, typed, _, linked, left) =
        read_gw_packet-send_gw_packet writes reads codec g' c.base w r packet (some d) delivered
          rest (data_packet-IsPacket g p.link_id d id_fits) (data_packet-plain g p.link_id d)
          (data_packet-sized g p.link_id d size_fits) (sym same_moved.0 ∙ ok)
          (ap writes.sent writer' ∙ carried) e in
      let base = (read_gw_packet c.base r).2 in
      let (kept_links, kept_heap) = read_gw_packet-SameLinks c.base r in
      let (goes_on, m_sent) =
        dispatch-forward writes (record c { base = base }) writer p.link_id ref l d now stream
          (ap (λ t. Map.get t p.link_id) kept_links ∙ known)
          (ap (λ h. get_elem? h ref) kept_heap ∙ there) on accepts in
      rw (round_regular c r writer p.link_id q (some d) now stream got typed linked goes_on)
        (_, refl, left, m_sent.0, m_sent.1, m_sent.2)
