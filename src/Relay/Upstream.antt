-- ===== src/Relay/Upstream.antt =====
-- From the client's application to the server's.
use iog.Prelude.{
  ℕ, ◌^◌, ◌≤◌, ◌<◌, ◌≡◌, refl, sym, ap, ◌∙◌, true, Option, some, List, ◌∷◌, ◌++◌, arith, length,
  get_elem?, modify_at, nat_eq,
}
use iog.Map
use iog.Transport.{WriteHalf, WriteLaws, ReadHalf, ReadLaws}
use iog.Statistics.{buffer_size}
use iog.Packet
use iog.Packet.{PacketGw, IsPacket, is_compressed, regular}
use iog.Compression.{Zstd, ZstdLaws}
use iog.Link
use iog.Link.{Link, connected}
use iog.Link.Silence.{send_packet-sent}
use iog.Gateway.{next_packet_id, with_link}
use iog.Gateway.Send.{send_gw_packet}
use iog.Gateway.Receive.{read_gw_packet}
use iog.Gateway.RoundTrip.{read_gw_packet-send_gw_packet}
use iog.Gateway.Frame.{read_gw_packet-SameLinks}
use iog.Relay.Data.{data_packet, data_packet-IsPacket, data_packet-plain, data_packet-sized}
use iog.Server.{GatewayServer}
use iog.Server.Exchange.{continues, dispatch, round}
use iog.Server.App.Race.{on_link-some}
use iog.Client.{GatewayClient, send_to}
use iog.Client.App.{app_round}

module _ {W : Type 0} ⦃io : WriteHalf W⦄ ⦃z : Zstd⦄ where
  -- A send through a shared writer is a `send_gw_packet` with what is in its place.
  pub send_to-send :
      (c : GatewayClient W) (writer : ℕ) (w : W) (p : PacketGw) (d : Option (List ℕ))
      → get_elem? c.writers writer ≡ some w
      → ((send_to c writer p d).0 ≡ (send_gw_packet c.base w p d).0)
        × (get_elem? (send_to c writer p d).1.writers writer ≡ some (send_gw_packet c.base w p d).1)
  unfolding send_to
  send_to-send c writer w p d h =
      rw (h, send_to) (refl, modify_at c.writers writer (λ x. (send_gw_packet c.base w p d).1) w h)

  -- A round of the client's loop that goes on is a `send_gw_packet` of that packet.
  pub app_round-send :
      (c : GatewayClient W) (ref link_id writer : ℕ) (w : W) (b : ℕ) (bs : List ℕ)
      → get_elem? c.writers writer ≡ some w
      → let sent =
          send_gw_packet
            (next_packet_id c.base).1
            w
            (data_packet c.base link_id (b ∷ bs))
            (some (b ∷ bs)) in
        let t = app_round c ref link_id writer (some (b ∷ bs)) in
        (t.0 ≡ sent.0) × (get_elem? t.1.writers writer ≡ some sent.1)
  unfolding app_round data_packet
  app_round-send c ref link_id writer w b bs h =
      let (same, moved) =
        send_to-send (record c { base = (next_packet_id c.base).1 }) writer w
          (data_packet c.base link_id (b ∷ bs)) (some (b ∷ bs)) h in
      (ground (arith, same), ground (arith, moved))

  -- The server's loop hands the data of a packet to a connected link.
  dispatch-on_link :
      (writes : WriteLaws W io) (s : GatewayServer W) (writer link_id ref : ℕ) (l : Link W)
      (d : List ℕ)
      → Map.get s.base.links link_id ≡ some ref
      → get_elem? s.base.heap ref ≡ some l
      → l.state ≡ connected
      → (io.write_all l.writer d).0 ≡ true
      → let t = dispatch regular s writer link_id (some d) in
        (t.0 ≡ continues)
        × ((m : Link W) × (get_elem? t.1.base.heap ref ≡ some m)
            × (writes.sent m.writer ≡ writes.sent l.writer ++ d))
  unfolding dispatch with_link
  dispatch-on_link writes s writer link_id ref l d e h on ok = (
    refl,
    (
      Link.send_packet l (some d),
      ap (λ (x : GatewayServer W). get_elem? x.base.heap ref)
            (on_link-some s link_id ref (λ x. Link.send_packet x (some d)) e)
          ∙ modify_at s.base.heap ref (λ x. Link.send_packet x (some d)) l h,
      ((send_packet-sent writes l d on).1 ok).0,
    ),
  )

module _ {W R : Type 0} ⦃io : WriteHalf W⦄ ⦃ir : ReadHalf R⦄ ⦃z : Zstd⦄ where
  -- A regular packet that was read is dispatched.
  round_regular :
      (s : GatewayServer W) (r : R) (writer link_id : ℕ) (q : PacketGw) (d : Option (List ℕ))
      → (read_gw_packet s.base r).0 ≡ some (q, d)
      → q.packet_type ≡ regular
      → q.link_id ≡ link_id
      → let base = (read_gw_packet s.base r).2 in
        let t = dispatch regular (record s { base = base }) writer link_id d in
        t.0 ≡ continues → round s r writer ≡ (some (read_gw_packet s.base r).1, t.1)
  unfolding round
  round_regular s r writer link_id q d got typed linked on = rw (got, round, typed, linked, on) refl

  -- Data that the client reads from its application in one go reaches the application behind the
  -- server's link. Given streams and a codec that keep their laws, a link identifier of 16 bits, a
  -- read of 1 to 16384 bytes that the client's loop sends without an error, and a server that
  -- reads what was sent: one round of the server's loop goes on, leaves the stream behind the
  -- packet, and has the writer of the link, which is registered under the same identifier,
  -- connected and accepts the write, send exactly those bytes.
  pub round-app_round :
      (writes : WriteLaws W io) (reads : ReadLaws R ir) (codec : ZstdLaws z) (c : GatewayClient W)
      (here link_id up : ℕ) (w w' : W) (b : ℕ) (bs : List ℕ) (s : GatewayServer W) (r : R)
      (writer ref : ℕ) (l : Link W) (delivered rest : List ℕ)
      → link_id < 2 ^ 16
      → length (b ∷ bs) ≤ buffer_size
      → get_elem? c.writers up ≡ some w
      → let sent = app_round c here link_id up (some (b ∷ bs)) in
        sent.0 ≡ true
        → get_elem? sent.1.writers up ≡ some w'
        → writes.sent w' ≡ writes.sent w ++ delivered
        → reads.pending r ≡ delivered ++ rest
        → Map.get s.base.links link_id ≡ some ref
        → get_elem? s.base.heap ref ≡ some l
        → l.state ≡ connected
        → (io.write_all l.writer (b ∷ bs)).0 ≡ true
        → let t = round s r writer in
          (r' : R) × (t.0 ≡ some r')
          × (reads.pending r' ≡ rest)
          × (m : Link W) × (get_elem? t.1.base.heap ref ≡ some m)
          × (writes.sent m.writer ≡ writes.sent l.writer ++ (b ∷ bs))
  unfolding data_packet Packet.new
  round-app_round writes reads codec c here link_id up w w' b bs s r writer ref l delivered rest
        id_fits size_fits at ok at' carried e known there on accepts =
      let d = b ∷ bs in
      let (same, moved) = app_round-send c here link_id up w b bs at in
      let packet = data_packet c.base link_id d in
      let g' = (next_packet_id c.base).1 in
      let writer' : (send_gw_packet g' w packet (some d)).1 ≡ w' = cc in
      let (q, got, typed, _, linked, left) =
        read_gw_packet-send_gw_packet writes reads codec g' s.base w r packet (some d) delivered
          rest (data_packet-IsPacket c.base link_id d id_fits) (data_packet-plain c.base link_id d)
          (data_packet-sized c.base link_id d size_fits) (sym same ∙ ok)
          (ap writes.sent writer' ∙ carried) e in
      let base = (read_gw_packet s.base r).2 in
      let (kept_links, kept_heap) = read_gw_packet-SameLinks s.base r in
      let (goes_on, handed) =
        dispatch-on_link writes (record s { base = base }) writer link_id ref l d
          (ap (λ t. Map.get t link_id) kept_links ∙ known)
          (ap (λ h. get_elem? h ref) kept_heap ∙ there) on accepts in
      rw (round_regular s r writer link_id q (some d) got typed linked goes_on)
        (_, refl, left, handed.0, handed.1, handed.2)
