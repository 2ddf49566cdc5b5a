-- ===== src/Server/App/Announce.antt =====
-- What `handle_app_connection` of gateway/server.rs leaves behind when no other task runs in between.
use iog.Prelude.{
  ℕ, ◌≡◌, refl, sym, ap, ◌∙◌, none, some, List, arith, get_elem?, modify, get_elem?-modify, nat_eq,
  Bool-cases, Option-cases, inl, inr,
}
use iog.Bytes.{add_u64}
use iog.Map
use iog.Transport.{WriteHalf}
use iog.Packet
use iog.Packet.{PacketGw, to_bytes}
use iog.Compression.{Zstd}
use iog.Link
use iog.Link.{Link}
use iog.Gateway.{
  Gateway, update_connections_metric, next_link_id, next_packet_id, with_link, alloc, add_link,
}
use iog.Gateway.Send.{count_sent, send_gw_packet, prepare, write_packet, write_payload}
use iog.Server.{ClientSession, GatewayServer, send_to}
use iog.Server.App.Open.{open_connection_registers}
use iog.Server.App.{
  Pending, open_connection, first_session, send_control, send_open, mark_waiting,
  handle_app_connection,
}

modify_self :
    {A : Type 0} (xs : List A) (i : ℕ) (f : A → A) (x : A)
    → get_elem? xs i ≡ some x
    → get_elem? (modify xs i f) i ≡ some (f x)
modify_self xs i f x e = ground (arith, get_elem?-modify xs i i f)

module _ {W : Type 0} ⦃io : WriteHalf W⦄ ⦃z : Zstd⦄ where
  -- The writer after a packet without a payload.
  send_to-writers :
      (s : GatewayServer W) (writer : ℕ) (p : PacketGw) (w : W)
      → get_elem? s.writers writer ≡ some w
      → let t = (send_to s writer p none).1 in
        (get_elem? t.writers writer ≡ some (io.write_all w (to_bytes p)).1)
        × (t.base.links ≡ s.base.links)
        × (t.base.heap ≡ s.base.heap)
        × (t.link_clients ≡ s.link_clients)
  unfolding send_to send_gw_packet prepare write_packet write_payload count_sent
  send_to-writers s writer p w e = elim (Bool-cases (io.write_all w (to_bytes p)).0) [
    | inl ok ↦
        rw (e, send_to)
          (rw ok (
            ground (
              arith,
              e,
              get_elem?-modify s.writers writer writer (λ v. (io.write_all w (to_bytes p)).1),
            ),
            refl,
            refl,
            refl,
          ))
    | inr failed ↦
        rw (e, send_to)
          (rw failed (
            ground (
              arith,
              e,
              get_elem?-modify s.writers writer writer (λ v. (io.write_all w (to_bytes p)).1),
            ),
            refl,
            refl,
            refl,
          ))
  ]

  add_link-packet_id :
      (g : Gateway W) (ref : ℕ) → (add_link g ref).packet_id_counter ≡ g.packet_id_counter
  unfolding add_link update_connections_metric
  add_link-packet_id g ref = ground arith

  -- Neither the writers nor the counter of packets changes before `Open`.
  open_connection-writers :
      (s : GatewayServer W) (stream : W)
      → let t = (open_connection s stream).1 in
        (t.writers ≡ s.writers) × (t.base.packet_id_counter ≡ s.base.packet_id_counter)
  unfolding open_connection next_link_id alloc
  open_connection-writers s stream = elim (Option-cases (first_session s.client_sessions)) [
    | inl e ↦ rw (e, open_connection) (refl, refl)
    | inr (c, e) ↦
        let (id, base) = next_link_id s.base in
        let (ref, base') = alloc base (Link.new stream id) in
        rw (e, open_connection) (refl, add_link-packet_id base' ref)
  ]

  -- From `Open` to the end, for a link under way.
  announced :
      (s : GatewayServer W) (p : Pending) (w : W) (l : Link W)
      → get_elem? s.writers p.client_writer ≡ some w
      → get_elem? s.base.heap p.ref ≡ some l
      → let t = mark_waiting (send_open s p) p.ref in
        let packet = Packet.new Packet.open_link (next_packet_id s.base).0 p.link_id 0 in
        (t.base.links ≡ s.base.links)
        × (t.link_clients ≡ s.link_clients)
        × (get_elem? t.base.heap p.ref ≡ some (Link.set_state l Link.waiting))
        × (get_elem? t.writers p.client_writer ≡ some (io.write_all w (to_bytes packet)).1)
  unfolding send_open send_control mark_waiting with_link next_packet_id Link.set_state
  announced s p w l at there =
      let (id, base) = next_packet_id s.base in
      let packet = Packet.new Packet.open_link id p.link_id 0 in
      let (writers, links, heap, routes) =
        send_to-writers (record s { base = base }) p.client_writer packet w at in
      (
        links,
        routes,
        rw heap (modify_self s.base.heap p.ref (λ x. Link.set_state x Link.waiting) l there),
        writers,
      )

  -- With a client connected, and its writer in its place: the application's connection gets the
  -- next link identifier; its link stands registered under that identifier, routed to the client,
  -- and waits; and `Open`, with the next packet identifier and that link identifier, has been given
  -- to the client's writer, the only write to it, also if it fails. With no client the connection
  -- is refused: nothing is written, registered or routed.
  pub handle_app_connection_announces :
      (s : GatewayServer W) (stream : W)
      → let (opened, t) = handle_app_connection s stream in
        let id = (next_link_id s.base).0 in
        let announced = Packet.new Packet.open_link (next_packet_id s.base).0 id 0 in
        ((c : ClientSession) (w : W)
          → first_session s.client_sessions ≡ some c
          → get_elem? s.writers c.writer ≡ some w
          → (p : Pending) × (opened ≡ some p)
            × (p.link_id ≡ id)
            × (p.client_writer ≡ c.writer)
            × (Map.get t.base.links id ≡ some p.ref)
            × (Map.get t.link_clients id ≡ some c.addr)
            × (get_elem? t.base.heap p.ref
                ≡ some (record (Link.new stream id) { state = Link.waiting }))
            × (get_elem? t.writers c.writer ≡ some (io.write_all w (to_bytes announced)).1))
        × (first_session s.client_sessions ≡ none
            → (opened ≡ none)
              × (t.base.links ≡ s.base.links)
              × (t.link_clients ≡ s.link_clients)
              × (t.writers ≡ s.writers))
  unfolding handle_app_connection next_packet_id Link.set_state Link.new
  handle_app_connection_announces s stream =
      let (registered, refused) = open_connection_registers s stream in
      let (writers, counter) = open_connection-writers s stream in
      let s1 = (open_connection s stream).1 in
      let id = (next_link_id s.base).0 in
      let counter' : (next_packet_id s1.base).0 ≡ (next_packet_id s.base).0 =
        ap (λ n. add_u64 n 1) counter in
      (
        λ c w e at.
            let (p, opened, named, writer, listed, routed, there, fresh) = (registered c e).0 in
            let at' : get_elem? s1.writers p.client_writer ≡ some w = rw (writers, writer) at in
            let written : ℕ → ℕ → W =
              λ i j. (io.write_all w (to_bytes (Packet.new Packet.open_link i j 0))).1 in
            let (links, routes, heap, sent) = announced s1 p w _ at' there in
            rw (opened, handle_app_connection)
              (
                p,
                refl,
                named,
                writer,
                ap (λ m. Map.get m id) links ∙ listed,
                ap (λ m. Map.get m id) routes ∙ routed,
                heap,
                ap (get_elem? (mark_waiting (send_open s1 p) p.ref).writers) (sym writer)
                    ∙ sent
                    ∙ ap (λ i. some (written i p.link_id)) counter'
                    ∙ ap (λ i. some (written (next_packet_id s.base).0 i)) named,
              ),
        λ e.
            let (opened, links, routes) = refused e in
            rw (opened, handle_app_connection) (refl, links, routes, writers),
      )
