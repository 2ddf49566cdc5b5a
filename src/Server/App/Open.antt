-- ===== src/Server/App/Open.antt =====
-- What `handle_app_connection` has registered when it sends `Open`.
use iog.Prelude.{
  ℕ, ◌≡◌, ◌≢◌, refl, none, some, arith, length, get_elem?, get_elem?-end, get_elem?-length, nat_eq,
}
use iog.Map
use iog.Link
use iog.Link.{Link, disconnected}
use iog.Gateway.{next_link_id}
use iog.Gateway.Fresh.{add_link-fresh}
use iog.Server.{ClientSession, GatewayServer}
use iog.Server.App.{Pending, open_connection, first_session}

module _ {W : Type 0} where
  -- A new application connection gets the next link identifier. With a client connected, a fresh
  -- disconnected link under that identifier enters the registry, routed to the first client and
  -- to be announced through its writer, and no other registration or route changes; with no
  -- client, the connection is refused and registry and routes stay as they are.
  pub open_connection_registers :
      (s : GatewayServer W) (stream : W)
      → let (opened, t) = open_connection s stream in
        let id = (next_link_id s.base).0 in
        ((c : ClientSession)
          → first_session s.client_sessions ≡ some c
          → ((p : Pending) × (opened ≡ some p)
              × (p.link_id ≡ id)
              × (p.client_writer ≡ c.writer)
              × (Map.get t.base.links id ≡ some p.ref)
              × (Map.get t.link_clients id ≡ some c.addr)
              × (get_elem? t.base.heap p.ref ≡ some (Link.new stream id))
              × (get_elem? s.base.heap p.ref ≡ none))
            × ((other : ℕ)
                → other ≢ id
                → (Map.get t.base.links other ≡ Map.get s.base.links other)
                  × (Map.get t.link_clients other ≡ Map.get s.link_clients other)))
        × (first_session s.client_sessions ≡ none
            → (opened ≡ none) × (t.base.links ≡ s.base.links) × (t.link_clients ≡ s.link_clients))
  unfolding open_connection
  open_connection_registers s stream =
      let (id, base) = next_link_id s.base in
      let l = Link.new stream id in
      let ref = length base.heap in
      let (links, heap, state) = add_link-fresh base l in
      (
        λ c e.
            rw (e, open_connection)
              (
                (
                  record { ref = ref; link_id = id; client_writer = c.writer },
                  refl,
                  refl,
                  refl,
                  rw links (ground (arith, Map.get-insert s.base.links id ref id)),
                  ground (arith, Map.get-insert s.link_clients id c.addr id),
                  rw heap (get_elem?-end base.heap l),
                  get_elem?-length s.base.heap,
                ),
                λ other h. (
                  rw links (ground (arith, Map.get-insert s.base.links id ref other)),
                  ground (arith, Map.get-insert s.link_clients id c.addr other),
                ),
              ),
        λ e. rw (e, open_connection) (refl, refl, refl),
      )
