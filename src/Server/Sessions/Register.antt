-- ===== src/Server/Sessions/Register.antt =====
-- What a connection of a gateway client leaves in the registry of sessions.
use iog.Prelude.{
  ℕ, ◌≡◌, ◌≢◌, refl, Bool, true, false, none, some, List, [], ◌∷◌, ◌++◌, ap, arith, length,
  length-modify, nat_eq, Option-cases, inl, inr,
}
use iog.Map
use iog.Transport.{WriteHalf, ReadHalf}
use iog.Statistics.{Timestamp, connected}
use iog.SessionStore.{has_session, save_session}
use iog.Auth.{Hmac}
use iog.Gateway
use iog.Server.{SocketAddr, addr_key, addr_eq_iff, ClientSession, GatewayServer}
use iog.Server.Handshake.{authenticate_client}
use iog.Server.Sessions.{
  register, insert_session, mark_connected, close_previous, handle_gateway_connection,
}

module _ {W : Type 0} ⦃io : WriteHalf W⦄ where
  pub close_previous-fields :
      (s : GatewayServer W) (addr : SocketAddr)
      → let t = close_previous s addr in
        (t.client_sessions ≡ Map.remove s.client_sessions addr)
        × (t.base ≡ s.base)
        × (t.link_clients ≡ s.link_clients)
        × (t.session_store ≡ s.session_store)
        × (length t.writers ≡ length s.writers)
  unfolding close_previous
  close_previous-fields s addr = elim (Option-cases (Map.get s.client_sessions addr)) [
    | inl e ↦ rw (e, close_previous) (refl, refl, refl, refl, refl)
    | inr (old, e) ↦
        rw (e, close_previous)
          (refl, refl, refl, refl, length-modify s.writers old.writer io.shutdown)
  ]

module _ {W R : Type 0} ⦃io : WriteHalf W⦄ ⦃ir : ReadHalf R⦄ ⦃h : Hmac⦄ where
  -- A connection whose authentication succeeds is registered: its address leads to a session with
  -- its writer and identifier, whose exchange loop is to start, the store has that session,
  -- and the gateway is connected. One whose authentication fails starts no loop, is not
  -- registered, and leaves the store as it was. Either way a session that the address had before is
  -- gone, and sessions of other addresses and all routes stay.
  pub handle_gateway_connection_registers :
      (s : GatewayServer W) (addr : SocketAddr) (r : R) (w : W) (nonce : List ℕ) (expired : Bool)
      (session_id : ℕ) (now : Timestamp)
      → let accepted = (authenticate_client s.base r w nonce expired).0 in
        let result = handle_gateway_connection s addr r w nonce expired session_id now in
        let t = result.2 in
        (accepted ≡ true
          → (result.0 ≡ some (length s.writers))
            × (Map.get t.client_sessions addr
                ≡ some (record {
                  writer = length s.writers;
                  addr = addr;
                  connected_at = now;
                  session_id = session_id;
                }))
            × (has_session t.session_store session_id ≡ true)
            × (t.base.state ≡ connected))
        × (accepted ≡ false
            → (result.0 ≡ none)
              × (Map.get t.client_sessions addr ≡ none)
              × (t.session_store ≡ s.session_store))
        × ((other : SocketAddr)
            → other ≢ addr
            → Map.get t.client_sessions other ≡ Map.get s.client_sessions other)
        × (t.link_clients ≡ s.link_clients)
  unfolding handle_gateway_connection register insert_session mark_connected save_session
      Gateway.set_state has_session Map.contains_key
  handle_gateway_connection_registers s addr r w nonce expired session_id now =
      let s1 : GatewayServer W = record s { writers = s.writers ++ (w ∷ []) } in
      let (sessions, base, routes, store, writers) = close_previous-fields s1 addr in
      let same : (authenticate_client (close_previous s1 addr).base r w nonce expired).0
          ≡ (authenticate_client s.base r w nonce expired).0 =
        ap (λ g. (authenticate_client g r w nonce expired).0) base in
      let old = s.client_sessions in
      let left = (close_previous s1 addr).client_sessions in
      let fresh : ClientSession = record {
        writer = length s.writers;
        addr = addr;
        connected_at = now;
        session_id = session_id;
      } in
      let itself = addr_eq_iff addr addr in
      (
        λ yes'. (
          ground (arith, same),
          ground (arith, same, itself, Map.get-insert left addr fresh addr),
          ground (
            arith,
            same,
            Map.get-insert (close_previous s1 addr).session_store.sessions session_id [] session_id,
          ),
          ground (arith, same),
        ),
        λ no'. (
          ground (arith, same),
          ground (arith, same, sessions, itself, Map.get-remove old addr addr),
          ground (arith, same, store),
        ),
        λ other apart. ground (
          arith,
          sessions,
          addr_eq_iff addr other,
          Map.get-remove old addr other,
          Map.get-insert left addr fresh other,
        ),
        ground (arith, routes),
      )
