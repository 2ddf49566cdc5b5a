-- ===== src/Server/Sessions.antt =====
-- The sessions of gateway/server.rs: `handle_gateway_connection`, `on_disconnection`, `shutdown`.
pub mod Register
pub mod Race
use iog.Prelude.{
  ℕ, Bool, Option, none, some, List, [], ◌∷◌, ◌++◌, if◌then◌else◌, length, modify, nat_eq,
}
use iog.Map
use iog.Transport.{WriteHalf, ReadHalf}
use iog.Statistics.{Timestamp, connected, waiting}
use iog.SessionStore.{SessionStore, save_session, restore_session, remove_session}
use iog.Auth.{Hmac}
use iog.Gateway
use iog.Server.{SocketAddr, addr_key, ClientSession, GatewayServer}
use iog.Server.Handshake.{authenticate_client}

module _ {W : Type 0} where
  -- The session enters the store and the registry.
  unfoldable pub insert_session : GatewayServer W → SocketAddr → ℕ → ℕ → Timestamp → GatewayServer W
  unfolding save_session
  insert_session s addr writer session_id now = record s {
    session_store = save_session s.session_store session_id [];
    client_sessions =
        Map.insert s.client_sessions addr
          (record { writer = writer; addr = addr; connected_at = now; session_id = session_id });
  }

  unfoldable pub mark_connected : GatewayServer W → GatewayServer W
  unfolding Gateway.set_state
  mark_connected s = record s { base = Gateway.set_state s.base connected }

  -- What follows a successful authentication.
  unfoldable pub register : GatewayServer W → SocketAddr → ℕ → ℕ → Timestamp → GatewayServer W
  unfolding insert_session mark_connected
  register s addr writer session_id now =
      insert_session (mark_connected s) addr writer session_id now

module _ {W : Type 0} ⦃io : WriteHalf W⦄ where
  -- The previous connection from this address is shut down and forgotten.
  unfoldable pub close_previous : GatewayServer W → SocketAddr → GatewayServer W
  close_previous s addr = elim (Map.get s.client_sessions addr) [
    | none ↦ record s { client_sessions = Map.remove s.client_sessions addr }
    | some old ↦ record s {
      client_sessions = Map.remove s.client_sessions addr;
      writers = modify s.writers old.writer io.shutdown;
    }
  ]

module _ {W R : Type 0} ⦃io : WriteHalf W⦄ ⦃ir : ReadHalf R⦄ ⦃h : Hmac⦄ where
  -- The place of the writer and the reader of the exchange loop to spawn, if the client is
  -- authenticated.
  unfoldable pub handle_gateway_connection :
      GatewayServer W
      → SocketAddr
      → R
      → W
      → List ℕ
      → Bool
      → ℕ
      → Timestamp
      → Option ℕ × R × GatewayServer W
  handle_gateway_connection s addr r w nonce expired session_id now =
      let writer = length s.writers in
      let s1 = close_previous (record s { writers = s.writers ++ (w ∷ []) }) addr in
      let (accepted, r', w', base) = authenticate_client s1.base r w nonce expired in
      let s2 = record s1 { base = base; writers = modify s1.writers writer (λ x. w') } in
      if accepted then (some writer, r', register s2 addr writer session_id now) else (none, r', s2)

-- The loop of `on_disconnection` over the drained sessions.
unfoldable pub restore_all : List (SocketAddr × ClientSession) → SessionStore → SessionStore
restore_all [] store = store
restore_all ((addr, c) ∷ sessions) store =
    restore_all sessions (restore_session store c.session_id).1

-- The loop of `shutdown` over the drained sessions.
module _ {W : Type 0} ⦃io : WriteHalf W⦄ where
  unfoldable pub shutdown_all :
      List (SocketAddr × ClientSession) → SessionStore → List W → SessionStore × List W
  shutdown_all [] store writers = (store, writers)
  shutdown_all ((addr, c) ∷ sessions) store writers =
      shutdown_all sessions (remove_session store c.session_id)
        (modify writers c.writer io.shutdown)

  unfoldable pub on_disconnection : GatewayServer W → GatewayServer W
  on_disconnection s = record s {
    base = Gateway.set_state (Gateway.close_all_links s.base) waiting;
    client_sessions = [];
    session_store = restore_all s.client_sessions s.session_store;
  }

  unfoldable pub shutdown : GatewayServer W → GatewayServer W
  shutdown s =
      let (store, writers) = shutdown_all s.client_sessions s.session_store s.writers in
      record s {
        base = Gateway.shutdown s.base;
        client_sessions = [];
        session_store = store;
        writers = writers;
      }
