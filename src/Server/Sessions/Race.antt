-- ===== src/Server/Sessions/Race.antt =====
-- What the order of two tasks does to the gateway's state: `handle_gateway_connection` marks the
-- gateway as connected before it registers the session, while the end of another session marks
-- it as waiting if no session is registered.
use iog.Prelude.{ℕ, ◌≡◌, refl, some, [], arith}
use iog.Map
use iog.Statistics.{Timestamp, connected, waiting}
use iog.Gateway
use iog.Server.{SocketAddr, addr_key, addr_eq_iff, ClientSession, GatewayServer}
use iog.Server.Links.{is_empty, wait_if_empty}
use iog.Server.Sessions.{insert_session, mark_connected}

module _ {W : Type 0} where
  -- On a server with no session left: if the last check of another session's clean-up comes after
  -- the new session is registered, the gateway ends up connected; if it comes between
  -- marking the gateway as connected and registering, the gateway ends up waiting, although
  -- the session is registered all the same.
  pub waiting_while_registered :
      (s : GatewayServer W) (addr : SocketAddr) (writer session_id : ℕ) (now : Timestamp)
      → s.client_sessions ≡ []
      → let late = wait_if_empty (insert_session (mark_connected s) addr writer session_id now) in
        let early = insert_session (wait_if_empty (mark_connected s)) addr writer session_id now in
        (late.base.state ≡ connected)
        × (early.base.state ≡ waiting)
        × (early.client_sessions ≡ late.client_sessions)
        × (Map.get early.client_sessions addr
            ≡ some (record {
              writer = writer;
              addr = addr;
              connected_at = now;
              session_id = session_id;
            }))
  unfolding wait_if_empty insert_session mark_connected Gateway.set_state Map.insert
  waiting_while_registered s addr writer session_id now none_left =
      let session : ClientSession = record {
        writer = writer;
        addr = addr;
        connected_at = now;
        session_id = session_id;
      } in
      (
        refl,
        rw (none_left, is_empty) refl,
        refl,
        ground (arith, Map.get-insert s.client_sessions addr session addr, addr_eq_iff addr addr),
      )
