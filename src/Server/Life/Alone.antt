-- ===== src/Server/Life/Alone.antt =====
-- A task of gateway/server.rs that runs alone: what its moves come to.
use iog.Prelude.{ℕ, zero, suc, ◌≡◌, ◌≢◌, refl, true, Option, none, some, List, [], ◌∷◌, nat_eq}
use iog.Map
use iog.Transport.{WriteHalf}
use iog.Statistics.{Timestamp, connected, waiting}
use iog.SessionStore.{has_session, restore_session}
use iog.Gateway.Registry.{IsClosed}
use iog.Gateway
use iog.Server.{SocketAddr, addr_key, ClientSession, GatewayServer}
use iog.Server.Links.{drop_links}
use iog.Server.Sessions.{register, insert_session}
use iog.Server.Life.{Point, marking, serving, save, insert, advance}

-- One move for each link, and then more.
abbrev pub after_links : List ℕ → ℕ → ℕ
after_links [] n = n
after_links (link_id ∷ ids) n = suc (after_links ids n)

module _ {W : Type 0} ⦃io : WriteHalf W⦄ (id writer : ℕ) (addr : SocketAddr) (now : Timestamp) where
  -- A number of moves of one task; `none` is that it has ended.
  pub run : ℕ → Option Point × GatewayServer W → Option Point × GatewayServer W
  run zero x = x
  run (suc n) (none, s) = (none, s)
  run (suc n) (some point, s) = run n (advance s id addr writer now point)

  -- The session of the task is registered.
  pub record IsServed (s t : GatewayServer W) : Type 0 where
    pub connects : t.base.state ≡ connected
    pub registered :
        Map.get t.client_sessions addr
        ≡ some (record { writer = writer; addr = addr; connected_at = now; session_id = id })
    pub saved : has_session t.session_store id ≡ true
    pub others :
        (other : SocketAddr)
        → other ≢ addr
        → Map.get t.client_sessions other ≡ Map.get s.client_sessions other

  -- The session of the task is gone, with its links.
  pub record IsReleased (s t : GatewayServer W) : Type 0 where
    pub links :
        (link_id : ℕ)
        → Map.get s.link_clients link_id ≡ some addr
        → (Map.get t.link_clients link_id ≡ none)
          × (Map.get t.base.links link_id ≡ none)
          × ((ref : ℕ) → Map.get s.base.links link_id ≡ some ref → IsClosed t.base.heap ref)
    pub frame :
        (link_id : ℕ)
        → Map.get s.link_clients link_id ≢ some addr
        → (Map.get t.link_clients link_id ≡ Map.get s.link_clients link_id)
          × (Map.get t.base.links link_id ≡ Map.get s.base.links link_id)
    pub own :
        (c : ClientSession)
        → Map.get s.client_sessions addr ≡ some c
        → (c.session_id ≡ id → Map.get t.client_sessions addr ≡ none)
          × (c.session_id ≢ id → Map.get t.client_sessions addr ≡ some c)
    pub others :
        (other : SocketAddr)
        → other ≢ addr
        → Map.get t.client_sessions other ≡ Map.get s.client_sessions other
    pub left : (restore_session t.session_store id).0 ≡ none
    pub waits : t.client_sessions ≡ [] → t.base.state ≡ waiting
    pub stays : t.client_sessions ≢ [] → t.base.state ≡ s.base.state

  -- Three moves register the session.
  pub run-register :
      (s : GatewayServer W)
      → run 3 (some marking, s) ≡ (some serving, register s addr writer id now)
  unfolding run advance save insert register insert_session
  run-register s = refl

  abbrev dropped : GatewayServer W → List ℕ → GatewayServer W
  dropped s ids = record s { base = drop_links s.base ids }
