-- ===== src/Server/Life.antt =====
-- The life of a client's connection in gateway/server.rs once it is authenticated, from one lock
-- to the next: the end of `handle_gateway_connection`, the loop, and `cleanup_client`. Between two
-- of these points any other task may run.
pub mod Invariant
pub mod Moves
pub mod Points
pub mod Settled
pub mod Alone
use iog.Prelude.{
  ℕ, ◌≡◌, Bool, true, false, Option, none, some, List, [], ◌∷◌, if◌then◌else◌, nat_eq,
}
use iog.Map
use iog.Transport.{WriteHalf}
use iog.Statistics.{Timestamp, waiting}
use iog.SessionStore.{save_session, restore_session}
use iog.Gateway
use iog.Gateway.Drop.{drop_link}
use iog.Server.{SocketAddr, addr_key, ClientSession, GatewayServer}
use iog.Server.Links.{owned_link_ids, remove_routes, is_current, is_empty}
use iog.Server.Sessions.{close_previous, mark_connected}

-- What the task does next.
pub data Point : Type 0 where
  marking saving inserting serving collecting : Point
  dropping : List ℕ → Point
  forgetting restoring checking idling : Point

pub record Task : Type 0 where
  pub addr : SocketAddr
  pub writer : ℕ
  pub point : Point

module _ {W : Type 0} where
  -- `session_store.save_session(session_id, Vec::new())`
  unfoldable pub save : GatewayServer W → ℕ → GatewayServer W
  unfolding save_session
  save s session_id = record s { session_store = save_session s.session_store session_id [] }

  -- `client_sessions.write().await.insert(…)`
  unfoldable pub insert : GatewayServer W → SocketAddr → ℕ → ℕ → Timestamp → GatewayServer W
  insert s addr writer session_id now = record s {
    client_sessions =
        Map.insert s.client_sessions addr
          (record { writer = writer; addr = addr; connected_at = now; session_id = session_id });
  }

  -- The routes are collected and removed under one lock.
  unfoldable pub collect : GatewayServer W → SocketAddr → List ℕ × GatewayServer W
  unfolding owned_link_ids remove_routes
  collect s addr =
      let owned = owned_link_ids s.link_clients addr in
      (owned, record s { link_clients = remove_routes s.link_clients owned })

  -- The session is forgotten if no newer one has replaced it.
  unfoldable pub forget : GatewayServer W → SocketAddr → ℕ → GatewayServer W
  unfolding is_current
  forget s addr session_id = record s {
    client_sessions =
        if is_current (Map.get s.client_sessions addr) session_id
        then Map.remove s.client_sessions addr
        else s.client_sessions;
  }

  unfoldable pub restore : GatewayServer W → ℕ → GatewayServer W
  unfolding restore_session
  restore s session_id = record s { session_store = (restore_session s.session_store session_id).1 }

module _ {W : Type 0} ⦃io : WriteHalf W⦄ where
  -- What a task does at its point, and where it is then; `none` is its end.
  unfoldable pub advance :
      GatewayServer W → ℕ → SocketAddr → ℕ → Timestamp → Point → Option Point × GatewayServer W
  unfolding mark_connected save insert collect drop_link forget restore Gateway.set_state
  advance s id addr writer now marking = (some saving, mark_connected s)
  advance s id addr writer now saving = (some inserting, save s id)
  advance s id addr writer now inserting = (some serving, insert s addr writer id now)
  advance s id addr writer now serving = (some collecting, s)
  advance s id addr writer now collecting =
      let (owned, s') = collect s addr in (some (dropping owned), s')
  advance s id addr writer now (dropping []) = (some forgetting, s)
  advance s id addr writer now (dropping (link_id ∷ ids)) =
      (some (dropping ids), record s { base = drop_link s.base link_id })
  advance s id addr writer now forgetting = (some restoring, forget s addr id)
  advance s id addr writer now restoring = (some checking, restore s id)
  advance s id addr writer now checking =
      (if is_empty s.client_sessions then some idling else none, s)
  advance s id addr writer now idling = (none, record s { base = Gateway.set_state s.base waiting })

-- The server and its tasks, by session.
pub record Lives (W : Type 0) : Type 0 where
  pub server : GatewayServer W
  pub tasks : List (ℕ × Task)

unfoldable pub set_point : List (ℕ × Task) → ℕ → Task → Option Point → List (ℕ × Task)
set_point tasks id t none = Map.remove tasks id
set_point tasks id t (some point) = Map.insert tasks id (record t { point = point })

module _ {W : Type 0} ⦃io : WriteHalf W⦄ where
  -- A task does what stands at its point.
  unfoldable pub move : Lives W → ℕ → Task → Timestamp → Lives W
  unfolding advance set_point
  move x id t now =
      let (point, s) = advance x.server id t.addr t.writer now t.point in
      record { server = s; tasks = set_point x.tasks id t point }

  -- A connection shuts down the one before it from its address; it is authenticated, and gets an
  -- identifier that no other task has; its task moves; and any task does something that leaves
  -- sessions and store alone.
  pub data Step : Lives W → Lives W → Type 0 where
    connects :
        (x : Lives W) (addr : SocketAddr)
        → Step x (record x { server = close_previous x.server addr })
    begins :
        (x : Lives W) (id writer : ℕ) (addr : SocketAddr)
        → Map.get x.tasks id ≡ none
        → Step x (record x {
          tasks = Map.insert x.tasks id (record { addr = addr; writer = writer; point = marking });
        })
    moves :
        (x : Lives W) (id : ℕ) (t : Task) (now : Timestamp)
        → Map.get x.tasks id ≡ some t
        → Step x (move x id t now)
    others :
        (x : Lives W) (s : GatewayServer W)
        → s.client_sessions ≡ x.server.client_sessions
        → s.session_store ≡ x.server.session_store
        → Step x (record x { server = s })

  pub data Reach (x : Lives W) : Lives W → Type 0 where
    here : Reach x x
    next : {y t : Lives W} → Reach x y → Step y t → Reach x t
