-- ===== src/Report.antt =====
-- `print_stats` of gateway/client.rs and gateway/server.rs: the figures that are printed. Their
-- layout is left out; the numbers of bytes are printed once more by `format_bytes`, see Format.
use iog.Prelude.{ℕ, none, some, List, [], ◌∷◌, map, length, get_elem?}
use iog.Statistics.{GatewayState, Timestamp}
use iog.SessionStore.{session_count}
use iog.Link
use iog.Link.{Link, ConnectionState}
use iog.Client.{GatewayClient}
use iog.Server.{SocketAddr, ClientSession, GatewayServer}

-- `for (id, link) in links.iter()`, with the link's `get_stats`.
module _ {W : Type 0} where
  unfoldable pub link_lines : List (ℕ × ℕ) → List (Link W) → List (ℕ × ℕ × ℕ × ConnectionState)
  unfolding Link.get_stats
  link_lines [] heap = []
  link_lines ((id, ref) ∷ links) heap =
      let rest = link_lines links heap in
      elim (get_elem? heap ref) [
        | none ↦ rest
        | some l ↦
            let (bytes_in, bytes_out, state) = Link.get_stats l in
            (id, bytes_in, bytes_out, state) ∷ rest
      ]

pub record ClientReport : Type 0 where
  pub state : GatewayState
  pub packets_in : ℕ
  pub packets_out : ℕ
  pub bytes_in : ℕ
  pub bytes_out : ℕ
  pub active_connections : ℕ
  pub links : List (ℕ × ℕ × ConnectionState)
  pub last_activity : Timestamp
  pub keep_alive : Timestamp

pub record ServerReport : Type 0 where
  pub state : GatewayState
  pub since : Timestamp
  pub packets_out : ℕ
  pub packets_in : ℕ
  pub bytes_in : ℕ
  pub bytes_out : ℕ
  pub clients : ℕ
  pub session_count : ℕ
  pub sessions : List (SocketAddr × Timestamp × ℕ)
  pub app_connections : ℕ
  pub links : List (ℕ × ConnectionState × ℕ × ℕ)

-- The client prints what came in over a link only.
abbrev client_line : ℕ × ℕ × ℕ × ConnectionState → ℕ × ℕ × ConnectionState
client_line (id, bytes_in, bytes_out, state) = (id, bytes_in, state)

abbrev server_line : ℕ × ℕ × ℕ × ConnectionState → ℕ × ConnectionState × ℕ × ℕ
server_line (id, bytes_in, bytes_out, state) = (id, state, bytes_in, bytes_out)

abbrev session_line : SocketAddr × ClientSession → SocketAddr × Timestamp × ℕ
session_line (addr, s) = (s.addr, s.connected_at, s.session_id)

module _ {W : Type 0} where
  unfoldable pub of_client : GatewayClient W → ClientReport
  unfolding link_lines
  of_client c = record {
    state = c.base.state;
    packets_in = c.base.statistics.packets_in;
    packets_out = c.base.statistics.packets_out;
    bytes_in = c.base.statistics.bytes_in;
    bytes_out = c.base.statistics.bytes_out;
    active_connections = length c.base.links;
    links = map client_line (link_lines c.base.links c.base.heap);
    last_activity = c.last_activity;
    keep_alive = c.base.keep_alive_stamp;
  }

  unfoldable pub of_server : GatewayServer W → ServerReport
  unfolding link_lines session_count
  of_server s = record {
    state = s.base.state;
    since = s.base.statistics.connection_time;
    packets_out = s.base.statistics.packets_out;
    packets_in = s.base.statistics.packets_in;
    bytes_in = s.base.statistics.bytes_in;
    bytes_out = s.base.statistics.bytes_out;
    clients = length s.client_sessions;
    session_count = session_count s.session_store;
    sessions = map session_line s.client_sessions;
    app_connections = length s.base.links;
    links = map server_line (link_lines s.base.links s.base.heap);
  }
