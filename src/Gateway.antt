-- ===== src/Gateway.antt =====
-- gateway/mod.rs: the state that client and server share, its counters and its registry of links.
-- A `LinkRef` is the place of a link in `heap`: the registry and the forwarding tasks may hold the
-- same link, and a link that left the registry lives on for those who still hold it. The metrics
-- and the buffer pool are process-wide statics that the methods reach.
pub mod Send
pub mod Receive
pub mod RoundTrip
pub mod Counters
pub mod Registry
pub mod Gauge
pub mod Agreement
pub mod Ledger
pub mod Drop
pub mod Frame
pub mod Loops
pub mod Fresh
pub mod Apart
pub mod Progress
use iog.Prelude.{
  ℕ, ◌+◌, ◌%◌, ◌^◌, Bool, true, false, Option, none, some, List, [], ◌∷◌, ◌++◌, length, get_elem?,
  modify, nat_eq,
}
use iog.Bytes.{add_u64}
use iog.Map
use iog.Transport.{WriteHalf}
use iog.Statistics
use iog.Statistics.{GatewayState, ConnectionStatistics, Timestamp}
use iog.Configuration.{Configuration}
use iog.Metrics.{Metrics, set_active_connections}
use iog.BufferPool.{BufferPool}
use iog.Link
use iog.Link.{Link}

pub record Gateway (W : Type 0) : Type 0 where
  pub config : Configuration
  pub state : GatewayState
  pub links : List (ℕ × ℕ)
  pub statistics : ConnectionStatistics
  pub packet_id_counter : ℕ
  pub link_id_counter : ℕ
  pub keep_alive_stamp : Timestamp
  pub heap : List (Link W)
  pub metrics : Metrics
  pub pool : BufferPool

module _ {W : Type 0} where
  -- The statics and the clock come from outside.
  unfoldable pub new : Configuration → Timestamp → Metrics → BufferPool → Gateway W
  unfolding Statistics.new
  new config now metrics pool = record {
    config = config;
    state = Statistics.waiting;
    links = [];
    statistics = Statistics.new;
    packet_id_counter = 0;
    link_id_counter = 1;
    keep_alive_stamp = now;
    heap = [];
    metrics = metrics;
    pool = pool;
  }

  unfoldable pub next_packet_id : Gateway W → ℕ × Gateway W
  unfolding add_u64
  next_packet_id g =
      let counter = add_u64 g.packet_id_counter 1 in
      (counter, record g { packet_id_counter = counter })

  unfoldable pub next_link_id : Gateway W → ℕ × Gateway W
  next_link_id g =
      (g.link_id_counter, record g { link_id_counter = (g.link_id_counter + 1) % 2 ^ 16 })

  unfoldable pub update_connections_metric : Gateway W → Gateway W
  unfolding set_active_connections
  update_connections_metric g = record g {
    metrics = set_active_connections g.metrics (length g.links);
  }

  -- `Arc::new(Mutex::new(link))`
  unfoldable pub alloc : Gateway W → Link W → ℕ × Gateway W
  alloc g l = (length g.heap, record g { heap = g.heap ++ (l ∷ []) })

  -- `link.lock().await` and a method on what it guards.
  unfoldable pub with_link : Gateway W → ℕ → (Link W → Link W) → Gateway W
  with_link g ref f = record g { heap = modify g.heap ref f }

  unfoldable pub add_link : Gateway W → ℕ → Gateway W
  unfolding update_connections_metric
  add_link g ref = elim (get_elem? g.heap ref) [
    | some link ↦
        update_connections_metric (record g { links = Map.insert g.links link.connection_id ref })
    | none ↦ g
  ]

  unfoldable pub remove_link : Gateway W → ℕ → Option ℕ × Gateway W
  unfolding update_connections_metric
  remove_link g id =
      (Map.get g.links id, update_connections_metric (record g { links = Map.remove g.links id }))

  unfoldable pub update_keepalive : Gateway W → Timestamp → Gateway W
  update_keepalive g now = record g { keep_alive_stamp = now }

  unfoldable pub set_state : Gateway W → GatewayState → Gateway W
  set_state g s = record g { state = s }

module _ {W : Type 0} ⦃io : WriteHalf W⦄ where
  -- The body of the loop over `links.drain()`.
  unfoldable pub close_refs : List (ℕ × ℕ) → List (Link W) → List (Link W)
  unfolding Link.close_connection
  close_refs [] heap = heap
  close_refs ((id, ref) ∷ rest) heap = close_refs rest (modify heap ref Link.close_connection)

  unfoldable pub close_all_links : Gateway W → Gateway W
  unfolding close_refs update_connections_metric
  close_all_links g =
      update_connections_metric (record g { links = []; heap = close_refs g.links g.heap })

  -- `Gateway::shutdown`, less its pause of two seconds.
  unfoldable pub shutdown : Gateway W → Gateway W
  unfolding close_all_links
  shutdown g = close_all_links g
