-- ===== src/Server.antt =====
-- gateway/server.rs: the state of the server gateway. A session's `Arc<Mutex<OwnedWriteHalf>>` is
-- a place in `writers`, which holds the write halves of all gateway clients.
pub mod Handshake
pub mod Links
pub mod Cleanup
pub mod Sessions
pub mod Routing
pub mod Exchange
pub mod App
pub mod Traffic
pub mod Listen
pub mod Life
use iog.Prelude.{
  ℕ, ◌≡◌, Bool, true, false, ◌&&◌, ◌↔◌, Option, none, some, List, [], ◌∷◌, ◌++◌, if◌then◌else◌,
  ◌==◌, arith, length, get_elem?, modify, Eq,
}
use iog.Transport.{WriteHalf}
use iog.Packet.{PacketGw}
use iog.Compression.{Zstd}
use iog.Statistics.{Timestamp}
use iog.Configuration.{Configuration}
use iog.Metrics.{Metrics}
use iog.BufferPool.{BufferPool}
use iog.SessionStore
use iog.SessionStore.{SessionStore}
use iog.Gateway
use iog.Gateway.{Gateway}
use iog.Gateway.Send.{send_gw_packet}

-- An IPv6 address carries a flow label and a scope, which count in comparisons.
pub data SocketAddr : Type 0 where
  v4 : ℕ → ℕ → SocketAddr
  v6 : ℕ → ℕ → ℕ → ℕ → SocketAddr

unfoldable pub addr_eq : SocketAddr → SocketAddr → Bool
addr_eq (v4 ip port) (v4 ip' port') = ip == ip' && port == port'
addr_eq (v4 ip port) (v6 ip' port' flow' scope') = false
addr_eq (v6 ip port flow scope) (v4 ip' port') = false
addr_eq (v6 ip port flow scope) (v6 ip' port' flow' scope') =
    ip == ip' && port == port' && flow == flow' && scope == scope'

pub addr_eq_iff : (a b : SocketAddr) → (addr_eq a b ≡ true) ↔ (a ≡ b)
unfolding addr_eq
addr_eq_iff (v4 ip port) (v4 ip' port') = ground arith
addr_eq_iff (v4 ip port) (v6 ip' port' flow' scope') = ground arith
addr_eq_iff (v6 ip port flow scope) (v4 ip' port') = ground arith
addr_eq_iff (v6 ip port flow scope) (v6 ip' port' flow' scope') = ground arith

instance abbrev pub addr_key : Eq SocketAddr
addr_key = record { beq = addr_eq; beq_iff = addr_eq_iff }

pub record ClientSession : Type 0 where
  pub writer : ℕ
  pub addr : SocketAddr
  pub connected_at : Timestamp
  pub session_id : ℕ

pub record GatewayServer (W : Type 0) : Type 0 where
  pub base : Gateway W
  pub client_sessions : List (SocketAddr × ClientSession)
  pub link_clients : List (ℕ × SocketAddr)
  pub session_store : SessionStore
  pub writers : List W

module _ {W : Type 0} where
  unfoldable pub new : Configuration → Timestamp → Metrics → BufferPool → GatewayServer W
  unfolding Gateway.new SessionStore.new
  new config now metrics pool = record {
    base = Gateway.new config now metrics pool;
    client_sessions = [];
    link_clients = [];
    session_store = SessionStore.new;
    writers = [];
  }

module _ {W : Type 0} ⦃io : WriteHalf W⦄ ⦃z : Zstd⦄ where
  -- `base.send_gw_packet` through a shared write half.
  unfoldable pub send_to : GatewayServer W → ℕ → PacketGw → Option (List ℕ) → Bool × GatewayServer W
  send_to s writer p d = elim (get_elem? s.writers writer) [
    | none ↦ (false, s)
    | some w ↦
        let (sent, w', base) = send_gw_packet s.base w p d in
        (sent, record s { base = base; writers = modify s.writers writer (λ x. w') })
  ]
