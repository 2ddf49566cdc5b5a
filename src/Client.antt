-- ===== src/Client.antt =====
-- gateway/client.rs: the state of the client gateway. Write halves of connections to the server
-- stand in `writers`; `gw_reader` and `gw_writer` name the halves of the current connection. The
-- tasks read through a reader of their own, so `gw_reader` is only set and cleared.
pub mod Handshake
pub mod Connection
pub mod Exchange
pub mod App
pub mod Traffic
pub mod Lifecycle
use iog.Prelude.{ℕ, Bool, false, Option, none, some, List, [], get_elem?, modify}
use iog.Transport.{WriteHalf}
use iog.Packet.{PacketGw}
use iog.Compression.{Zstd}
use iog.Statistics.{Timestamp}
use iog.Configuration.{Configuration}
use iog.Metrics.{Metrics}
use iog.BufferPool.{BufferPool}
use iog.Gateway
use iog.Gateway.{Gateway, next_packet_id}
use iog.Gateway.Send.{send_gw_packet}

pub record GatewayClient (W : Type 0) : Type 0 where
  pub base : Gateway W
  pub gw_reader : Option ℕ
  pub gw_writer : Option ℕ
  pub last_activity : Timestamp
  pub writers : List W

module _ {W : Type 0} where
  unfoldable pub new : Configuration → Timestamp → Metrics → BufferPool → GatewayClient W
  unfolding Gateway.new
  new config now metrics pool = record {
    base = Gateway.new config now metrics pool;
    gw_reader = none;
    gw_writer = none;
    last_activity = now;
    writers = [];
  }

module _ {W : Type 0} ⦃io : WriteHalf W⦄ ⦃z : Zstd⦄ where
  -- `base.send_gw_packet` through a shared write half.
  unfoldable pub send_to : GatewayClient W → ℕ → PacketGw → Option (List ℕ) → Bool × GatewayClient W
  send_to c writer p d = elim (get_elem? c.writers writer) [
    | none ↦ (false, c)
    | some w ↦
        let (sent, w', base) = send_gw_packet c.base w p d in
        (sent, record c { base = base; writers = modify c.writers writer (λ x. w') })
  ]

  -- A control packet under a fresh identifier.
  unfoldable pub send_control : GatewayClient W → ℕ → (ℕ → PacketGw) → Bool × GatewayClient W
  unfolding send_to
  send_control c writer packet =
      let (packet_id, base) = next_packet_id c.base in
      send_to (record c { base = base }) writer (packet packet_id) none
