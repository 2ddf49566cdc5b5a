-- ===== src/Metrics.antt =====
-- gateway/metrics.rs: the calls that reach the prometheus crate, newest first. They are dropped
-- until `init_metrics` has registered the collectors. A call keeps the number that the collector
-- is given, as a number before `as f64`; what its `f64` then holds is seen in Gateway/Agreement.
-- Durations are left out.
pub mod Server
use iog.Prelude.{ℕ, Bool, true, List, ◌∷◌, if◌then◌else◌}
use iog.Packet.{PacketType}

-- The `direction` labels.
pub data Direction : Type 0 where
  inbound outbound compressed : Direction

pub data Call : Type 0 where
  packets_total : PacketType → Direction → Call
  bytes_total : ℕ → Direction → Call
  active_connections : ℕ → Call
  packet_processing : PacketType → Call

-- The four `OnceLock`s are set together, behind `METRICS_INITIALIZED`.
pub record Metrics : Type 0 where
  pub initialized : Bool
  pub calls : List Call

unfoldable pub init_metrics : Metrics → Metrics
init_metrics m = record m { initialized = true }

unfoldable pub register : Metrics → Call → Metrics
register m c = if m.initialized then record m { calls = c ∷ m.calls } else m

unfoldable pub inc_packets_total : Metrics → PacketType → Direction → Metrics
unfolding register
inc_packets_total m packet_type direction = register m (packets_total packet_type direction)

unfoldable pub inc_bytes_total : Metrics → ℕ → Direction → Metrics
unfolding register
inc_bytes_total m bytes direction = register m (bytes_total bytes direction)

unfoldable pub set_active_connections : Metrics → ℕ → Metrics
unfolding register
set_active_connections m count = register m (active_connections count)

unfoldable pub observe_packet_processing : Metrics → PacketType → Metrics
unfolding register
observe_packet_processing m packet_type = register m (packet_processing packet_type)
