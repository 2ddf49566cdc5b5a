-- ===== src/Statistics.antt =====
-- gateway/consts.rs: constants, the gateway's state and the traffic counters.
use iog.Prelude.{ℕ}
use iog.Bytes.{add_u64}

abbrev pub buffer_size : ℕ
buffer_size = 16384

abbrev pub gw_ping_period : ℕ
gw_ping_period = 30

abbrev pub gw_reconnect_timeout : ℕ
gw_reconnect_timeout = 5000

abbrev pub gw_readiness_timeout : ℕ
gw_readiness_timeout = 5000

abbrev pub max_data_size : ℕ
max_data_size = 10_485_760

pub data GatewayState : Type 0 where
  waiting processing connected : GatewayState

-- An `i64` of seconds since the epoch.
pub data Timestamp : Type 0 where
  pos : ℕ → Timestamp
  negsuc : ℕ → Timestamp

pub record ConnectionStatistics : Type 0 where
  pub packets_in : ℕ
  pub packets_out : ℕ
  pub bytes_in : ℕ
  pub bytes_out : ℕ
  pub connection_time : Timestamp

unfoldable pub new : ConnectionStatistics
new = record {
  packets_in = 0;
  packets_out = 0;
  bytes_in = 0;
  bytes_out = 0;
  connection_time = pos 0;
}

unfoldable pub inc_packets_in : ConnectionStatistics → ConnectionStatistics
inc_packets_in s = record s { packets_in = add_u64 s.packets_in 1 }

unfoldable pub inc_packets_out : ConnectionStatistics → ConnectionStatistics
inc_packets_out s = record s { packets_out = add_u64 s.packets_out 1 }

unfoldable pub add_bytes_in : ConnectionStatistics → ℕ → ConnectionStatistics
add_bytes_in s bytes = record s { bytes_in = add_u64 s.bytes_in bytes }

unfoldable pub add_bytes_out : ConnectionStatistics → ℕ → ConnectionStatistics
add_bytes_out s bytes = record s { bytes_out = add_u64 s.bytes_out bytes }
