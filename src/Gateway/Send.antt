-- ===== src/Gateway/Send.antt =====
-- `send_gw_packet` and `send_pong` of gateway/mod.rs.
use iog.Prelude.{ℕ, ◌+◌, Bool, true, false, Option, none, some, List, if◌then◌else◌, leb, length}
use iog.Bytes.{as_u16}
use iog.Transport.{WriteHalf}
use iog.Statistics
use iog.Packet
use iog.Packet.{PacketGw, PacketType, to_bytes, set_flag, flag_compressed, packet_header_size}
use iog.Compression.{Zstd, compress_data, min_compress_size}
use iog.Metrics
use iog.Metrics.{Metrics}
use iog.Gateway.{Gateway, next_packet_id}

-- The header to send, the payload and whether it is compressed.
pub record Outgoing : Type 0 where
  pub packet : PacketGw
  pub payload : Option (List ℕ)
  pub compressed_flag : Bool

module _ ⦃z : Zstd⦄ where
  unfoldable pub prepare : PacketGw → Option (List ℕ) → Outgoing
  unfolding set_flag compress_data
  prepare packet none = record { packet = packet; payload = none; compressed_flag = false }
  prepare packet (some d) =
      let result = compress_data d in
      if leb min_compress_size (length d)
      then if result.is_compressed
        then record {
          packet = record (set_flag packet flag_compressed) {
            data_size = as_u16 (length result.bytes);
          };
          payload = some result.bytes;
          compressed_flag = true;
        }
        else record { packet = packet; payload = some d; compressed_flag = false }
      else record { packet = packet; payload = some d; compressed_flag = false }

abbrev pub payload_len : Option (List ℕ) → ℕ
payload_len none = 0
payload_len (some p) = length p

-- `write_all` of the header and then of the payload; an error of the first returns at once.
module _ {W : Type 0} ⦃io : WriteHalf W⦄ where
  unfoldable pub write_payload : W → Option (List ℕ) → Bool × W
  write_payload w none = (true, w)
  write_payload w (some p) = io.write_all w p

  unfoldable pub write_packet : W → Outgoing → Bool × W
  unfolding write_payload
  write_packet w o =
      let (header_ok, w') = io.write_all w (to_bytes o.packet) in
      if header_ok then write_payload w' o.payload else (false, w')

module _ {W : Type 0} where
  -- What follows the writes: the statistics and the metrics.
  unfoldable pub count_sent : Gateway W → Outgoing → Gateway W
  unfolding Statistics.inc_packets_out Statistics.add_bytes_out Metrics.inc_packets_total
      Metrics.inc_bytes_total Metrics.observe_packet_processing
  count_sent g o =
      let total_bytes = packet_header_size + payload_len o.payload in
      let t = o.packet.packet_type in
      let m1 = Metrics.inc_packets_total g.metrics t Metrics.outbound in
      let m2 = Metrics.inc_bytes_total m1 total_bytes Metrics.outbound in
      let m3 =
        if o.compressed_flag then Metrics.inc_packets_total m2 t Metrics.compressed else m2 in
      record g {
        statistics = Statistics.add_bytes_out (Statistics.inc_packets_out g.statistics) total_bytes;
        metrics = Metrics.observe_packet_processing m3 t;
      }

-- The result is `true` for `Ok(())`; the writer and the gateway are the new states.
module _ {W : Type 0} ⦃io : WriteHalf W⦄ ⦃z : Zstd⦄ where
  unfoldable pub send_gw_packet : Gateway W → W → PacketGw → Option (List ℕ) → Bool × W × Gateway W
  unfolding prepare write_packet count_sent
  send_gw_packet g w packet d =
      let o = prepare packet d in
      let (sent, w') = write_packet w o in
      if sent then (true, w', count_sent g o) else (false, w', g)

  unfoldable pub send_pong : Gateway W → W → W × Gateway W
  unfolding next_packet_id Packet.new send_gw_packet
  send_pong g w =
      let (pong_id, g') = next_packet_id g in
      let (sent, w', g'') = send_gw_packet g' w (Packet.new Packet.pong pong_id 0 0) none in
      (w', g'')
