-- ===== src/Gateway/Receive.antt =====
-- `read_gw_packet` of gateway/mod.rs. `none` is the source's `None`, for which both exchange loops
-- end; the reader and the gateway are the new states.
use iog.Prelude.{ℕ, ◌+◌, Option, none, some, List, if◌then◌else◌, ltb, length}
use iog.Transport.{ReadHalf}
use iog.Statistics
use iog.Statistics.{max_data_size}
use iog.Packet.{PacketGw, from_bytes, is_compressed, packet_header_size}
use iog.Compression.{Zstd, decompress_data}
use iog.Metrics
use iog.BufferPool
use iog.BufferPool.{BufferPool, PooledBuffer}
use iog.Gateway.{Gateway}

module _ {W : Type 0} where
  -- The statistics for a header, then for a payload.
  unfoldable pub count_header : Gateway W → Gateway W
  unfolding Statistics.inc_packets_in Statistics.add_bytes_in
  count_header g = record g {
    statistics =
        Statistics.add_bytes_in (Statistics.inc_packets_in g.statistics) packet_header_size;
  }

  unfoldable pub count_payload : Gateway W → ℕ → Gateway W
  unfolding Statistics.add_bytes_in
  count_payload g n = record g { statistics = Statistics.add_bytes_in g.statistics n }

  unfoldable pub count_received : Gateway W → PacketGw → ℕ → Gateway W
  unfolding Metrics.inc_packets_total Metrics.inc_bytes_total Metrics.observe_packet_processing
  count_received g p total_bytes =
      let m1 = Metrics.inc_packets_total g.metrics p.packet_type Metrics.inbound in
      let m2 = Metrics.inc_bytes_total m1 total_bytes Metrics.inbound in
      record g { metrics = Metrics.observe_packet_processing m2 p.packet_type }

  -- `acquire_buffer`, and the end of the scope of the buffer, resized to `n`. What was read into
  -- it makes no difference to what `drop` gives back.
  unfoldable pub borrow : Gateway W → ℕ → PooledBuffer × Gateway W
  unfolding BufferPool.acquire BufferPool.resize
  borrow g n =
      let (p, pool) = BufferPool.acquire g.pool in
      (record p { buffer = BufferPool.resize p.buffer n 0 }, record g { pool = pool })

  unfoldable pub give_back : Gateway W → PooledBuffer → List ℕ → Gateway W
  unfolding BufferPool.drop
  give_back g p contents = record g { pool = BufferPool.drop g.pool filled }
    where
      filled : PooledBuffer
      filled = record p { buffer = record { bytes = contents; capacity = p.buffer.capacity } }

module _ {W R : Type 0} where
  -- The metrics and the result, once the payload is there.
  unfoldable pub finish_read :
      PacketGw
      → Option (Option (List ℕ) × ℕ) × R × Gateway W
      → Option (PacketGw × Option (List ℕ)) × R × Gateway W
  unfolding count_received
  finish_read p (none, r', g') = (none, r', g')
  finish_read p (some (d, n), r', g') =
      (some (p, d), r', count_received g' p (packet_header_size + n))

module _ {W R : Type 0} ⦃io : ReadHalf R⦄ ⦃z : Zstd⦄ where
  -- The value of `let data = if packet.data_size > 0 { … } else { None }`, and the bytes read.
  unfoldable pub read_data : Gateway W → R → PacketGw → Option (Option (List ℕ) × ℕ) × R × Gateway W
  unfolding borrow give_back count_payload is_compressed decompress_data
  read_data g r p =
      let n = p.data_size in
      let (buffer, g1) = borrow g n in
      let (raw, r') = io.read_exact r n in
      let full = elim raw as (λ x. Option (Option (List ℕ) × ℕ) × R × Gateway W) [
        | none ↦ (none, r', give_back g1 buffer buffer.buffer.bytes)
        | some bytes ↦ elim (decompress_data bytes (is_compressed p)) [
          | some d ↦ (
            some (some d, length bytes),
            r',
            give_back (count_payload g1 (length bytes)) buffer bytes,
          )
          | none ↦ (none, r', give_back (count_payload g1 (length bytes)) buffer bytes)
        ]
      ] in
      if ltb 0 n then if ltb max_data_size n then (none, r, g) else full else (some (none, 0), r, g)

  unfoldable pub read_gw_packet :
      Gateway W → R → Option (PacketGw × Option (List ℕ)) × R × Gateway W
  unfolding from_bytes count_header finish_read read_data
  read_gw_packet g r =
      let (header, r1) = io.read_exact r packet_header_size in
      elim header [
        | none ↦ (none, r1, g)
        | some bytes ↦ elim (from_bytes bytes) [
          | none ↦ (none, r1, g)
          | some p ↦ finish_read p (read_data (count_header g) r1 p)
        ]
      ]
