-- ===== src/Gateway/Agreement.antt =====
-- What a gateway sends, and what its statistics and its metrics count.
use iog.Prelude.{
  ℕ, ◌+◌, ◌-◌, ◌%◌, ◌^◌, ◌==◌, ◌<◌, ◌≡◌, refl, ap, subst, Bool, true, Option, none, some, List, [],
  ◌∷◌, arith, if◌then◌else◌, length, length-append, Option-cases, Bool-cases, inl, inr,
}
use iog.Bytes.{add_u64}
use iog.Transport.{WriteHalf, WriteLaws, ReadHalf}
use iog.Statistics
use iog.Packet.{PacketGw, PacketType, type_code, to_bytes, from_bytes, packet_header_size, set_flag}
use iog.Packet.Header.{length-to_bytes}
use iog.Compression.{Zstd}
use iog.Format.{to_f64}
use iog.Format.Within.{to_f64_exact}
use iog.Metrics.{
  Call, inbound, outbound, compressed, active_connections, packets_total, bytes_total,
  packet_processing, set_active_connections, inc_packets_total, inc_bytes_total,
  observe_packet_processing,
}
use iog.Gateway.{Gateway, update_connections_metric}
use iog.Gateway.Send.{Outgoing, prepare, write_packet, count_sent, send_gw_packet, payload_len}
use iog.Gateway.RoundTrip.{payload_bytes, wire, write_packet-sent}
use iog.Gateway.Receive.{
  count_header, count_payload, count_received, borrow, give_back, read_data, finish_read,
  read_gw_packet,
}

-- The counter of packets of a type under the label `out`, a `f64` that grows by one.
abbrev pub packets_sent : PacketType → List Call → ℕ
packets_sent t [] = 0
packets_sent t (packets_total t' outbound ∷ calls) =
    let n = packets_sent t calls in if type_code t' == type_code t then to_f64 (n + 1) else n
packets_sent t (packets_total t' inbound ∷ calls) = packets_sent t calls
packets_sent t (packets_total t' compressed ∷ calls) = packets_sent t calls
packets_sent t (bytes_total n d ∷ calls) = packets_sent t calls
packets_sent t (active_connections n ∷ calls) = packets_sent t calls
packets_sent t (packet_processing t' ∷ calls) = packets_sent t calls

-- The counter of bytes under the label `out`: `bytes as f64` is added to a `f64`.
abbrev pub bytes_sent : List Call → ℕ
bytes_sent [] = 0
bytes_sent (bytes_total n outbound ∷ calls) = to_f64 (bytes_sent calls + to_f64 n)
bytes_sent (bytes_total n inbound ∷ calls) = bytes_sent calls
bytes_sent (bytes_total n compressed ∷ calls) = bytes_sent calls
bytes_sent (packets_total t d ∷ calls) = bytes_sent calls
bytes_sent (active_connections n ∷ calls) = bytes_sent calls
bytes_sent (packet_processing t ∷ calls) = bytes_sent calls

-- Metrics are on, and the counters have grown by so many packets, packets of the type, and bytes.
pub record Counts {W : Type 0} (t : PacketType) (g g' : Gateway W) (packets typed bytes : ℕ)
    : Type 0 where
  pub on : g'.metrics.initialized ≡ true
  pub packets_out : g'.statistics.packets_out ≡ (g.statistics.packets_out + packets) % 2 ^ 64
  pub bytes_out : g'.statistics.bytes_out ≡ (g.statistics.bytes_out + bytes) % 2 ^ 64
  pub packets_total_out : packets_sent t g'.metrics.calls ≡ packets_sent t g.metrics.calls + typed
  pub bytes_total_out : bytes_sent g'.metrics.calls ≡ bytes_sent g.metrics.calls + bytes

-- Nothing is counted: the statistics of what is sent and the two counters stay.
pub record IsUncounted {W : Type 0} (t : PacketType) (g g' : Gateway W) : Type 0 where
  pub on : g'.metrics.initialized ≡ g.metrics.initialized
  pub packets_out : g'.statistics.packets_out ≡ g.statistics.packets_out
  pub bytes_out : g'.statistics.bytes_out ≡ g.statistics.bytes_out
  pub packets_total_out : packets_sent t g'.metrics.calls ≡ packets_sent t g.metrics.calls
  pub bytes_total_out : bytes_sent g'.metrics.calls ≡ bytes_sent g.metrics.calls

module _ {W : Type 0} (t : PacketType) where
  pub update-IsUncounted :
      (g g' : Gateway W)
      → g'.statistics ≡ g.statistics
      → g'.metrics ≡ g.metrics
      → IsUncounted t g (update_connections_metric g')
  unfolding update_connections_metric set_active_connections
  update-IsUncounted g g' e e' = rw (e, e') (ground arith)

  count_received-IsUncounted :
      (g g' : Gateway W) (p : PacketGw) (n : ℕ)
      → IsUncounted t g g'
      → IsUncounted t g (count_received g' p n)
  unfolding count_received inc_packets_total inc_bytes_total observe_packet_processing
  count_received-IsUncounted g g' p n c = ground arith

module _ {W R : Type 0} ⦃io : WriteHalf W⦄ ⦃ir : ReadHalf R⦄ ⦃z : Zstd⦄ (t : PacketType) where
  read_data-IsUncounted :
      (g : Gateway W) (r : R) (p : PacketGw) → IsUncounted t g (read_data g r p).2
  unfolding read_data borrow give_back count_payload Statistics.add_bytes_in
  read_data-IsUncounted g r p = ground arith

  finish_read-IsUncounted :
      (g : Gateway W) (p : PacketGw) (result : Option (Option (List ℕ) × ℕ) × R × Gateway W)
      → IsUncounted t g result.2
      → IsUncounted t g (finish_read p result).2
  unfolding finish_read
  finish_read-IsUncounted g p (none, r, g') c = c
  finish_read-IsUncounted g p (some (d, n), r, g') c =
      count_received-IsUncounted t g g' p (packet_header_size + n) c

  pub read_gw_packet-IsUncounted : (g : Gateway W) (r : R) → IsUncounted t g (read_gw_packet g r).2
  unfolding read_gw_packet count_header Statistics.inc_packets_in Statistics.add_bytes_in
  read_gw_packet-IsUncounted g r = elim (Option-cases (ir.read_exact r packet_header_size).0) [
    | inl e ↦ rw (e, read_gw_packet) (ground arith)
    | inr (bytes, e) ↦ elim (Option-cases (from_bytes bytes)) [
      | inl e' ↦ rw (e, e', read_gw_packet) (ground arith)
      | inr (p, e') ↦
          let r' = (ir.read_exact r packet_header_size).1 in
          let c = read_data-IsUncounted (count_header g) r' p in
          rw (e, e', read_gw_packet)
            (finish_read-IsUncounted g p (read_data (count_header g) r' p) (record {
              on = c.on;
              packets_out = c.packets_out;
              bytes_out = c.bytes_out;
              packets_total_out = c.packets_total_out;
              bytes_total_out = c.bytes_total_out;
            }))
    ]
  ]

-- The packet's type is sent as it is.
prepare-packet_type :
    ⦃z : Zstd⦄ (p : PacketGw) (d : Option (List ℕ))
    → (prepare p d).packet.packet_type ≡ p.packet_type
unfolding prepare set_flag
prepare-packet_type p none = refl
prepare-packet_type p (some d) = ground arith

length-payload_bytes : (d : Option (List ℕ)) → length (payload_bytes d) ≡ payload_len d
length-payload_bytes none = refl
length-payload_bytes (some d) = refl

length-wire : (o : Outgoing) → length (wire o) ≡ packet_header_size + payload_len o.payload
length-wire o =
    let both = length-append (to_bytes o.packet) (payload_bytes o.payload) in
    omega (arith, both, length-to_bytes o.packet, length-payload_bytes o.payload)

-- Below 2^53 a `f64` adds exactly.
bytes-exact : (n m : ℕ) → n + m < 2 ^ 53 → to_f64 (n + to_f64 m) ≡ n + m
bytes-exact n m h =
    let small : m < 2 ^ 53 = omega arith in rw (to_f64_exact m small) (to_f64_exact (n + m) h)

abbrev pub one_if : Bool → ℕ
one_if b = if b then 1 else 0

module _ {W : Type 0} (t : PacketType) where
  count_sent-Counts :
      (g : Gateway W) (o : Outgoing)
      → let n = packet_header_size + payload_len o.payload in
        let typed = one_if (type_code o.packet.packet_type == type_code t) in
        g.metrics.initialized ≡ true
        → packets_sent t g.metrics.calls + typed < 2 ^ 53
        → bytes_sent g.metrics.calls + n < 2 ^ 53
        → Counts t g (count_sent g o) 1 typed n
  unfolding count_sent inc_packets_total inc_bytes_total observe_packet_processing
      Statistics.inc_packets_out Statistics.add_bytes_out add_u64
  count_sent-Counts g o on few small =
      let n = packet_header_size + payload_len o.payload in
      let exact = bytes-exact (bytes_sent g.metrics.calls) n small in
      let exact_one = to_f64_exact (packets_sent t g.metrics.calls + 1) in
      ground (arith, exact, exact_one)

abbrev pub any_type : PacketType → Bool
any_type t = true

abbrev pub same_type : PacketType → PacketType → Bool
same_type t t' = type_code t' == type_code t

pub IsUncounted-Counts :
    {W : Type 0} (t : PacketType) (g g' : Gateway W)
    → g.metrics.initialized ≡ true
    → g.statistics.packets_out < 2 ^ 64
    → g.statistics.bytes_out < 2 ^ 64
    → IsUncounted t g g'
    → Counts t g g' 0 0 0
IsUncounted-Counts t g g' on small small' c = ground arith

module _ {W : Type 0} ⦃io : WriteHalf W⦄ ⦃z : Zstd⦄ (laws : WriteLaws W io) where
  -- One for a packet that is sent, if the test picks its type.
  abbrev pub one_sent : (PacketType → Bool) → Gateway W → W → PacketGw → Option (List ℕ) → ℕ
  one_sent picks g w p d = if (send_gw_packet g w p d).0 then one_if (picks p.packet_type) else 0

  -- By how much the bytes handed to the peer grow, for a packet that is sent.
  abbrev pub bytes_written : Gateway W → W → PacketGw → Option (List ℕ) → ℕ
  bytes_written g w p d =
      if (send_gw_packet g w p d).0
      then length (laws.sent (send_gw_packet g w p d).1) - length (laws.sent w)
      else 0

  pub send_gw_packet-Counts :
      (t : PacketType) (g : Gateway W) (w : W) (p : PacketGw) (d : Option (List ℕ))
      → g.metrics.initialized ≡ true
      → g.statistics.packets_out < 2 ^ 64
      → g.statistics.bytes_out < 2 ^ 64
      → packets_sent t g.metrics.calls + one_sent (same_type t) g w p d < 2 ^ 53
      → bytes_sent g.metrics.calls + bytes_written g w p d < 2 ^ 53
      → Counts t g
          (send_gw_packet g w p d).2
          (one_sent any_type g w p d)
          (one_sent (same_type t) g w p d)
          (bytes_written g w p d)
  unfolding send_gw_packet
  send_gw_packet-Counts t g w p d on small small' few few' =
      let o = prepare p d in
      let n = packet_header_size + payload_len o.payload in
      elim (Bool-cases (write_packet w o).0) [
        | inl e ↦
            let written = ap (length {A = ℕ}) (write_packet-sent laws w o e) in
            let both = length-append (laws.sent w) (wire o) in
            let grown : length (laws.sent (write_packet w o).1) - length (laws.sent w) ≡ n =
              omega (arith, written, both, length-wire o) in
            let few0 = rw e at few in
            let few1 = rw (e, grown) at few' in
            let kept = prepare-packet_type p d in
            rw (e, grown)
              (subst (λ t'. Counts t g (count_sent g o) 1 (one_if (same_type t t')) n) kept
                (count_sent-Counts t g o on (rw kept few0) few1))
        | inr e ↦ rw e (ground arith)
      ]
