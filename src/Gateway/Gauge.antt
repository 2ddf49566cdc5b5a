-- ===== src/Gateway/Gauge.antt =====
-- The gauge of active connections follows the registry.
use iog.Prelude.{
  ℕ, ◌+◌, ◌≡◌, true, Option, none, some, List, [], ◌∷◌, arith, length, get_elem?, Option-cases, inl,
  inr,
}
use iog.Transport.{WriteHalf, ReadHalf}
use iog.Packet.{PacketGw, from_bytes, packet_header_size}
use iog.Compression.{Zstd}
use iog.Metrics.{
  Call, active_connections, packets_total, bytes_total, packet_processing, set_active_connections,
  inc_packets_total, inc_bytes_total, observe_packet_processing,
}
use iog.Gateway.{Gateway, add_link, remove_link, close_all_links, update_connections_metric}
use iog.Gateway.Send.{Outgoing, prepare, count_sent, send_gw_packet}
use iog.Gateway.Receive.{
  count_header, count_payload, count_received, borrow, give_back, read_data, finish_read,
  read_gw_packet,
}

-- The last value that the gauge was set to.
abbrev pub gauge : List Call → Option ℕ
gauge [] = none
gauge (active_connections n ∷ calls) = some n
gauge (packets_total t d ∷ calls) = gauge calls
gauge (bytes_total n d ∷ calls) = gauge calls
gauge (packet_processing t ∷ calls) = gauge calls

-- Metrics are on, and the gauge shows the size of the registry.
pub record IsCurrent {W : Type 0} (g : Gateway W) : Type 0 where
  pub on : g.metrics.initialized ≡ true
  pub shown : gauge g.metrics.calls ≡ some (length g.links)

module _ {W : Type 0} where
  update-IsCurrent :
      (g : Gateway W) → g.metrics.initialized ≡ true → IsCurrent (update_connections_metric g)
  unfolding update_connections_metric set_active_connections
  update-IsCurrent g h = ground arith

  count_sent-IsCurrent : (g : Gateway W) (o : Outgoing) → IsCurrent g → IsCurrent (count_sent g o)
  unfolding count_sent inc_packets_total inc_bytes_total observe_packet_processing
  count_sent-IsCurrent g o c = ground arith

  count_received-IsCurrent :
      (g : Gateway W) (p : PacketGw) (n : ℕ) → IsCurrent g → IsCurrent (count_received g p n)
  unfolding count_received inc_packets_total inc_bytes_total observe_packet_processing
  count_received-IsCurrent g p n c = ground arith

-- The operations on a gateway that touch the registry or the metrics.
pub data GatewayOp (W R : Type 0) : Type 0 where
  adds : ℕ → GatewayOp W R
  removes : ℕ → GatewayOp W R
  closes_all : GatewayOp W R
  sends : W → PacketGw → Option (List ℕ) → GatewayOp W R
  reads : R → GatewayOp W R

module _ {W R : Type 0} ⦃io : WriteHalf W⦄ ⦃ir : ReadHalf R⦄ ⦃z : Zstd⦄ where
  unfoldable pub step : Gateway W → GatewayOp W R → Gateway W
  step g (adds ref) = add_link g ref
  step g (removes id) = (remove_link g id).1
  step g closes_all = close_all_links g
  step g (sends w p d) = (send_gw_packet g w p d).2
  step g (reads r) = (read_gw_packet g r).2

  unfoldable pub run : Gateway W → List (GatewayOp W R) → Gateway W
  run g [] = g
  run g (op ∷ ops) = run (step g op) ops

  read_data-IsCurrent :
      (g : Gateway W) (r : R) (p : PacketGw) → IsCurrent g → IsCurrent (read_data g r p).2
  unfolding read_data borrow give_back count_payload
  read_data-IsCurrent g r p c = ground arith

  finish_read-IsCurrent :
      (p : PacketGw) (result : Option (Option (List ℕ) × ℕ) × R × Gateway W)
      → IsCurrent result.2
      → IsCurrent (finish_read p result).2
  unfolding finish_read
  finish_read-IsCurrent p (none, r, g) c = c
  finish_read-IsCurrent p (some (d, n), r, g) c =
      count_received-IsCurrent g p (packet_header_size + n) c

  read_gw_packet-IsCurrent :
      (g : Gateway W) (r : R) → IsCurrent g → IsCurrent (read_gw_packet g r).2
  unfolding read_gw_packet count_header
  read_gw_packet-IsCurrent g r c = elim (Option-cases (ir.read_exact r packet_header_size).0) [
    | inl e ↦ rw (e, read_gw_packet) c
    | inr (bytes, e) ↦ elim (Option-cases (from_bytes bytes)) [
      | inl e' ↦ rw (e, e', read_gw_packet) c
      | inr (p, e') ↦
          rw (e, e', read_gw_packet)
            (finish_read-IsCurrent p _
              (read_data-IsCurrent (count_header g) _ p (record { on = c.on; shown = c.shown })))
    ]
  ]

  step-IsCurrent : (g : Gateway W) (op : GatewayOp W R) → IsCurrent g → IsCurrent (step g op)
  unfolding step add_link remove_link close_all_links send_gw_packet
  step-IsCurrent g (adds ref) c = elim (Option-cases (get_elem? g.heap ref)) [
    | inl e ↦ rw (e, add_link) c
    | inr (l, e) ↦ rw (e, add_link) (update-IsCurrent _ c.on)
  ]
  step-IsCurrent g (removes id) c = update-IsCurrent _ c.on
  step-IsCurrent g closes_all c = update-IsCurrent _ c.on
  step-IsCurrent g (sends w p d) c = ground (arith, count_sent-IsCurrent g (prepare p d) c)
  step-IsCurrent g (reads r) c = read_gw_packet-IsCurrent g r c

  -- Once the gauge of active connections shows the size of the registry, it does so after any
  -- sequence of additions, removals, closings, sends and reads, whatever of them fails.
  pub run-IsCurrent :
      (g : Gateway W) (ops : List (GatewayOp W R)) → IsCurrent g → IsCurrent (run g ops)
  unfolding run
  run-IsCurrent g [] c = c
  run-IsCurrent g (op ∷ ops) c = run-IsCurrent (step g op) ops (step-IsCurrent g op c)
