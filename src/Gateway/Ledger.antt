-- ===== src/Gateway/Ledger.antt =====
-- What the statistics and the metrics of a gateway have counted after any operations.
use iog.Prelude.{
  ℕ, ◌+◌, ◌^◌, ◌<◌, ◌≡◌, Bool, true, List, [], ◌∷◌, arith, refl, get_elem?, Option-cases, inl, inr,
}
use iog.Transport.{WriteHalf, WriteLaws, ReadHalf}
use iog.Packet.{PacketType}
use iog.Compression.{Zstd}
use iog.Gateway.{Gateway, add_link, remove_link, close_all_links}
use iog.Gateway.Gauge.{GatewayOp, adds, removes, closes_all, sends, reads, step, run}
use iog.Gateway.Agreement.{
  packets_sent, bytes_sent, Counts, IsUncounted, update-IsUncounted, read_gw_packet-IsUncounted,
  any_type, same_type, IsUncounted-Counts, one_sent, bytes_written, send_gw_packet-Counts,
}

module _ {W : Type 0} (t : PacketType) where
  add_link-IsUncounted : (g : Gateway W) (ref : ℕ) → IsUncounted t g (add_link g ref)
  unfolding add_link
  add_link-IsUncounted g ref = elim (Option-cases (get_elem? g.heap ref)) [
    | inl e ↦ rw (e, add_link) (ground arith)
    | inr (l, e) ↦ rw (e, add_link) (update-IsUncounted t g _ refl refl)
  ]

module _ {W R : Type 0} ⦃io : WriteHalf W⦄ ⦃ir : ReadHalf R⦄ ⦃z : Zstd⦄
    (laws : WriteLaws W io) where
  -- The packets that an operation sends, of the types that the test picks.
  abbrev pub packets_of : (PacketType → Bool) → Gateway W → GatewayOp W R → ℕ
  packets_of picks g (sends w p d) = one_sent laws picks g w p d
  packets_of picks g (adds ref) = 0
  packets_of picks g (removes id) = 0
  packets_of picks g closes_all = 0
  packets_of picks g (reads r) = 0

  -- The bytes of the packet that an operation sends, as they reach the peer.
  abbrev pub bytes_of : Gateway W → GatewayOp W R → ℕ
  bytes_of g (sends w p d) = bytes_written laws g w p d
  bytes_of g (adds ref) = 0
  bytes_of g (removes id) = 0
  bytes_of g closes_all = 0
  bytes_of g (reads r) = 0

  abbrev pub all_packets : (PacketType → Bool) → Gateway W → List (GatewayOp W R) → ℕ
  all_packets picks g [] = 0
  all_packets picks g (op ∷ ops) = packets_of picks g op + all_packets picks (step g op) ops

  abbrev pub all_bytes : Gateway W → List (GatewayOp W R) → ℕ
  all_bytes g [] = 0
  all_bytes g (op ∷ ops) = bytes_of g op + all_bytes (step g op) ops

  step-Counts :
      (t : PacketType) (g : Gateway W) (op : GatewayOp W R)
      → g.metrics.initialized ≡ true
      → g.statistics.packets_out < 2 ^ 64
      → g.statistics.bytes_out < 2 ^ 64
      → packets_sent t g.metrics.calls + packets_of (same_type t) g op < 2 ^ 53
      → bytes_sent g.metrics.calls + bytes_of g op < 2 ^ 53
      → Counts t g
          (step g op)
          (packets_of any_type g op)
          (packets_of (same_type t) g op)
          (bytes_of g op)
  unfolding step remove_link close_all_links
  step-Counts t g (adds ref) on a b few few' =
      IsUncounted-Counts t g _ on a b (add_link-IsUncounted t g ref)
  step-Counts t g (removes id) on a b few few' =
      IsUncounted-Counts t g _ on a b (update-IsUncounted t g _ refl refl)
  step-Counts t g closes_all on a b few few' =
      IsUncounted-Counts t g _ on a b (update-IsUncounted t g _ refl refl)
  step-Counts t g (sends w p d) on a b few few' =
      send_gw_packet-Counts laws t g w p d on a b few few'
  step-Counts t g (reads r) on a b few few' =
      IsUncounted-Counts t g _ on a b (read_gw_packet-IsUncounted t g r)

  -- With metrics on, statistics of 64 bits and a writer that keeps its laws, and as long as the
  -- counters of the metrics, which are `f64`, stay below 2^53: after any sequence of additions and
  -- removals of links, sends and reads, the number of packets that were sent without an error is
  -- added to `packets_out`, and the number of bytes that they put on the wire, headers and
  -- compressed payloads, to `bytes_out`, both modulo 2^64; the metrics' counter of packets of any
  -- one type has grown by those of that type, and their counter of bytes by all of these bytes. A
  -- send that fails counts for nothing.
  pub run-Counts :
      (t : PacketType) (g : Gateway W) (ops : List (GatewayOp W R))
      → g.metrics.initialized ≡ true
      → g.statistics.packets_out < 2 ^ 64
      → g.statistics.bytes_out < 2 ^ 64
      → packets_sent t g.metrics.calls + all_packets (same_type t) g ops < 2 ^ 53
      → bytes_sent g.metrics.calls + all_bytes g ops < 2 ^ 53
      → Counts t g
          (run g ops)
          (all_packets any_type g ops)
          (all_packets (same_type t) g ops)
          (all_bytes g ops)
  unfolding run
  run-Counts t g [] on a b few few' = ground arith
  run-Counts t g (op ∷ ops) on a b few few' =
      let c = step-Counts t g op on a b (omega arith) (omega arith) in
      let a' : (step g op).statistics.packets_out < 2 ^ 64 = ground (arith, c.packets_out) in
      let b' : (step g op).statistics.bytes_out < 2 ^ 64 = ground (arith, c.bytes_out) in
      let rest =
        run-Counts t (step g op) ops c.on a' b' (ground (arith, c.packets_total_out))
          (ground (arith, c.bytes_total_out)) in
      ground (
        arith, c.packets_out, c.bytes_out, c.packets_total_out, c.bytes_total_out, rest.on,
        rest.packets_out, rest.bytes_out, rest.packets_total_out, rest.bytes_total_out,
      )
