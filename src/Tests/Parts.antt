-- ===== src/Tests/Parts.antt =====
-- The theorems on links, buffers, counters and settings, on concrete states.
use iog.Prelude.{
  ℕ, ◌^◌, ◌≤◌, ◌<◌, ◌≡◌, ◌≢◌, ◌↔◌, refl, true, false, some, List, [], ◌∷◌, arith, length, All,
  get_elem?, nat_eq,
}
use iog.Packet.{regular, to_bytes, type_code}
use iog.Bytes.{to_le_bytes}
use iog.Compression.{compress_data}
use iog.BufferPool.{acquire, default, pool_size}
use iog.BufferPool.Clean.{PoolOp, acquires, drops, IsBlank, run-acquire}
use iog.BufferPool.Clean
use iog.BufferPool.Growth
use iog.BufferPool.Growth.{LentOp, takes, returns, largest, run-capacity}
use iog.Link
use iog.Link.{Link, connected, waiting, disconnected}
use iog.Link.Silence
use iog.Link.Silence.{LinkOp, run-silent, send_packet-sent}
use iog.Map
use iog.Gateway
use iog.Gateway.{Gateway, next_packet_id, next_link_id, alloc, add_link, close_all_links}
use iog.Gateway.Counters.{after_links, next_link_id_cycle}
use iog.Gateway.Agreement.{Counts}
use iog.Gateway.Ledger.{run-Counts}
use iog.Gateway.Send.{send_gw_packet, prepare, write_packet, write_payload}
use iog.Gateway.Gauge
use iog.Gateway.Gauge.{IsCurrent, GatewayOp, run-IsCurrent}
use iog.Gateway.Registry.{IsClosed, close_all_links-IsClosed}
use iog.Configuration.{validate, app_mode, ok}
use iog.Configuration.Validate.{Complete, validate_iff}
use iog.Tests.{writing, writing_laws, reading, counting, gateway, config}

-- A buffer comes back with a secret in it, in place of the one taken.
abbrev pool_history : List PoolOp
pool_history =
    acquires
    ∷ drops (record { buffer = record { bytes = 7 ∷ 7 ∷ []; capacity = 16384 }; size = 16384 })
    ∷ []

run-acquire_example :
    IsBlank (acquire (Clean.run default pool_history)).0.buffer
    × (length (Clean.run default pool_history).buffers ≤ pool_size)
run-acquire_example = run-acquire pool_history

-- Two tasks read large payloads at once.
abbrev loans : List LentOp
loans = takes 40000 ∷ takes 65535 ∷ returns 1 (7 ∷ []) ∷ takes 65535 ∷ []

run-capacity_example :
    let s = Growth.run (record { pool = default; held = [] }) loans in
    All (λ b. b.capacity ≤ largest) s.pool.buffers × All (λ p. p.buffer.capacity ≤ largest) s.held
run-capacity_example = run-capacity loans (omega arith, (omega arith, (tt, (omega arith, tt))))

-- A link of identifier 1 whose application has been sent one byte.
abbrev link : Link (List ℕ)
link = Link.new (5 ∷ []) 1

abbrev link_history : List LinkOp
link_history =
    Silence.sends (some (1 ∷ []))
    ∷ Silence.changes waiting
    ∷ Silence.sends (some (2 ∷ []))
    ∷ Silence.closes
    ∷ []

run-silent_example : (Silence.run link link_history).writer ≡ 5 ∷ []
unfolding Link.new Link.is_connected
run-silent_example = run-silent writing_laws link link_history refl (tt, (refl, (tt, (tt, tt))))

abbrev open_link : Link (List ℕ)
open_link = Link.set_state link connected

send_packet-sent_example :
    let m = Link.send_packet open_link (some (6 ∷ [])) in
    (m.state ≡ connected)
    × (true ≡ true → (m.writer ≡ 5 ∷ 6 ∷ []) × (m.statistics.bytes_out ≡ 1))
    × (true ≡ false → m.statistics ≡ open_link.statistics)
unfolding Link.new Link.set_state
send_packet-sent_example = send_packet-sent writing_laws open_link (6 ∷ []) refl

-- A gateway with one link.
abbrev with_one : Gateway (List ℕ)
with_one = add_link (alloc gateway link).1 0

abbrev gateway_history : List (GatewayOp (List ℕ) (List ℕ))
gateway_history =
    Gauge.sends []
      (record { packet_type = regular; packet_id = 1; link_id = 1; data_size = 1; flags = 0 })
      (some (4 ∷ []))
    ∷ Gauge.adds 0
    ∷ Gauge.removes 1
    ∷ []

with_one-IsCurrent : IsCurrent with_one
unfolding add_link alloc Gateway.new Link.new
with_one-IsCurrent = record { on = refl; shown = refl }

run-IsCurrent_example : IsCurrent (Gauge.run with_one gateway_history)
run-IsCurrent_example = run-IsCurrent with_one gateway_history with_one-IsCurrent

run-Counts_example : Counts regular with_one (Gauge.run with_one gateway_history) 1 1 17
unfolding send_gw_packet prepare write_packet write_payload to_bytes to_le_bytes compress_data
    add_link alloc Gateway.new type_code
run-Counts_example =
    run-Counts writing_laws regular with_one gateway_history refl (omega arith) (omega arith)
      (omega arith) (omega arith)

close_all_links-IsClosed_example :
    let g' = close_all_links with_one in
    (g'.links ≡ [])
    × ((id ref : ℕ) → Map.get with_one.links id ≡ some ref → IsClosed g'.heap ref)
    × ((ref : ℕ)
        → All (λ e. e.1 ≢ ref) with_one.links
        → get_elem? g'.heap ref ≡ get_elem? with_one.heap ref)
close_all_links-IsClosed_example = close_all_links-IsClosed with_one

next_link_id_cycle_example :
    ((next_link_id (after_links 0 gateway)).0 ≢ (next_link_id (after_links 3 gateway)).0)
    × ((next_link_id (after_links 3 gateway)).0 < 2 ^ 16)
    × ((next_link_id (after_links 65536 gateway)).0 ≡ (next_link_id (after_links 0 gateway)).0)
unfolding Gateway.new
next_link_id_cycle_example =
    next_link_id_cycle gateway 0 3 (omega arith) (omega arith) (omega arith)

validate_iff_example : (validate config ≡ ok) ↔ Complete config.network (app_mode config)
validate_iff_example = validate_iff config
