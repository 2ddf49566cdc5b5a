-- ===== src/Gateway/Counters.antt =====
-- The identifiers that `next_packet_id` and `next_link_id` hand out.
use iog.Prelude.{ℕ, zero, suc, ◌+◌, ◌%◌, ◌^◌, ◌<◌, ◌≡◌, ◌≢◌, arith}
use iog.Bytes.{add_u64}
use iog.Gateway.{Gateway, next_packet_id, next_link_id}

module _ {W : Type 0} where
  -- The gateway after a number of draws.
  pub after_packets : ℕ → Gateway W → Gateway W
  after_packets zero g = g
  after_packets (suc n) g = (next_packet_id (after_packets n g)).1

  pub after_links : ℕ → Gateway W → Gateway W
  after_links zero g = g
  after_links (suc n) g = (next_link_id (after_links n g)).1

  packet_counter :
      (n : ℕ) (g : Gateway W)
      → g.packet_id_counter < 2 ^ 64
      → (after_packets n g).packet_id_counter ≡ (g.packet_id_counter + n) % 2 ^ 64
  unfolding after_packets next_packet_id add_u64
  packet_counter zero g h = omega arith
  packet_counter (suc n) g h = omega (arith, packet_counter n g h)

  link_counter :
      (n : ℕ) (g : Gateway W)
      → g.link_id_counter < 2 ^ 16
      → (after_links n g).link_id_counter ≡ (g.link_id_counter + n) % 2 ^ 16
  unfolding after_links next_link_id
  link_counter zero g h = omega arith
  link_counter (suc n) g h = omega (arith, link_counter n g h)

  -- From a counter within a u64, packet identifiers drawn fewer than 2 ^ 64 draws apart differ,
  -- and the later one fits a u64.
  pub next_packet_id_distinct :
      (g : Gateway W) (m n : ℕ)
      → g.packet_id_counter < 2 ^ 64
      → m < n
      → n < m + 2 ^ 64
      → ((next_packet_id (after_packets m g)).0 ≢ (next_packet_id (after_packets n g)).0)
        × ((next_packet_id (after_packets n g)).0 < 2 ^ 64)
  unfolding next_packet_id add_u64
  next_packet_id_distinct g m n h lt near =
      (omega (arith, packet_counter m g h, packet_counter n g h), omega arith)

  -- From a counter within a u16, link identifiers drawn fewer than 65536 draws apart differ and
  -- the later one fits a u16; the draw 65536 later gives the same identifier again.
  pub next_link_id_cycle :
      (g : Gateway W) (m n : ℕ)
      → g.link_id_counter < 2 ^ 16
      → m < n
      → n < m + 2 ^ 16
      → ((next_link_id (after_links m g)).0 ≢ (next_link_id (after_links n g)).0)
        × ((next_link_id (after_links n g)).0 < 2 ^ 16)
        × ((next_link_id (after_links (m + 65536) g)).0 ≡ (next_link_id (after_links m g)).0)
  unfolding next_link_id
  next_link_id_cycle g m n h lt near = (
    omega (arith, link_counter m g h, link_counter n g h),
    omega (arith, link_counter n g h),
    omega (arith, link_counter m g h, link_counter (m + 65536) g h),
  )
