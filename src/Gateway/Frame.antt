-- ===== src/Gateway/Frame.antt =====
-- Reading a packet leaves the registry and the links alone.
use iog.Prelude.{◌∙◌, ℕ, ◌≡◌, refl, Option, none, some, List, arith, Option-cases, inl, inr}
use iog.Transport.{WriteHalf, ReadHalf}
use iog.Packet.{PacketGw, from_bytes, packet_header_size}
use iog.Compression.{Zstd}
use iog.Gateway.{Gateway}
use iog.Gateway.Send.{send_gw_packet, count_sent}
use iog.Gateway.Receive.{
  count_header, count_payload, count_received, borrow, give_back, read_data, finish_read,
  read_gw_packet,
}

abbrev pub SameLinks : {W : Type 0} → Gateway W → Gateway W → Type 0
SameLinks g g' = (g'.links ≡ g.links) × (g'.heap ≡ g.heap)

module _ {W R : Type 0} ⦃ir : ReadHalf R⦄ ⦃z : Zstd⦄ where
  read_data-SameLinks : (g : Gateway W) (r : R) (p : PacketGw) → SameLinks g (read_data g r p).2
  unfolding read_data borrow give_back count_payload
  read_data-SameLinks g r p = ground arith

  finish_read-SameLinks :
      (g : Gateway W) (p : PacketGw) (result : Option (Option (List ℕ) × ℕ) × R × Gateway W)
      → SameLinks g result.2
      → SameLinks g (finish_read p result).2
  unfolding finish_read count_received
  finish_read-SameLinks g p (none, r, g') c = c
  finish_read-SameLinks g p (some (d, n), r, g') c = c

  pub read_gw_packet-SameLinks : (g : Gateway W) (r : R) → SameLinks g (read_gw_packet g r).2
  unfolding read_gw_packet count_header
  read_gw_packet-SameLinks g r = elim (Option-cases (ir.read_exact r packet_header_size).0) [
    | inl e ↦ rw (e, read_gw_packet) (refl, refl)
    | inr (bytes, e) ↦ elim (Option-cases (from_bytes bytes)) [
      | inl e' ↦ rw (e, e', read_gw_packet) (refl, refl)
      | inr (p, e') ↦
          rw (e, e', read_gw_packet)
            (finish_read-SameLinks g p _ (read_data-SameLinks (count_header g) _ p))
    ]
  ]

  read_data-state : (g : Gateway W) (r : R) (p : PacketGw) → (read_data g r p).2.state ≡ g.state
  unfolding read_data borrow give_back count_payload
  read_data-state g r p = ground arith

  finish_read-state :
      (p : PacketGw) (result : Option (Option (List ℕ) × ℕ) × R × Gateway W)
      → (finish_read p result).2.state ≡ result.2.state
  unfolding finish_read count_received
  finish_read-state p (none, r, g) = refl
  finish_read-state p (some (d, n), r, g) = refl

  pub read_gw_packet-state : (g : Gateway W) (r : R) → (read_gw_packet g r).2.state ≡ g.state
  unfolding read_gw_packet count_header
  read_gw_packet-state g r = elim (Option-cases (ir.read_exact r packet_header_size).0) [
    | inl e ↦ rw (e, read_gw_packet) refl
    | inr (bytes, e) ↦ elim (Option-cases (from_bytes bytes)) [
      | inl e' ↦ rw (e, e', read_gw_packet) refl
      | inr (p, e') ↦
          rw (e, e', read_gw_packet) (finish_read-state p _ ∙ read_data-state (count_header g) _ p)
    ]
  ]

module _ {W : Type 0} ⦃io : WriteHalf W⦄ ⦃z : Zstd⦄ where
  pub send_gw_packet-SameLinks :
      (g : Gateway W) (w : W) (p : PacketGw) (d : Option (List ℕ))
      → SameLinks g (send_gw_packet g w p d).2
  unfolding send_gw_packet count_sent
  send_gw_packet-SameLinks g w p d = (ground arith, ground arith)
