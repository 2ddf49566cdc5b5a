-- ===== src/Relay/Arrival.antt =====
-- One packet on its way: what a sender whose writes do not fail puts on the stream, and what any
-- gateway reads there.
use iog.Prelude.{ℕ, ◌≡◌, refl, true, false, Option, none, some, List, ◌++◌}
use iog.Transport.{WriteHalf, WriteLaws, ReadHalf, ReadLaws}
use iog.Packet.{PacketGw, IsPacket, is_compressed, to_bytes}
use iog.Compression.{Zstd, ZstdLaws}
use iog.Gateway.{Gateway}
use iog.Gateway.Send.{Outgoing, prepare, payload_len, write_payload, write_packet, send_gw_packet}
use iog.Gateway.Receive.{read_gw_packet}
use iog.Gateway.RoundTrip.{
  wire, received, prepare_fields, prepare-Prepared, read_gw_packet-wire, write_packet-sent,
}

-- The gateway reads this packet, with this data, and the rest is left.
abbrev pub Arrives :
    {V R : Type 0} ⦃ir : ReadHalf R⦄ ⦃z : Zstd⦄
    → ReadLaws R ir
    → Gateway V
    → R
    → PacketGw
    → Option (List ℕ)
    → List ℕ
    → Type 0
Arrives laws g r p d rest =
    (q : PacketGw) × ((read_gw_packet g r).0 ≡ some (q, received d))
    × (q.packet_type ≡ p.packet_type)
    × (q.link_id ≡ p.link_id)
    × (laws.pending (read_gw_packet g r).1 ≡ rest)

module _ {W : Type 0} ⦃io : WriteHalf W⦄ ⦃z : Zstd⦄ (writes : WriteLaws W io)
    (reliable : (w : W) (d : List ℕ) → (io.write_all w d).0 ≡ true) where
  write_payload_reliable : (w : W) (d : Option (List ℕ)) → (write_payload w d).0 ≡ true
  unfolding write_payload
  write_payload_reliable w none = refl
  write_payload_reliable w (some d) = reliable w d

  write_packet_reliable : (w : W) (o : Outgoing) → (write_packet w o).0 ≡ true
  unfolding write_packet
  write_packet_reliable w o =
      rw (reliable w (to_bytes o.packet)) (write_payload_reliable _ o.payload)

  pub send_gw_packet_reliable :
      (g : Gateway W) (w : W) (p : PacketGw) (d : Option (List ℕ))
      → ((send_gw_packet g w p d).0 ≡ true)
        × (writes.sent (send_gw_packet g w p d).1 ≡ writes.sent w ++ wire (prepare p d))
  unfolding send_gw_packet
  send_gw_packet_reliable g w p d =
      let ok = write_packet_reliable w (prepare p d) in
      rw ok (refl, write_packet-sent writes w (prepare p d) ok)

module _ {R : Type 0} ⦃ir : ReadHalf R⦄ ⦃z : Zstd⦄ (reads : ReadLaws R ir)
    (codec : ZstdLaws z) where
  pub wire-Arrives :
      {V : Type 0} (g : Gateway V) (r : R) (p : PacketGw) (d : Option (List ℕ)) (rest : List ℕ)
      → IsPacket p
      → is_compressed p ≡ false
      → p.data_size ≡ payload_len d
      → reads.pending r ≡ wire (prepare p d) ++ rest
      → Arrives reads g r p d rest
  wire-Arrives g r p d rest v f n e =
      let (got, left) =
        read_gw_packet-wire reads g r (prepare p d) d rest (prepare-Prepared codec p d v f n) e in
      let (t, i, l) = prepare_fields p d in ((prepare p d).packet, got, t, l, left)
