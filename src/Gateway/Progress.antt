-- ===== src/Gateway/Progress.antt =====
-- How far a read takes the stream: the measure by which the exchange loops end.
use iog.Prelude.{
  ℕ, ◌+◌, ◌≤◌, ◌≡◌, refl, sym, ap, ◌∙◌, Option, none, some, List, arith, length, take, drop,
  length-take, length-drop, take-append-drop, Option-cases, inl, inr, leb, Bool-cases,
}
use iog.Transport.{ReadHalf, ReadLaws}
use iog.Packet.{PacketGw, packet_header_size, from_bytes}
use iog.Compression.{Zstd}
use iog.Gateway.{Gateway}
use iog.Gateway.Receive.{read_data, finish_read, read_gw_packet, count_header}

module _ {R : Type 0} ⦃ir : ReadHalf R⦄ (laws : ReadLaws R ir) where
  abbrev pub left : R → ℕ
  left r = length (laws.pending r)

  -- A read that succeeds takes what it asked for off the stream.
  read_exact-left :
      (r : R) (n : ℕ) (bytes : List ℕ)
      → (ir.read_exact r n).0 ≡ some bytes
      → left (ir.read_exact r n).1 + n ≡ left r
  read_exact-left r n bytes e = elim (Bool-cases (leb n (left r))) [
    | inr short ↦ cc (laws.read_exact_short r n (ground arith))
    | inl enough ↦
        let front = take n (laws.pending r) in
        let back = drop n (laws.pending r) in
        let size : length front ≡ n = ground (arith, length-take n (laws.pending r)) in
        let (_, rest) =
          laws.read_exact-pending r front back (sym (take-append-drop n (laws.pending r))) in
        ground (arith, ap length (rw size at rest), length-drop n (laws.pending r))
  ]

module _ {W R : Type 0} ⦃ir : ReadHalf R⦄ ⦃z : Zstd⦄ (laws : ReadLaws R ir) where
  read_data-left :
      (g : Gateway W) (r : R) (p : PacketGw) (a : Option (List ℕ) × ℕ)
      → (read_data g r p).0 ≡ some a
      → left laws (read_data g r p).1 ≤ left laws r
  unfolding read_data
  read_data-left g r p a e = elim (Option-cases (ir.read_exact r p.data_size).0) [
    | inl none' ↦ ground arith
    | inr (bytes, some') ↦ ground (arith, read_exact-left laws r p.data_size bytes some')
  ]

  finish_read-some :
      (p : PacketGw) (x : Option (Option (List ℕ) × ℕ) × R × Gateway W)
      (a : PacketGw × Option (List ℕ))
      → (finish_read p x).0 ≡ some a
      → (b : Option (List ℕ) × ℕ) × (x.0 ≡ some b) × ((finish_read p x).1 ≡ x.1)
  unfolding finish_read
  finish_read-some p (none, r, g) a e = cc
  finish_read-some p (some b, r, g) a e = (b, refl, refl)

  -- A packet that is read takes its header, at least, off the stream.
  pub read_gw_packet-left :
      (g : Gateway W) (r : R) (a : PacketGw × Option (List ℕ))
      → (read_gw_packet g r).0 ≡ some a
      → left laws (read_gw_packet g r).1 + packet_header_size ≤ left laws r
  unfolding read_gw_packet
  read_gw_packet-left g r a e = elim (Option-cases (ir.read_exact r packet_header_size).0) [
    | inl none' ↦ ground arith
    | inr (bytes, header) ↦ elim (Option-cases (from_bytes bytes)) [
      | inl none' ↦ ground arith
      | inr (p, parsed) ↦
          let r1 : R = (ir.read_exact r packet_header_size).1 in
          let body = read_data (count_header g) r1 p in
          let whole : read_gw_packet g r ≡ finish_read p body = ground (arith, header, parsed) in
          let (b, got, same) = finish_read-some p body a (sym (ap (λ x. x.0) whole) ∙ e) in
          rw (ap (λ x. x.1) whole ∙ same) (
            omega (
              arith,
              read_data-left (count_header g) r1 p b got,
              read_exact-left laws r packet_header_size bytes header,
            ))
    ]
  ]
