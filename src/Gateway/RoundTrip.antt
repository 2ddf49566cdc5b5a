-- ===== src/Gateway/RoundTrip.antt =====
-- What one gateway sends, the other reads.
use iog.Prelude.{
  ℕ, ◌^◌, ◌<◌, ◌≡◌, refl, sym, ap, ◌∙◌, inl, inr, Bool, true, false, Option, none, some, List, [],
  ◌∷◌, ◌++◌, arith, length, Bool-cases, leb,
}
use mathlib.Core.List.{append_assoc, append-nil, append_cancel_left}
use iog.Transport.{WriteHalf, WriteLaws, ReadHalf, ReadLaws}
use iog.Packet.{
  packet_header_size, PacketGw, IsPacket, to_bytes, from_bytes, is_compressed, set_flag,
  flag_compressed,
}
use iog.Packet.Header.{from_bytes-to_bytes, length-to_bytes}
use iog.Packet.Flags.{set_flag-is_compressed}
use iog.Compression.{Zstd, ZstdLaws, compress_data, decompress_data, min_compress_size}
use iog.Bytes.{as_u16}
use iog.Compression.RoundTrip.{
  compress_data-length, compress_data_nonempty, decompress_data-compress_data,
}
use iog.Gateway.{Gateway}
use iog.Gateway.Send.{Outgoing, prepare, payload_len, write_payload, write_packet, send_gw_packet}
use iog.Gateway.Receive.{read_data, read_gw_packet, finish_read, count_header}

abbrev pub payload_bytes : Option (List ℕ) → List ℕ
payload_bytes none = []
payload_bytes (some p) = p

-- The bytes of a packet on the wire.
abbrev pub wire : Outgoing → List ℕ
wire o = to_bytes o.packet ++ payload_bytes o.payload

-- An empty payload arrives as no payload.
abbrev pub received : Option (List ℕ) → Option (List ℕ)
received none = none
received (some []) = none
received (some (x ∷ xs)) = some (x ∷ xs)

module _ ⦃z : Zstd⦄ where
  -- The payload stands for the data, under the flag.
  abbrev pub Carries : Option (List ℕ) → Option (List ℕ) → Bool → Type 0
  Carries none none flag = Unit {0}
  Carries none (some d) flag = ⊥
  Carries (some q) none flag = ⊥
  Carries (some q) (some d) flag =
      (decompress_data q flag ≡ some d)
      × (0 < length q → 0 < length d)
      × (0 < length d → 0 < length q)

  pub record Prepared (o : Outgoing) (d : Option (List ℕ)) : Type 0 where
    pub valid : IsPacket o.packet
    pub sized : payload_len o.payload ≡ o.packet.data_size
    pub carried : Carries o.payload d (is_compressed o.packet)

  pub prepare_fields :
      (p : PacketGw) (d : Option (List ℕ))
      → let q = (prepare p d).packet in
        (q.packet_type ≡ p.packet_type) × (q.packet_id ≡ p.packet_id) × (q.link_id ≡ p.link_id)
  unfolding prepare
  prepare_fields p none = (refl, refl, refl)
  prepare_fields p (some d) = ground arith

  plain-Prepared :
      (p : PacketGw) (d : List ℕ)
      → IsPacket p
      → is_compressed p ≡ false
      → p.data_size ≡ length d
      → Prepared (record { packet = p; payload = some d; compressed_flag = false }) (some d)
  unfolding decompress_data
  plain-Prepared p d v f n = record {
    valid = v;
    sized = sym n;
    carried = (ground arith, λ h. h, λ h. h);
  }

  squeezed-Prepared :
      (laws : ZstdLaws z) (p : PacketGw) (d : List ℕ)
      → IsPacket p
      → p.data_size ≡ length d
      → (compress_data d).is_compressed ≡ true
      → Prepared
          (record {
            packet = record (set_flag p flag_compressed) {
              data_size = as_u16 (length (compress_data d).bytes);
            };
            payload = some (compress_data d).bytes;
            compressed_flag = true;
          })
          (some d)
  unfolding is_compressed
  squeezed-Prepared laws p d v n c =
      let (_, shorter, _) = compress_data-length d in
      let (flagged, valid, _, _, _, _, _) = set_flag-is_compressed p v in
      record {
        valid = record {
          id_fits = valid.id_fits;
          link_fits = valid.link_fits;
          size_fits = omega arith;
          flags_fit = valid.flags_fit;
        };
        sized = omega (arith, (shorter c).0, v.size_fits);
        carried = (
          ap (decompress_data (compress_data d).bytes) (flagged ∙ sym c)
              ∙ decompress_data-compress_data laws d,
          λ h. omega (arith, (shorter c).0),
          λ h. compress_data_nonempty laws d c,
        );
      }

  pub prepare-Prepared :
      (laws : ZstdLaws z) (p : PacketGw) (d : Option (List ℕ))
      → IsPacket p
      → is_compressed p ≡ false
      → p.data_size ≡ payload_len d
      → Prepared (prepare p d) d
  unfolding prepare
  prepare-Prepared laws p none v f n = record { valid = v; sized = sym n; carried = tt }
  prepare-Prepared laws p (some d) v f n = elim (Bool-cases (leb min_compress_size (length d))) [
    | inr small ↦ rw small (plain-Prepared p d v f n)
    | inl large ↦ elim (Bool-cases (compress_data d).is_compressed) [
      | inr not_smaller ↦ rw (large, not_smaller) (plain-Prepared p d v f n)
      | inl smaller ↦ rw (large, smaller) (squeezed-Prepared laws p d v n smaller)
    ]
  ]

module _ {W R : Type 0} ⦃io : ReadHalf R⦄ ⦃z : Zstd⦄ (laws : ReadLaws R io) where
  -- The result of a read and what is left on the stream.
  abbrev pub Reads : {A : Type 0} → Option A × R × Gateway W → A → List ℕ → Type 0
  Reads result a rest = (result.0 ≡ some a) × (laws.pending result.1 ≡ rest)

  read_data-Reads :
      (g : Gateway W) (r : R) (p : PacketGw) (payload d : Option (List ℕ)) (rest : List ℕ)
      → p.data_size < 2 ^ 16
      → payload_len payload ≡ p.data_size
      → Carries payload d (is_compressed p)
      → laws.pending r ≡ payload_bytes payload ++ rest
      → Reads (read_data g r p) (received d, p.data_size) rest
  unfolding read_data
  read_data-Reads g r p none none rest v n c e = (ground arith, ground arith)
  read_data-Reads g r p none (some d) rest v n c e = absurd c
  read_data-Reads g r p (some q) none rest v n c e = absurd c
  read_data-Reads g r p (some []) (some []) rest v n c e = (ground arith, ground arith)
  read_data-Reads g r p (some []) (some (y ∷ d)) rest v n c e =
      absurd (omega (arith, c.2 (omega arith)))
  read_data-Reads g r p (some (x ∷ q)) (some []) rest v n c e =
      absurd (omega (arith, c.1 (omega arith)))
  read_data-Reads g r p (some (x ∷ q)) (some (y ∷ d)) rest v n c e =
      let (filled, left) = laws.read_exact-pending r (x ∷ q) rest e in
      (ground (arith, c.0, filled, left), ground (arith, c.0, filled, left))

  finish_read-Reads :
      (p : PacketGw) (result : Option (Option (List ℕ) × ℕ) × R × Gateway W) (d : Option (List ℕ))
      (n : ℕ) (rest : List ℕ)
      → Reads result (d, n) rest
      → Reads (finish_read p result) (p, d) rest
  unfolding finish_read
  finish_read-Reads p (none, r, g) d n rest (h, l) = cc
  finish_read-Reads p (some (d', n'), r, g) d n rest (h, l) = (ground arith, l)

  -- The header is read, and the rest is read by `read_data`.
  header_read :
      (g : Gateway W) (r : R) (p : PacketGw) (more : List ℕ)
      → IsPacket p
      → laws.pending r ≡ to_bytes p ++ more
      → (r' : R) × (read_gw_packet g r ≡ finish_read p (read_data (count_header g) r' p))
        × (laws.pending r' ≡ more)
  unfolding read_gw_packet
  header_read g r p more v e =
      let (filled, left) =
        rw (length-to_bytes p) at (laws.read_exact-pending r (to_bytes p) more e) in
      let parsed : from_bytes (to_bytes p) ≡ some p =
        rw append-nil at (from_bytes-to_bytes p [] v) in
      ((io.read_exact r packet_header_size).1, ground (arith, filled, parsed), left)

  -- A packet on the wire is read with its data.
  pub read_gw_packet-wire :
      (g : Gateway W) (r : R) (o : Outgoing) (d : Option (List ℕ)) (rest : List ℕ)
      → Prepared o d
      → laws.pending r ≡ wire o ++ rest
      → Reads (read_gw_packet g r) (o.packet, received d) rest
  read_gw_packet-wire g r o d rest v e =
      let (r', reads, left) =
        header_read g r o.packet (payload_bytes o.payload ++ rest) v.valid (rw append_assoc at e) in
      rw reads (
        finish_read-Reads o.packet _ (received d) o.packet.data_size rest (
          read_data-Reads (count_header g) r' o.packet o.payload d rest v.valid.size_fits v.sized
            v.carried left))

module _ {W : Type 0} ⦃io : WriteHalf W⦄ (laws : WriteLaws W io) where
  write_payload-sent :
      (w : W) (payload : Option (List ℕ))
      → (write_payload w payload).0 ≡ true
      → laws.sent (write_payload w payload).1 ≡ laws.sent w ++ payload_bytes payload
  unfolding write_payload
  write_payload-sent w none h = sym (append-nil (laws.sent w))
  write_payload-sent w (some p) h = laws.sent-write_all w p h

  -- A packet that is sent without an error puts exactly its header and payload on the wire.
  pub write_packet-sent :
      (w : W) (o : Outgoing)
      → (write_packet w o).0 ≡ true
      → laws.sent (write_packet w o).1 ≡ laws.sent w ++ wire o
  unfolding write_packet
  write_packet-sent w o h = elim (Bool-cases (io.write_all w (to_bytes o.packet)).0) [
    | inr failed ↦ ground arith
    | inl written ↦
        let w' : W = (io.write_all w (to_bytes o.packet)).1 in
        let sent_header = laws.sent-write_all w (to_bytes o.packet) written in
        let h' : (write_payload w' o.payload).0 ≡ true = ground arith in
        rw written (
          write_payload-sent w' o.payload h'
          ∙ ap (λ l. l ++ payload_bytes o.payload) sent_header
          ∙ append_assoc (laws.sent w) (to_bytes o.packet) (payload_bytes o.payload))
  ]

module _ {W R V : Type 0} ⦃io : WriteHalf W⦄ ⦃ir : ReadHalf R⦄ ⦃z : Zstd⦄ where
  -- A packet with fields within their ranges, without flags, and with the size of its data as its
  -- `data_size`, that one gateway sends without an error is read by another that gets the same
  -- bytes, over streams and a codec that keep their laws: the reader returns its type, identifier
  -- and link and, compressed on the way or not, its data (an empty payload as none), and the
  -- stream stands behind the packet.
  pub read_gw_packet-send_gw_packet :
      (writes : WriteLaws W io) (reads : ReadLaws R ir) (codec : ZstdLaws z) (sender : Gateway W)
      (reader : Gateway V) (w : W) (r : R) (p : PacketGw) (d : Option (List ℕ))
      (delivered rest : List ℕ)
      → IsPacket p
      → is_compressed p ≡ false
      → p.data_size ≡ payload_len d
      → (send_gw_packet sender w p d).0 ≡ true
      → writes.sent (send_gw_packet sender w p d).1 ≡ writes.sent w ++ delivered
      → reads.pending r ≡ delivered ++ rest
      → let result = read_gw_packet reader r in
        (q : PacketGw) × (result.0 ≡ some (q, received d))
        × (q.packet_type ≡ p.packet_type)
        × (q.packet_id ≡ p.packet_id)
        × (q.link_id ≡ p.link_id)
        × (reads.pending result.1 ≡ rest)
  unfolding send_gw_packet
  read_gw_packet-send_gw_packet writes reads codec sender reader w r p d delivered rest v f n ok s
        e =
      let o = prepare p d in
      let written : (write_packet w o).0 ≡ true = ground arith in
      let same_writer : (send_gw_packet sender w p d).1 ≡ (write_packet w o).1 = ground arith in
      let on_wire : writes.sent w ++ delivered ≡ writes.sent w ++ wire o =
        sym s ∙ ap writes.sent same_writer ∙ write_packet-sent writes w o written in
      let e' : reads.pending r ≡ wire o ++ rest =
        e ∙ ap (λ l. l ++ rest) (append_cancel_left _ _ _ on_wire) in
      let (got, left) =
        read_gw_packet-wire reads reader r o d rest (prepare-Prepared codec p d v f n) e' in
      let (t, i, l) = prepare_fields p d in (o.packet, got, t, i, l, left)
