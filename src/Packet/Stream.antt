-- ===== src/Packet/Stream.antt =====
-- The two steps that both sides of the handshake are made of: a header read from a stream and
-- parsed, and a header written with its payload.
use mathlib.Core.List.{append-nil}
use iog.Prelude.{
  ℕ, ◌≡◌, ap, ◌∙◌, Bool, true, false, Option, none, some, List, [], ◌++◌, arith, if◌then◌else◌,
  Bool-cases, inl, inr,
}
use iog.Transport.{WriteHalf, WriteLaws, ReadHalf, ReadLaws}
use iog.Packet.{PacketGw, IsPacket, packet_header_size, to_bytes, from_bytes}
use iog.Packet.Header.{from_bytes-to_bytes, length-to_bytes}

module _ {R : Type 0} ⦃io : ReadHalf R⦄ where
  -- `read_exact(&mut header_buf)` and `PacketGW::from_bytes(&header_buf)`
  unfoldable pub read_header : R → Option PacketGw × R
  read_header r =
      let (header, r') = io.read_exact r packet_header_size in
      (elim header [ none ↦ none | some bytes ↦ from_bytes bytes ], r')

  -- A header on the stream is read and parsed, and the stream stands behind it.
  pub read_header-to_bytes :
      (laws : ReadLaws R io) (r : R) (p : PacketGw) (rest : List ℕ)
      → IsPacket p
      → laws.pending r ≡ to_bytes p ++ rest
      → ((read_header r).0 ≡ some p) × (laws.pending (read_header r).1 ≡ rest)
  unfolding read_header
  read_header-to_bytes laws r p rest v e =
      let (filled, left) =
        rw (length-to_bytes p) at (laws.read_exact-pending r (to_bytes p) rest e) in
      let parsed : from_bytes (to_bytes p) ≡ some p =
        rw append-nil at (from_bytes-to_bytes p [] v) in
      (ground (arith, filled, parsed), left)

module _ {W : Type 0} ⦃io : WriteHalf W⦄ where
  -- Two writes in a row; the second is not tried when the first fails.
  unfoldable pub write_both : W → List ℕ → List ℕ → Bool × W
  write_both w a b =
      let (written, w') = io.write_all w a in if written then io.write_all w' b else (false, w')

  pub write_both-sent :
      (laws : WriteLaws W io) (w : W) (a b : List ℕ)
      → (write_both w a b).0 ≡ true
      → laws.sent (write_both w a b).1 ≡ laws.sent w ++ a ++ b
  unfolding write_both
  write_both-sent laws w a b h = elim (Bool-cases (io.write_all w a).0) [
    | inr failed ↦ ground arith
    | inl written ↦ rw written (
        laws.sent-write_all (io.write_all w a).1 b (ground arith)
        ∙ ap (λ l. l ++ b) (laws.sent-write_all w a written))
  ]
