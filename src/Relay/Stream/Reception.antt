-- ===== src/Relay/Stream/Reception.antt =====
-- What a receiver makes of a whole connection, packet by packet, as a pipe shows it.
use mathlib.Core.List.{append-nil}
use iog.Prelude.{
  ℕ, zero, suc, ◌+◌, ◌≤◌, ◌≡◌, refl, sym, ap, ◌∙◌, true, false, Option, none, some, List, [], ◌∷◌,
  ◌++◌, arith, length, get_elem?, nat_eq,
}
use iog.Map
use iog.Transport.{WriteHalf, WriteLaws, ReadHalf, ReadLaws}
use iog.Packet.{PacketGw, IsPacket, is_compressed, regular, close}
use iog.Compression.{Zstd, ZstdLaws}
use iog.Link
use iog.Link.{Link, ConnectionState, connected, disconnected}
use iog.Link.Silence.{send_packet-sent}
use iog.Gateway.{Gateway}
use iog.Gateway.Send.{prepare, payload_len}
use iog.Gateway.RoundTrip.{wire}
use iog.Relay.Pipe.{Pipe, feed, feed_all}
use iog.Relay.Stream.Receiver.{LinkAt, Receiver, loop, loop_next, loop_last}
use iog.Relay.Arrival.{wire-Arrives}

-- The receiver's link shows what came out of a pipe: its writer has sent these bytes, and it is
-- registered and connected if the pipe is open, and neither if it is closed.
pub record Shows {W : Type 0} ⦃io : WriteHalf W⦄ (writes : WriteLaws W io) (pipe : Pipe)
    (g : Gateway W) (id ref : ℕ) : Type 0 where
  pub link : Link W
  pub there : get_elem? g.heap ref ≡ some link
  pub bytes : writes.sent link.writer ≡ pipe.bytes
  pub if_open : pipe.is_open ≡ true → (link.state ≡ connected) × (Map.get g.links id ≡ some ref)
  pub if_closed : pipe.is_open ≡ false → (link.state ≡ disconnected) × (Map.get g.links id ≡ none)

pub feed_all-closed :
    (bytes : List ℕ) (xs : List (Option (List ℕ)))
    → feed_all (record { bytes = bytes; is_open = false }) xs
      ≡ record { bytes = bytes; is_open = false }
unfolding feed feed_all
feed_all-closed bytes [] = refl
feed_all-closed bytes (none ∷ xs) = feed_all-closed bytes xs
feed_all-closed bytes (some [] ∷ xs) = feed_all-closed bytes xs
feed_all-closed bytes (some (b ∷ bs) ∷ xs) = feed_all-closed bytes xs

module _ {W R : Type 0} ⦃io : WriteHalf W⦄ ⦃ir : ReadHalf R⦄ ⦃z : Zstd⦄ (writes : WriteLaws W io)
    (reads : ReadLaws R ir) (codec : ZstdLaws z)
    (reliable : (w : W) (d : List ℕ) → (io.write_all w d).0 ≡ true) (S : Type 0)
    (side : Receiver W reads S) (ref : ℕ) where
  -- What the receiver makes of the bytes that the sender's loop sends.
  abbrev pub Received : ℕ → List (Option (List ℕ)) → List ℕ → Type 0
  Received id xs delivered =
      (c : S) (r : R) (l : Link W) (fuel : ℕ)
      → reads.pending r ≡ delivered
      → LinkAt (side.base c) id ref l
      → l.state ≡ connected
      → length xs + 2 ≤ fuel
      → (c' : S) × (loop side.turn fuel c r ≡ some c')
        × Shows writes (feed_all (record { bytes = writes.sent l.writer; is_open = true }) xs)
            (side.base c') id ref

  pub Received-nothing : (id : ℕ) → Received id [] []
  unfolding feed_all
  Received-nothing id c r l zero e at on h = absurd (omega arith)
  Received-nothing id c r l (suc fuel) e at on h =
      let (c', ended, links, heap) = side.on_end fuel c r e in
      (
        c',
        loop_last side.turn fuel c c' r ended,
        record {
          link = l;
          there = ap (λ h. get_elem? h ref) heap ∙ at.there;
          bytes = refl;
          if_open = λ _. (on, ap (λ m. Map.get m id) links ∙ at.known);
          if_closed = λ h. cc;
        },
      )

  pub Received-data :
      (p : PacketGw) (b : ℕ) (bs : List ℕ) (xs : List (Option (List ℕ))) (delivered : List ℕ)
      → IsPacket p
      → is_compressed p ≡ false
      → p.data_size ≡ payload_len (some (b ∷ bs))
      → p.packet_type ≡ regular
      → Received p.link_id xs delivered
      → Received p.link_id (some (b ∷ bs) ∷ xs) (wire (prepare p (some (b ∷ bs))) ++ delivered)
  unfolding feed_all feed
  Received-data p b bs xs delivered v f n t more c r l zero e at on h = absurd (omega arith)
  Received-data p b bs xs delivered v f n t more c r l (suc fuel) e at on h =
      let d = b ∷ bs in
      let (r', c', went, left, at') =
        side.on_data fuel c r ref l p b bs delivered at t
          (wire-Arrives reads codec (side.base c) r p (some d) delivered v f n e) in
      let (still_on, sent, _) = send_packet-sent writes l d on in
      let (c'', ran, shows) =
        more c' r' (Link.send_packet l (some d)) fuel left at' still_on (omega arith) in
      (
        c'',
        loop_next side.turn fuel c c' r r' went ∙ ran,
        rw (sent (reliable l.writer d)).0 at shows,
      )

  pub Received-close :
      (p : PacketGw) (x : Option (List ℕ)) (xs : List (Option (List ℕ)))
      → ((q : Pipe) → feed q x ≡ record q { is_open = false })
      → IsPacket p
      → is_compressed p ≡ false
      → p.data_size ≡ 0
      → p.packet_type ≡ close
      → Received p.link_id (x ∷ xs) (wire (prepare p none))
  unfolding feed_all Link.close_connection
  Received-close p x xs ends v f n t c r l zero e at on h = absurd (omega arith)
  Received-close p x xs ends v f n t c r l (suc zero) e at on h = absurd (omega arith)
  Received-close p x xs ends v f n t c r l (suc (suc fuel)) e at on h =
      let (r', c', went, left, gone) =
        side.on_close (suc fuel) c r ref l p [] at t
          (wire-Arrives reads codec (side.base c) r p none [] v f n (e ∙ sym (append-nil _))) in
      let (c'', ended, links, heap) = side.on_end fuel c' r' left in
      (
        c'',
        loop_next side.turn (suc fuel) c c' r r' went ∙ loop_last side.turn fuel c' c'' r' ended,
        rw
            (
              ends (record { bytes = writes.sent l.writer; is_open = true }),
              feed_all-closed (writes.sent l.writer) xs,
            )
            (record {
              link = Link.close_connection l;
              there = ap (λ h. get_elem? h ref) heap ∙ gone.there;
              bytes = writes.sent-shutdown l.writer;
              if_open = λ h. cc;
              if_closed = λ _. (refl, ap (λ m. Map.get m p.link_id) links ∙ gone.unknown);
            }),
      )
