-- ===== src/Relay/Mux/Reader.antt =====
-- The reading end of a shared stream, as far as one of its links is concerned.
use iog.Prelude.{
  ℕ, zero, suc, ◌<◌, ◌≡◌, refl, sym, ap, subst, ◌∙◌, Bool, true, false, Option, none, some, List,
  [], ◌∷◌, ◌++◌, arith, get_elem?, nat_eq,
}
use iog.Map
use iog.Transport.{WriteHalf, WriteLaws, ReadHalf, ReadLaws}
use iog.Packet
use iog.Packet.{PacketGw}
use iog.Compression.{Zstd, ZstdLaws}
use iog.Link
use iog.Link.{Link, connected}
use iog.Link.Silence.{send_packet-sent}
use iog.Gateway.{Gateway}
use iog.Gateway.Send.{prepare}
use iog.Gateway.RoundTrip.{wire}
use iog.Gateway.Apart.{IsApart, Kept}
use iog.Relay.Arrival.{Arrives, wire-Arrives}
use iog.Relay.Pipe.{Pipe, feed, feed_all}
use iog.Relay.Stream.Receiver.{Receiver, loop, loop_next, loop_last}
use iog.Relay.Stream.Reception.{Shows}
use iog.Relay.Mux.Put.{IsSendable, PassesBy, Put, quiet, passing, chunk, closing, unread}

-- What a side promises besides: a packet that passes a link by leaves it as it is, and no round
-- brings another identifier to its place.
pub record Reader (W : Type 0) {R : Type 0} ⦃io : WriteHalf W⦄ ⦃ir : ReadHalf R⦄ ⦃z : Zstd⦄
    (reads : ReadLaws R ir) (S : Type 0) : Type 0 where
  pub side : Receiver W reads S
  pub on_passing :
      (n : ℕ) (s : S) (r : R) (id ref : ℕ) (p : PacketGw) (d : Option (List ℕ)) (rest : List ℕ)
      → IsApart (side.base s) id ref
      → PassesBy p.packet_type p.link_id id
      → Arrives reads (side.base s) r p d rest
      → (r' : R) × (s' : S) × (side.turn n s r ≡ (some r', s'))
        × (reads.pending r' ≡ rest)
        × Kept (side.base s) (side.base s') id ref
  pub on_round :
      (n : ℕ) (s : S) (r : R) (id ref : ℕ)
      → IsApart (side.base s) id ref
      → IsApart (side.base (side.turn n s r).1) id ref

module _ {W : Type 0} ⦃io : WriteHalf W⦄ (writes : WriteLaws W io) (pipe : Pipe) (g g' : Gateway W)
    (id ref : ℕ) where
  pub Kept-Shows : Kept g g' id ref → Shows writes pipe g id ref → Shows writes pipe g' id ref
  Kept-Shows k shows = record {
    link = shows.link;
    there = k.there ∙ shows.there;
    bytes = shows.bytes;
    if_open = λ h. let (on, known) = shows.if_open h in (on, k.known ∙ known);
    if_closed = λ h. let (off, unknown) = shows.if_closed h in (off, k.known ∙ unknown);
  }

module _ {W R : Type 0} ⦃io : WriteHalf W⦄ ⦃ir : ReadHalf R⦄ ⦃z : Zstd⦄ (writes : WriteLaws W io)
    (reads : ReadLaws R ir) (codec : ZstdLaws z)
    (reliable : (w : W) (d : List ℕ) → (io.write_all w d).0 ≡ true) (S : Type 0)
    (reader : Reader W reads S) (id ref : ℕ) where
  -- What the reader makes of bytes that show a link, open or closed, these reads.
  abbrev pub Reception : Bool → ℕ → List (Option (List ℕ)) → List ℕ → Type 0
  Reception runs n xs delivered =
      let side = reader.side in
      (bytes : List ℕ) (c : S) (r : R) (fuel : ℕ)
      → reads.pending r ≡ delivered
      → Shows writes (record { bytes = bytes; is_open = runs }) (side.base c) id ref
      → IsApart (side.base c) id ref
      → n < fuel
      → (c' : S) × (loop side.turn fuel c r ≡ some c')
        × Shows writes (feed_all (record { bytes = bytes; is_open = runs }) xs) (side.base c') id
            ref

  pub Reception-nothing : (runs : Bool) → Reception runs 0 [] []
  unfolding feed_all
  Reception-nothing runs bytes c r zero e shows a h = absurd (omega arith)
  Reception-nothing runs bytes c r (suc fuel) e shows a h =
      let side = reader.side in
      let (c', ended, links, heap) = side.on_end fuel c r e in
      (
        c',
        loop_last side.turn fuel c c' r ended,
        Kept-Shows writes _ (side.base c) (side.base c') id ref
            (record {
              known = ap (λ m. Map.get m id) links;
              there = ap (λ h. get_elem? h ref) heap;
            })
            shows,
      )

  -- One more round, which leaves the link in a pipe's next state.
  Reception-round :
      (runs : Bool) (n fuel : ℕ) (xs : List (Option (List ℕ))) (delivered bytes : List ℕ) (c c' : S)
      (r r' : R)
      → Reception runs n xs delivered
      → reader.side.turn fuel c r ≡ (some r', c')
      → reads.pending r' ≡ delivered
      → Shows writes (record { bytes = bytes; is_open = runs }) (reader.side.base c') id ref
      → IsApart (reader.side.base c) id ref
      → n < fuel
      → (c'' : S) × (loop reader.side.turn (suc fuel) c r ≡ some c'')
        × Shows writes
            (feed_all (record { bytes = bytes; is_open = runs }) xs)
            (reader.side.base c'')
            id
            ref
  Reception-round runs n fuel xs delivered bytes c c' r r' more went left shows a enough =
      let side = reader.side in
      let a' : IsApart (side.base c') id ref =
        subst (λ (x : Option R × S). IsApart (side.base x.1) id ref) went
          (reader.on_round fuel c r id ref a) in
      let (c'', ran, shows') = more bytes c' r' fuel left shows a' enough in
      (c'', loop_next side.turn fuel c c' r r' went ∙ ran, shows')

  Reception-passing :
      (runs : Bool) (n : ℕ) (xs : List (Option (List ℕ))) (delivered : List ℕ) (p : PacketGw)
      (d : Option (List ℕ))
      → IsSendable p d
      → PassesBy p.packet_type p.link_id id
      → Reception runs n xs delivered
      → Reception runs (suc n) xs (wire (prepare p d) ++ delivered)
  Reception-passing runs n xs delivered p d ok passes more bytes c r zero e shows a h =
      absurd (omega arith)
  Reception-passing runs n xs delivered p d ok passes more bytes c r (suc fuel) e shows a h =
      let side = reader.side in
      let (r', c', went, left, kept) =
        reader.on_passing fuel c r id ref p d delivered a passes
          (wire-Arrives reads codec (side.base c) r p d delivered ok.valid ok.plain ok.sized e) in
      Reception-round runs n fuel xs delivered bytes c c' r r' more went left
        (Kept-Shows writes _ (side.base c) (side.base c') id ref kept shows) a (omega arith)

  Reception-chunk :
      (n : ℕ) (xs : List (Option (List ℕ))) (delivered : List ℕ) (p : PacketGw) (b : ℕ)
      (bs : List ℕ)
      → IsSendable p (some (b ∷ bs))
      → p.packet_type ≡ Packet.regular
      → p.link_id ≡ id
      → Reception true n xs delivered
      → Reception true (suc n) (some (b ∷ bs) ∷ xs) (wire (prepare p (some (b ∷ bs))) ++ delivered)
  unfolding feed_all feed
  Reception-chunk n xs delivered p b bs ok t l more bytes c r zero e shows a h =
      absurd (omega arith)
  Reception-chunk n xs delivered p b bs ok t l more bytes c r (suc fuel) e shows a h =
      let side = reader.side in
      let d = b ∷ bs in
      let link = shows.link in
      let (on, known) = shows.if_open refl in
      let (r', c', went, left, at') =
        side.on_data fuel c r ref link p b bs delivered
          (record { known = ap (Map.get (side.base c).links) l ∙ known; there = shows.there }) t
          (wire-Arrives reads codec (side.base c) r p (some d) delivered ok.valid ok.plain ok.sized
            e) in
      let (still_on, sent, _) = send_packet-sent writes link d on in
      Reception-round true n fuel xs delivered (bytes ++ d) c c' r r' more went left
        (record {
          link = Link.send_packet link (some d);
          there = at'.there;
          bytes = (sent (reliable link.writer d)).0 ∙ ap (λ x. x ++ d) shows.bytes;
          if_open = λ _. (still_on, sym (ap (Map.get (side.base c').links) l) ∙ at'.known);
          if_closed = λ h. cc;
        })
        a (omega arith)

  Reception-closing :
      (n : ℕ) (x : Option (List ℕ)) (xs : List (Option (List ℕ))) (delivered : List ℕ)
      (p : PacketGw)
      → ((q : Pipe) → feed q x ≡ record q { is_open = false })
      → IsSendable p none
      → p.packet_type ≡ Packet.close
      → p.link_id ≡ id
      → Reception false n xs delivered
      → Reception true (suc n) (x ∷ xs) (wire (prepare p none) ++ delivered)
  unfolding feed_all Link.close_connection
  Reception-closing n x xs delivered p ends ok t l more bytes c r zero e shows a h =
      absurd (omega arith)
  Reception-closing n x xs delivered p ends ok t l more bytes c r (suc fuel) e shows a h =
      let side = reader.side in
      let (on, known) = shows.if_open refl in
      let (r', c', went, left, gone) =
        side.on_close fuel c r ref shows.link p delivered
          (record { known = ap (Map.get (side.base c).links) l ∙ known; there = shows.there }) t
          (wire-Arrives reads codec (side.base c) r p none delivered ok.valid ok.plain ok.sized
            e) in
      rw (ends (record { bytes = bytes; is_open = true })) (
        Reception-round false n fuel xs delivered bytes c c' r r' more went left
          (record {
            link = Link.close_connection shows.link;
            there = gone.there;
            bytes = writes.sent-shutdown shows.link.writer ∙ shows.bytes;
            if_open = λ h. cc;
            if_closed = λ _. (refl, sym (ap (Map.get (side.base c').links) l) ∙ gone.unknown);
          })
          a (omega arith))

  -- The reader keeps up with what is put on the stream.
  pub Put-Reception :
      (runs runs' : Bool) (ys : List (Option (List ℕ))) (bytes : List ℕ) (n : ℕ)
      (xs : List (Option (List ℕ))) (delivered : List ℕ)
      → Put id runs runs' ys bytes
      → Reception runs' n xs delivered
      → Reception runs (suc n) (ys ++ xs) (bytes ++ delivered)
  unfolding feed_all feed
  Put-Reception runs runs' ys bytes n xs delivered (quiet o) more =
      λ b c r fuel e shows a h. more b c r fuel e shows a (omega arith)
  Put-Reception runs runs' ys bytes n xs delivered (passing o p d ok passes) more =
      Reception-passing o n xs delivered p d ok passes more
  Put-Reception runs runs' ys bytes n xs delivered (chunk p b bs ok t l) more =
      Reception-chunk n xs delivered p b bs ok t l more
  Put-Reception runs runs' ys bytes n xs delivered (closing p x ends ok t l) more =
      Reception-closing n x xs delivered p ends ok t l more
  Put-Reception runs runs' ys bytes n xs delivered (unread none) more =
      λ b c r fuel e shows a h. more b c r fuel e shows a (omega arith)
  Put-Reception runs runs' ys bytes n xs delivered (unread (some [])) more =
      λ b c r fuel e shows a h. more b c r fuel e shows a (omega arith)
  Put-Reception runs runs' ys bytes n xs delivered (unread (some (x ∷ d))) more =
      λ b c r fuel e shows a h. more b c r fuel e shows a (omega arith)
