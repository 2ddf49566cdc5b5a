-- ===== src/Relay/Stream/Sender.antt =====
-- The sending end of a connection: a forwarding loop, of either side, against a receiver.
use mathlib.Core.List.{append_assoc, append-nil, append_cancel_left}
use iog.Prelude.{
  ℕ, ◌+◌, ◌≤◌, ◌<◌, ◌^◌, ◌≡◌, refl, sym, ap, subst, ◌∙◌, Bool, true, false, Option, none, some,
  List, [], ◌∷◌, ◌++◌, length, All, get_elem?, nat_eq,
}
use iog.Map
use iog.Transport.{WriteHalf, WriteLaws, ReadHalf, ReadLaws}
use iog.Statistics.{buffer_size}
use iog.Compression.{Zstd, ZstdLaws}
use iog.Link.{Link, connected}
use iog.Gateway.{Gateway, next_packet_id}
use iog.Gateway.Send.{prepare, send_gw_packet}
use iog.Gateway.RoundTrip.{wire}
use iog.Relay.Arrival.{send_gw_packet_reliable}
use iog.Relay.Data.{
  data_packet, data_packet-IsPacket, data_packet-plain, data_packet-sized, data_packet-fields,
  close_packet, close_packet-IsPacket, close_packet-plain, close_packet-fields,
}
use iog.Relay.Pipe.{Pipe, feed, feed_all}
use iog.Relay.Stream.Receiver.{Receiver, loop}
use iog.Relay.Stream.Reception.{
  Shows, feed_all-closed, Received, Received-nothing, Received-data, Received-close,
}

-- What a side promises of its loop for a link: each read with bytes becomes a data packet, if that
-- can be sent; an error or the end of the input becomes a `Close`, and takes the link off the
-- registry.
pub record Sender (W : Type 0) ⦃io : WriteHalf W⦄ ⦃z : Zstd⦄ (T : Type 0) (link_id : ℕ)
    : Type 0 where
  pub exchange : T → List (Option (List ℕ)) → Bool × T
  pub writer : T → Option W
  pub links : T → List (ℕ × ℕ)
  pub finish : T → T
  pub on_nothing : (t : T) → exchange t [] ≡ (true, t)
  pub on_error : (t : T) (xs : List (Option (List ℕ))) → exchange t (none ∷ xs) ≡ (false, finish t)
  pub on_end : (t : T) (xs : List (Option (List ℕ))) → exchange t (some [] ∷ xs) ≡ (false, finish t)
  pub on_read :
      (t : T) (w : W) (b : ℕ) (bs : List ℕ) (xs : List (Option (List ℕ)))
      → writer t ≡ some w
      → (g : Gateway W) × (let sent =
            send_gw_packet
              (next_packet_id g).1
              w
              (data_packet g link_id (b ∷ bs))
              (some (b ∷ bs)) in
          sent.0 ≡ true
          → (t' : T) × (exchange t (some (b ∷ bs) ∷ xs) ≡ exchange t' xs)
            × (writer t' ≡ some sent.1))
  pub on_finish :
      (t : T) (w : W)
      → writer t ≡ some w
      → (g : Gateway W) × (writer (finish t)
          ≡ some
              (send_gw_packet
                (next_packet_id g).1
                w
                (close_packet (next_packet_id g).0 link_id)
                none).1)
  pub finish_gone : (t : T) → Map.get (links (finish t)) link_id ≡ none

-- The chunks that `read` can return.
abbrev pub IsRead : Option (List ℕ) → Type 0
IsRead none = Unit
IsRead (some d) = length d ≤ buffer_size

module _ {W R : Type 0} ⦃io : WriteHalf W⦄ ⦃ir : ReadHalf R⦄ ⦃z : Zstd⦄ (writes : WriteLaws W io)
    (reads : ReadLaws R ir) (codec : ZstdLaws z)
    (reliable : (w : W) (d : List ℕ) → (io.write_all w d).0 ≡ true) (S T : Type 0)
    (side : Receiver W reads S) (id ref : ℕ) (other : Sender W T id) where
  -- What the sender's loop leaves: its result, its writer, and what the receiver makes of that.
  abbrev Sent : T → List (Option (List ℕ)) → W → Type 0
  Sent t xs w =
      let (goes_on, u) = other.exchange t xs in
      ((bytes : List ℕ)
        → goes_on ≡ (feed_all (record { bytes = bytes; is_open = true }) xs).is_open)
      × (goes_on ≡ false → Map.get (other.links u) id ≡ none)
      × (w' : W) × (other.writer u ≡ some w')
      × (delivered : List ℕ) × (writes.sent w' ≡ writes.sent w ++ delivered)
      × Received writes reads codec reliable S side ref id xs delivered

  Sent-finish :
      (t : T) (x : Option (List ℕ)) (xs : List (Option (List ℕ))) (w : W)
      → other.exchange t (x ∷ xs) ≡ (false, other.finish t)
      → ((q : Pipe) → feed q x ≡ record q { is_open = false })
      → id < 2 ^ 16
      → other.writer t ≡ some w
      → Sent t (x ∷ xs) w
  unfolding feed_all
  Sent-finish t x xs w stops ends fits at =
      let (g, finished) = other.on_finish t w at in
      let packet = close_packet (next_packet_id g).0 id in
      let (size, kind, linked) = close_packet-fields (next_packet_id g).0 id in
      let (_, sent) = send_gw_packet_reliable writes reliable (next_packet_id g).1 w packet none in
      rw stops (
        (λ bytes. sym (
            ap (λ q. (feed_all q xs).is_open) (ends (record { bytes = bytes; is_open = true }))
            ∙ ap (λ q. q.is_open) (feed_all-closed bytes xs))),
        (λ _. other.finish_gone t),
        _,
        finished,
        _,
        sent,
        subst
            (λ i.
              Received writes reads codec reliable S side ref i (x ∷ xs)
                (wire (prepare packet none)))
            linked
            (Received-close writes reads codec reliable S side ref packet x xs ends
              (close_packet-IsPacket g id fits) (close_packet-plain _ id) size kind),
      )

  exchange-Sent :
      (t : T) (xs : List (Option (List ℕ))) (w : W)
      → id < 2 ^ 16
      → All IsRead xs
      → other.writer t ≡ some w
      → Sent t xs w
  unfolding feed_all feed
  exchange-Sent t [] w fits sizes at = rw (other.on_nothing t) (
    (λ bytes. refl),
    (λ e. cc),
    w,
    at,
    [],
    sym (append-nil (writes.sent w)),
    Received-nothing writes reads codec reliable S side ref id,
  )
  exchange-Sent t (none ∷ xs) w fits sizes at =
      Sent-finish t none xs w (other.on_error t xs) (λ q. refl) fits at
  exchange-Sent t (some [] ∷ xs) w fits sizes at =
      Sent-finish t (some []) xs w (other.on_end t xs) (λ q. refl) fits at
  exchange-Sent t (some (b ∷ bs) ∷ xs) w fits sizes at =
      let d = b ∷ bs in
      let (g, went) = other.on_read t w b bs xs at in
      let packet = data_packet g id d in
      let (kind, linked) = data_packet-fields g id d in
      let (ok, sent) =
        send_gw_packet_reliable writes reliable (next_packet_id g).1 w packet (some d) in
      let (t', same, at1) = went ok in
      let (opens, gone, w', at', delivered, sent', more) = exchange-Sent t' xs _ fits sizes.1 at1 in
      rw same (
        (λ bytes. opens (bytes ++ d)),
        gone,
        w',
        at',
        wire (prepare packet (some d)) ++ delivered,
        sent' ∙ ap (λ l. l ++ delivered) sent ∙ append_assoc (writes.sent w) _ delivered,
        subst
            (λ i.
              Received writes reads codec reliable S side ref i (some d ∷ xs)
                (wire (prepare packet (some d)) ++ delivered))
            linked
            (Received-data writes reads codec reliable S side ref packet b bs xs delivered
              (data_packet-IsPacket g id d fits) (data_packet-plain g id d)
              (data_packet-sized g id d sizes.0) kind
              (subst (λ i. Received writes reads codec reliable S side ref i xs delivered)
                (sym linked) more)),
      )

  -- A sender and a receiver keep the contract of a pipe.
  pub exchange-loop :
      (t : T) (xs : List (Option (List ℕ))) (w w' : W) (s : S) (r : R) (l : Link W)
      (delivered : List ℕ) (fuel : ℕ)
      → id < 2 ^ 16
      → All IsRead xs
      → other.writer t ≡ some w
      → let (goes_on, u) = other.exchange t xs in
        other.writer u ≡ some w'
        → writes.sent w' ≡ writes.sent w ++ delivered
        → reads.pending r ≡ delivered
        → Map.get (side.base s).links id ≡ some ref
        → get_elem? (side.base s).heap ref ≡ some l
        → l.state ≡ connected
        → length xs + 2 ≤ fuel
        → let pipe = feed_all (record { bytes = writes.sent l.writer; is_open = true }) xs in
          (goes_on ≡ pipe.is_open)
          × (goes_on ≡ false → Map.get (other.links u) id ≡ none)
          × (s' : S) × (loop side.turn fuel s r ≡ some s')
          × Shows writes pipe (side.base s') id ref
  exchange-loop t xs w w' s r l delivered fuel fits sizes at at' sent e known there on enough =
      let (opens, gone, w1, at1, bytes, sent1, received) = exchange-Sent t xs w fits sizes at in
      let same : w1 ≡ w' = cc in
      let whole : delivered ≡ bytes =
        append_cancel_left _ _ _ (sym sent ∙ ap writes.sent (sym same) ∙ sent1) in
      let (s', ran, shows) =
        received s r l fuel (e ∙ whole) (record { known = known; there = there }) on enough in
      (opens (writes.sent l.writer), gone, s', ran, shows)
