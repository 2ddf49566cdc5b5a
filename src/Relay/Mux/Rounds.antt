-- ===== src/Relay/Mux/Rounds.antt =====
-- Rounds of forwarding loops, of either side, as one of the connections sees them.
use iog.Prelude.{
  ℕ, ◌<◌, ◌^◌, ◌≡◌, ◌≢◌, refl, ap, ◌∙◌, Bool, true, false, not, Option, none, some, List, [], ◌∷◌,
  ◌==◌, arith, contains, get_elem?, Bool-cases, inl, inr,
}
use iog.Transport.{WriteHalf, WriteLaws}
use iog.Packet
use iog.Packet.{PacketGw, close}
use iog.Compression.{Zstd}
use iog.Gateway.{Gateway, next_packet_id}
use iog.Gateway.Loops.{after_round, loop_round}
use iog.Gateway.Send.{send_gw_packet}
use iog.Relay.Arrival.{send_gw_packet_reliable}
use iog.Relay.Pipe.{Pipe, feed}
use iog.Relay.Data.{data_packet, close_packet}
use iog.Relay.Stream.Sender.{IsRead}
use iog.Relay.Mux.Put.{Puts, chunk, closing}
use iog.Relay.Mux.Packets.{data_packet-IsSendable, control-IsSendable}
use iog.Relay.Mux.Through.{
  through, through_other, Puts-quiet, Puts-unread, through-Puts, through_passing,
}

-- What a side promises of its loops `P`: a round with bytes sends them through the loop's
-- writer and goes on if they can be sent; an error or the end of the input breaks the loop, and a
-- `Close` follows.
pub record Loops (W : Type 0) ⦃io : WriteHalf W⦄ ⦃z : Zstd⦄ (T P : Type 0) : Type 0 where
  pub writers : T → List W
  pub ref : P → ℕ
  pub link_id : P → ℕ
  pub writer : P → ℕ
  pub round : T → P → Option (List ℕ) → Bool × T
  pub finish : T → P → T
  pub on_error : (t : T) (p : P) → round t p none ≡ (false, t)
  pub on_end : (t : T) (p : P) → round t p (some []) ≡ (false, t)
  pub on_chunk :
      (t : T) (p : P) (b : ℕ) (bs : List ℕ)
      → (g : Gateway W) × (writers (round t p (some (b ∷ bs))).1
          ≡ through
              (writers t)
              (next_packet_id g).1
              (writer p)
              (data_packet g (link_id p) (b ∷ bs))
              (some (b ∷ bs)))
  pub on_sent :
      (t : T) (p : P) (b : ℕ) (bs : List ℕ) (w : W)
      → get_elem? (writers t) (writer p) ≡ some w
      → ((g : Gateway W) (q : PacketGw) → (send_gw_packet g w q (some (b ∷ bs))).0 ≡ true)
      → (round t p (some (b ∷ bs))).0 ≡ true
  pub on_finish :
      (t : T) (p : P)
      → (g : Gateway W) × (writers (finish t p)
          ≡ through
              (writers t)
              (next_packet_id g).1
              (writer p)
              (close_packet (next_packet_id g).0 (link_id p))
              none)

module _ {W : Type 0} ⦃io : WriteHalf W⦄ ⦃z : Zstd⦄ (writes : WriteLaws W io)
    (reliable : (w : W) (d : List ℕ) → (io.write_all w d).0 ≡ true) (T P : Type 0)
    (side : Loops W T P) (own : P) where
  -- Another connection than this one.
  abbrev pub IsOther : P → Type 0
  IsOther p = (side.ref p ≢ side.ref own) × (side.link_id p ≢ side.link_id own)

  abbrev pub runs : List ℕ × T → Bool
  runs (ended, t) = not (contains ended (side.ref own))

  -- The step puts these reads of the loop on the stream.
  abbrev pub PutsOwn : Bool → Bool → List (Option (List ℕ)) → W → T → Type 0
  PutsOwn before after xs w t =
      Puts writes (side.link_id own) before after xs w
        (get_elem? (side.writers t) (side.writer own))

  -- A loop's round with what follows.
  abbrev pub turn : P → Option (List ℕ) → List ℕ × T → List ℕ × T
  turn p x = loop_round (λ t. side.round t p x) (λ t. side.finish t p) (side.ref p)

  round_goes_on :
      (t : T) (p : P) (b : ℕ) (bs : List ℕ) (w : W)
      → get_elem? (side.writers t) (side.writer p) ≡ some w
      → (side.round t p (some (b ∷ bs))).0 ≡ true
  round_goes_on t p b bs w at =
      side.on_sent t p b bs w at
        (λ g q. (send_gw_packet_reliable writes reliable g w q (some (b ∷ bs))).0)

  -- What a loop sends at its end, as another connection and as its own sees it.
  finish_passing :
      (t : T) (p : P) (on : Bool) (w : W)
      → side.link_id p ≢ side.link_id own
      → side.link_id p < 2 ^ 16
      → get_elem? (side.writers t) (side.writer own) ≡ some w
      → PutsOwn on on [] w (side.finish t p)
  unfolding close_packet Packet.new
  finish_passing t p on w other fits at =
      let (g, sent) = side.on_finish t p in
      rw sent (
        through_passing writes reliable (side.link_id own) (side.writers t) (next_packet_id g).1
          (side.writer p) (side.writer own) w (close_packet (next_packet_id g).0 (side.link_id p))
          none on (control-IsSendable close g (side.link_id p) fits) other at)

  finish-Puts :
      (t : T) (x : Option (List ℕ)) (w : W)
      → ((q : Pipe) → feed q x ≡ record q { is_open = false })
      → side.link_id own < 2 ^ 16
      → get_elem? (side.writers t) (side.writer own) ≡ some w
      → PutsOwn true false (x ∷ []) w (side.finish t own)
  unfolding close_packet Packet.new
  finish-Puts t x w ends fits at =
      let (g, sent) = side.on_finish t own in
      let packet = close_packet (next_packet_id g).0 (side.link_id own) in
      rw sent (
        through-Puts writes reliable (side.link_id own) (side.writers t) (next_packet_id g).1
          (side.writer own) w packet none true false (x ∷ []) at
          (closing packet x ends (control-IsSendable close g (side.link_id own) fits) refl refl))

  -- A round of another loop that still runs.
  abbrev PutsOther : List ℕ → P → Option (List ℕ) → T → W → Type 0
  PutsOther ended p x t w =
      let u = after_round (λ v. side.finish v p) ended (side.ref p) (side.round t p x) in
      Puts writes (side.link_id own) (runs (ended, t)) (runs u) [] w
        (get_elem? (side.writers u.1) (side.writer own))

  chunk_passing :
      (ended : List ℕ) (p : P) (b : ℕ) (bs : List ℕ) (t : T) (w : W)
      → IsOther p
      → side.link_id p < 2 ^ 16
      → IsRead (some (b ∷ bs))
      → get_elem? (side.writers t) (side.writer own) ≡ some w
      → PutsOther ended p (some (b ∷ bs)) t w
  unfolding after_round data_packet Packet.new
  chunk_passing ended p b bs t w (elsewhere, other) fits size at =
      let on = runs (ended, t) in
      let u = side.round t p (some (b ∷ bs)) in
      let (g, sent) = side.on_chunk t p b bs in
      let packet = data_packet g (side.link_id p) (b ∷ bs) in
      elim (Bool-cases u.0) [
        | inl went ↦
            rw (went, after_round)
              (rw sent (
                through_passing writes reliable (side.link_id own) (side.writers t)
                  (next_packet_id g).1 (side.writer p) (side.writer own) w packet (some (b ∷ bs)) on
                  (data_packet-IsSendable g (side.link_id p) (b ∷ bs) fits size) other at))
        | inr failed ↦
            let apart : (side.ref p == side.ref own) ≡ false = ground arith in
            let elsewhere' : side.writer p ≢ side.writer own =
              λ e. cc (round_goes_on t p b bs w (ap (get_elem? (side.writers t)) e ∙ at)) in
            let still : get_elem? (side.writers u.1) (side.writer own) ≡ some w =
              ap (λ l. get_elem? l (side.writer own)) sent
              ∙ through_other (side.writers t) (next_packet_id g).1 (side.writer p)
                  (side.writer own) packet (some (b ∷ bs)) elsewhere'
              ∙ at in
            rw (failed, after_round) (rw apart (finish_passing u.1 p on w other fits still))
      ]

  round_passing :
      (ended : List ℕ) (p : P) (x : Option (List ℕ)) (t : T) (w : W)
      → IsOther p
      → side.link_id p < 2 ^ 16
      → IsRead x
      → get_elem? (side.writers t) (side.writer own) ≡ some w
      → PutsOther ended p x t w
  unfolding after_round
  round_passing ended p none t w (elsewhere, other) fits size at =
      let apart : (side.ref p == side.ref own) ≡ false = ground arith in
      rw (side.on_error t p, apart) (finish_passing t p (runs (ended, t)) w other fits at)
  round_passing ended p (some []) t w (elsewhere, other) fits size at =
      let apart : (side.ref p == side.ref own) ≡ false = ground arith in
      rw (side.on_end t p, apart) (finish_passing t p (runs (ended, t)) w other fits at)
  round_passing ended p (some (b ∷ bs)) t w other fits size at =
      chunk_passing ended p b bs t w other fits size at

  -- A round of the connection's own loop, which still runs.
  round-Puts :
      (ended : List ℕ) (x : Option (List ℕ)) (t : T) (w : W)
      → side.link_id own < 2 ^ 16
      → IsRead x
      → get_elem? (side.writers t) (side.writer own) ≡ some w
      → contains ended (side.ref own) ≡ false
      → let u = after_round (λ v. side.finish v own) ended (side.ref own) (side.round t own x) in
        PutsOwn true (runs u) (x ∷ []) w u.1
  unfolding after_round feed data_packet Packet.new
  round-Puts ended none t w fits size at on =
      let same : (side.ref own == side.ref own) ≡ true = ground arith in
      rw (side.on_error t own, same) (finish-Puts t none w (λ q. refl) fits at)
  round-Puts ended (some []) t w fits size at on =
      let same : (side.ref own == side.ref own) ≡ true = ground arith in
      rw (side.on_end t own, same) (finish-Puts t (some []) w (λ q. refl) fits at)
  round-Puts ended (some (b ∷ bs)) t w fits size at on =
      let (g, sent) = side.on_chunk t own b bs in
      let packet = data_packet g (side.link_id own) (b ∷ bs) in
      rw (round_goes_on t own b bs w at, after_round)
        (rw (on, sent)
          (through-Puts writes reliable (side.link_id own) (side.writers t) (next_packet_id g).1
            (side.writer own) w packet (some (b ∷ bs)) true true (some (b ∷ bs) ∷ []) at
            (chunk packet b bs (data_packet-IsSendable g (side.link_id own) (b ∷ bs) fits size) refl
              refl)))

  -- A round of any loop, ended or not.
  pub turn_passing :
      (ended : List ℕ) (p : P) (x : Option (List ℕ)) (t : T) (w : W)
      → IsOther p
      → side.link_id p < 2 ^ 16
      → IsRead x
      → get_elem? (side.writers t) (side.writer own) ≡ some w
      → let u = turn p x (ended, t) in PutsOwn (runs (ended, t)) (runs u) [] w u.1
  unfolding loop_round
  turn_passing ended p x t w other fits size at = elim (Bool-cases (contains ended (side.ref p))) [
    | inl gone ↦
        rw (gone, loop_round)
          (Puts-quiet writes reliable (side.link_id own) (runs (ended, t)) w _ at)
    | inr on ↦ rw (on, loop_round) (round_passing ended p x t w other fits size at)
  ]

  pub turn-Puts :
      (ended : List ℕ) (x : Option (List ℕ)) (t : T) (w : W)
      → side.link_id own < 2 ^ 16
      → IsRead x
      → get_elem? (side.writers t) (side.writer own) ≡ some w
      → let u = turn own x (ended, t) in PutsOwn (runs (ended, t)) (runs u) (x ∷ []) w u.1
  unfolding loop_round
  turn-Puts ended x t w fits size at = elim (Bool-cases (contains ended (side.ref own))) [
    | inl gone ↦
        rw (gone, loop_round) (rw gone (Puts-unread writes reliable (side.link_id own) x w _ at))
    | inr on ↦ rw (on, loop_round) (round-Puts ended x t w fits size at on)
  ]
