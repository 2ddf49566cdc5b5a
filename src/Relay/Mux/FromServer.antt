-- ===== src/Relay/Mux/FromServer.antt =====
-- The tasks of gateway/server.rs as the writers of the stream to one client.
use iog.Prelude.{
  ℕ, ◌<◌, ◌^◌, ◌≡◌, ◌≢◌, ◌⊎◌, refl, sym, subst, ◌∙◌, Bool, true, false, not, Option, none, some,
  List, [], ◌∷◌, ◌==◌, arith, if◌then◌else◌, length, contains, get_elem?, Option-cases, inl, inr,
}
use iog.Transport.{WriteHalf, WriteLaws}
use iog.Packet
use iog.Packet.{PacketGw, open_link, pong, close}
use iog.Compression.{Zstd}
use iog.Link
use iog.Gateway.{Gateway, next_packet_id, with_link}
use iog.Gateway.Send.{send_gw_packet, send_pong}
use iog.Relay.Data.{data_packet, close_packet}
use iog.Relay.Downstream.{app_round-send}
use iog.Relay.Stream.Sender.{IsRead}
use iog.Relay.Mux.Put.{Puts}
use iog.Relay.Mux.Packets.{control-IsSendable}
use iog.Relay.Mux.Through.{through, through_passing}
use iog.Relay.Mux.Rounds.{Loops, turn_passing, turn-Puts}
use iog.Relay.Mux.Writer.{Writer}
use iog.Server.{GatewayServer, send_to}
use iog.Server.Exchange.{pong_to}
use iog.Server.App.{Pending, send_control, send_open, mark_waiting, app_round, app_end}
use iog.Server.Links.{remove_link}
use iog.Server.Traffic.{Act, reads, announces, answers, act}

-- Another connection than this one.
abbrev pub IsOther : Pending → Pending → Type 0
IsOther own p = (p.ref ≢ own.ref) × (p.link_id ≢ own.link_id)

-- The steps in which a connection keeps its place and its identifier to itself, with
-- identifiers of 16 bits and reads of at most a buffer.
abbrev pub Fits : Pending → Act → Type 0
Fits own (reads p x) = ((p ≡ own) ⊎ IsOther own p) × (p.link_id < 2 ^ 16) × IsRead x
Fits own (announces p) = IsOther own p × (p.link_id < 2 ^ 16)
Fits own (answers writer) = Unit

-- What the forwarding loop of a connection reads.
unfoldable pub reads_of : Pending → Act → List (Option (List ℕ))
reads_of own (reads p x) = if p.ref == own.ref then x ∷ [] else []
reads_of own (announces p) = []
reads_of own (answers writer) = []

module _ {W : Type 0} ⦃io : WriteHalf W⦄ ⦃z : Zstd⦄ where
  send_to-through :
      (s : GatewayServer W) (writer : ℕ) (p : PacketGw) (d : Option (List ℕ))
      → (send_to s writer p d).1.writers ≡ through s.writers s.base writer p d
  unfolding send_to
  send_to-through s writer p d = elim (Option-cases (get_elem? s.writers writer)) [
    | inl e ↦ rw (e, send_to, through) refl
    | inr (w, e) ↦ rw (e, send_to, through) refl
  ]

  send_control-through :
      (s : GatewayServer W) (writer : ℕ) (packet : ℕ → PacketGw)
      → (send_control s writer packet).writers
        ≡ through s.writers (next_packet_id s.base).1 writer (packet (next_packet_id s.base).0) none
  unfolding send_control
  send_control-through s writer packet =
      send_to-through (record s { base = (next_packet_id s.base).1 }) writer
        (packet (next_packet_id s.base).0) none

  pong_to-through :
      (s : GatewayServer W) (writer : ℕ)
      → (pong_to s writer).writers
        ≡ through s.writers
            (next_packet_id s.base).1
            writer
            (Packet.new pong (next_packet_id s.base).0 0 0)
            none
  unfolding pong_to send_pong
  pong_to-through s writer = elim (Option-cases (get_elem? s.writers writer)) [
    | inl e ↦ rw (e, pong_to, through) refl
    | inr (w, e) ↦ rw (e, pong_to, through) refl
  ]

  pub app_end-through :
      (s : GatewayServer W) (p : Pending)
      → (app_end s p).writers
        ≡ through s.writers
            (next_packet_id s.base).1
            p.client_writer
            (close_packet (next_packet_id s.base).0 p.link_id)
            none
  unfolding app_end remove_link close_packet
  app_end-through s p = send_control-through s p.client_writer (λ i. Packet.new close i p.link_id 0)

  -- What a round with data counts first.
  abbrev pub counted : GatewayServer W → Pending → List ℕ → Gateway W
  counted s p d = with_link s.base p.ref (λ l. Link.add_incoming l (length d))

  pub app_round-through :
      (s : GatewayServer W) (p : Pending) (b : ℕ) (bs : List ℕ)
      → let g = counted s p (b ∷ bs) in
        (app_round s p (some (b ∷ bs))).1.writers
        ≡ through s.writers
            (next_packet_id g).1
            p.client_writer
            (data_packet g p.link_id (b ∷ bs))
            (some (b ∷ bs))
  unfolding app_round data_packet
  app_round-through s p b bs =
      let g = counted s p (b ∷ bs) in
      send_to-through (record s { base = (next_packet_id g).1 }) p.client_writer
        (data_packet g p.link_id (b ∷ bs)) (some (b ∷ bs))

  pub app_round_goes_on :
      (s : GatewayServer W) (p : Pending) (b : ℕ) (bs : List ℕ) (w : W)
      → get_elem? s.writers p.client_writer ≡ some w
      → ((g : Gateway W) (q : PacketGw) → (send_gw_packet g w q (some (b ∷ bs))).0 ≡ true)
      → (app_round s p (some (b ∷ bs))).0 ≡ true
  app_round_goes_on s p b bs w at sent =
      let (g, went) = app_round-send s p w b bs at in
      went.0 ∙ sent (next_packet_id g).1 (data_packet g p.link_id (b ∷ bs))

  unfoldable pub loops : Loops W (GatewayServer W) Pending
  unfolding app_round
  loops = record {
    writers = λ s. s.writers;
    ref = λ p. p.ref;
    link_id = λ p. p.link_id;
    writer = λ p. p.client_writer;
    round = app_round;
    finish = app_end;
    on_error = λ s p. refl;
    on_end = λ s p. refl;
    on_chunk = λ s p b bs. (counted s p (b ∷ bs), app_round-through s p b bs);
    on_sent = app_round_goes_on;
    on_finish = λ s p. (s.base, app_end-through s p);
  }

-- Whether a connection's loop still runs.
abbrev pub runs : {W : Type 0} → Pending → List ℕ × GatewayServer W → Bool
runs own (ended, s) = not (contains ended own.ref)

module _ {W : Type 0} ⦃io : WriteHalf W⦄ ⦃z : Zstd⦄ (writes : WriteLaws W io)
    (reliable : (w : W) (d : List ℕ) → (io.write_all w d).0 ≡ true) (own : Pending) where
  -- The step puts these reads of the loop on the stream.
  abbrev PutsOwn : Bool → Bool → List (Option (List ℕ)) → W → GatewayServer W → Type 0
  PutsOwn before after xs w s =
      Puts writes own.link_id before after xs w (get_elem? s.writers own.client_writer)

  announces-Puts :
      (s : GatewayServer W) (p : Pending) (on : Bool) (w : W)
      → IsOther own p
      → p.link_id < 2 ^ 16
      → get_elem? s.writers own.client_writer ≡ some w
      → PutsOwn on on [] w (mark_waiting (send_open s p) p.ref)
  unfolding mark_waiting send_open Packet.new
  announces-Puts s p on w other fits at =
      let packet = λ (i : ℕ). Packet.new open_link i p.link_id 0 in
      let (i, g) = next_packet_id s.base in
      rw (send_control-through s p.client_writer packet) (
        through_passing writes reliable own.link_id s.writers g p.client_writer own.client_writer w
          (packet i) none on (control-IsSendable open_link s.base p.link_id fits) other.1 at)

  answers-Puts :
      (s : GatewayServer W) (writer : ℕ) (on : Bool) (w : W)
      → get_elem? s.writers own.client_writer ≡ some w
      → PutsOwn on on [] w (pong_to s writer)
  unfolding Packet.new
  answers-Puts s writer on w at =
      let (i, g) = next_packet_id s.base in
      rw (pong_to-through s writer) (
        through_passing writes reliable own.link_id s.writers g writer own.client_writer w
          (Packet.new pong i 0 0) none on (control-IsSendable pong s.base 0 (omega arith)) tt at)

  own-Puts :
      (ended : List ℕ) (x : Option (List ℕ)) (s : GatewayServer W) (w : W)
      → own.link_id < 2 ^ 16
      → IsRead x
      → get_elem? s.writers own.client_writer ≡ some w
      → let t = act (ended, s) (reads own x) in
        PutsOwn (runs own (ended, s)) (runs own t) (reads_of own (reads own x)) w t.1
  unfolding act reads_of loops
  own-Puts ended x s w fits size at =
      let same : (own.ref == own.ref) ≡ true = ground arith in
      rw same
        (turn-Puts writes reliable (GatewayServer W) Pending loops own ended x s w fits size at)

  pub act-Puts :
      (x : List ℕ × GatewayServer W) (a : Act) (w : W)
      → Fits own a
      → get_elem? x.1.writers own.client_writer ≡ some w
      → PutsOwn (runs own x) (runs own (act x a)) (reads_of own a) w (act x a).1
  unfolding act reads_of loops
  act-Puts (ended, s) (announces p) w (other, fits) at =
      announces-Puts s p (runs own (ended, s)) w other fits at
  act-Puts (ended, s) (answers writer) w fits at = answers-Puts s writer (runs own (ended, s)) w at
  act-Puts (ended, s) (reads p x) w (inl e, fits, size) at =
      subst
        (λ q.
          PutsOwn (runs own (ended, s)) (runs own (act (ended, s) (reads q x)))
            (reads_of own (reads q x)) w (act (ended, s) (reads q x)).1)
        (sym e) (own-Puts ended x s w (subst (λ q. q.link_id < 2 ^ 16) e fits) size at)
  act-Puts (ended, s) (reads p x) w (inr other, fits, size) at =
      let apart : (p.ref == own.ref) ≡ false = ground (arith, other.0) in
      rw apart (
        turn_passing writes reliable (GatewayServer W) Pending loops own ended p x s w other fits
          size at)

  unfoldable pub tasks : Writer writes (List ℕ × GatewayServer W) Act own.link_id
  tasks = record {
    act = act;
    runs = runs own;
    stream = λ x. get_elem? x.1.writers own.client_writer;
    reads_of = reads_of own;
    Fits = Fits own;
    on_act = act-Puts;
  }
