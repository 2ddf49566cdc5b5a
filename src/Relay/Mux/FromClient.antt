-- ===== src/Relay/Mux/FromClient.antt =====
-- What the tasks of gateway/client.rs send through the writers.
pub mod Tasks
use iog.Prelude.{
  ℕ, ◌<◌, ◌^◌, ◌≡◌, ◌≢◌, ◌⊎◌, refl, sym, subst, ◌∙◌, Bool, true, false, not, Option, none, some,
  List, [], ◌∷◌, ◌==◌, arith, if◌then◌else◌, length, contains, get_elem?, Option-cases, Bool-cases,
  inl, inr,
}
use iog.Transport.{WriteHalf, WriteLaws}
use iog.Packet
use iog.Packet.{PacketGw, opened, open_fail, ping, pong, close}
use iog.Compression.{Zstd}
use iog.Link
use iog.Gateway
use iog.Gateway.{Gateway, next_packet_id, with_link, alloc}
use iog.Gateway.Send.{send_gw_packet, send_pong}
use iog.Statistics.{Timestamp}
use iog.Relay.Data.{data_packet, close_packet}
use iog.Relay.Upstream.{send_to-send}
use iog.Relay.Stream.Sender.{IsRead}
use iog.Relay.Mux.Put.{Puts}
use iog.Relay.Mux.Packets.{control-IsSendable}
use iog.Relay.Mux.Through.{through, through_passing}
use iog.Relay.Mux.Rounds.{Loops, turn_passing, turn-Puts}
use iog.Relay.Mux.Writer.{Writer}
use iog.Client.{GatewayClient, send_to, send_control}
use iog.Client.Connection.{ping_tick}
use iog.Client.Exchange.{connect_client, pong_to}
use iog.Client.App.{app_round, app_end}
use iog.Client.Traffic.{Loop, Act, reads, connects, answers, pings, act}

-- Another connection than this one.
abbrev pub IsOther : Loop → Loop → Type 0
IsOther own p = (p.ref ≢ own.ref) × (p.link_id ≢ own.link_id)

-- The steps in which a connection keeps its place and its identifier to itself, with
-- identifiers of 16 bits and reads of at most a buffer.
abbrev pub Fits : {W : Type 0} → Loop → Act W → Type 0
Fits own (reads p x) = ((p ≡ own) ⊎ IsOther own p) × (p.link_id < 2 ^ 16) × IsRead x
Fits own (connects writer conn_id stream) = (conn_id ≢ own.link_id) × (conn_id < 2 ^ 16)
Fits own (answers writer) = Unit
Fits own (pings writer now) = Unit

-- What the forwarding loop of a connection reads.
unfoldable pub reads_of : {W : Type 0} → Loop → Act W → List (Option (List ℕ))
reads_of own (reads p x) = if p.ref == own.ref then x ∷ [] else []
reads_of own (connects writer conn_id stream) = []
reads_of own (answers writer) = []
reads_of own (pings writer now) = []

module _ {W : Type 0} ⦃io : WriteHalf W⦄ ⦃z : Zstd⦄ where
  send_to-through :
      (c : GatewayClient W) (writer : ℕ) (p : PacketGw) (d : Option (List ℕ))
      → (send_to c writer p d).1.writers ≡ through c.writers c.base writer p d
  unfolding send_to
  send_to-through c writer p d = elim (Option-cases (get_elem? c.writers writer)) [
    | inl e ↦ rw (e, send_to, through) refl
    | inr (w, e) ↦ rw (e, send_to, through) refl
  ]

  send_control-through :
      (c : GatewayClient W) (writer : ℕ) (packet : ℕ → PacketGw)
      → (send_control c writer packet).1.writers
        ≡ through c.writers (next_packet_id c.base).1 writer (packet (next_packet_id c.base).0) none
  unfolding send_control
  send_control-through c writer packet =
      send_to-through (record c { base = (next_packet_id c.base).1 }) writer
        (packet (next_packet_id c.base).0) none

  pub pong_to-through :
      (c : GatewayClient W) (writer : ℕ)
      → (pong_to c writer).writers
        ≡ through c.writers
            (next_packet_id c.base).1
            writer
            (Packet.new pong (next_packet_id c.base).0 0 0)
            none
  unfolding pong_to send_pong
  pong_to-through c writer = elim (Option-cases (get_elem? c.writers writer)) [
    | inl e ↦ rw (e, pong_to, through) refl
    | inr (w, e) ↦ rw (e, pong_to, through) refl
  ]

  pub ping_tick-through :
      (c : GatewayClient W) (writer : ℕ) (now : Timestamp)
      → (ping_tick c writer now).1.writers
        ≡ through c.writers
            (next_packet_id c.base).1
            writer
            (Packet.new ping (next_packet_id c.base).0 0 0)
            none
  unfolding ping_tick
  ping_tick-through c writer now =
      let packet = λ (i : ℕ). Packet.new ping i 0 0 in
      elim (Bool-cases (send_control c writer packet).0) [
        | inl sent ↦ rw (sent, ping_tick) (send_control-through c writer packet)
        | inr failed ↦ rw (failed, ping_tick) (send_control-through c writer packet)
      ]

  pub connect_client-through :
      (c : GatewayClient W) (writer conn_id : ℕ) (stream : Option W)
      → (g : Gateway W) × (t : Packet.PacketType) × ((t ≡ opened) ⊎ (t ≡ open_fail))
        × ((connect_client c writer conn_id stream).1.writers
            ≡ through c.writers
                (next_packet_id g).1
                writer
                (Packet.new t (next_packet_id g).0 conn_id 0)
                none)
  unfolding connect_client
  connect_client-through c writer conn_id none = (
    c.base,
    open_fail,
    inr refl,
    send_control-through c writer (λ i. Packet.new open_fail i conn_id 0),
  )
  connect_client-through c writer conn_id (some stream) =
      let (ref, base) = alloc c.base (Link.new stream conn_id) in
      let g = with_link (Gateway.add_link base ref) ref (λ l. Link.set_state l Link.connected) in
      (
        g,
        opened,
        inl refl,
        send_control-through (record c { base = g }) writer (λ i. Packet.new opened i conn_id 0),
      )

  pub app_end-through :
      (c : GatewayClient W) (p : Loop)
      → (app_end c p.link_id p.writer).writers
        ≡ through c.writers
            (next_packet_id c.base).1
            p.writer
            (close_packet (next_packet_id c.base).0 p.link_id)
            none
  unfolding app_end close_packet
  app_end-through c p = send_control-through c p.writer (λ i. Packet.new close i p.link_id 0)

  -- A round is a send, and what it adds has no part in it.
  pub app_round-through :
      (c : GatewayClient W) (p : Loop) (b : ℕ) (bs : List ℕ)
      → (app_round c p.ref p.link_id p.writer (some (b ∷ bs))).1.writers
        ≡ through c.writers
            (next_packet_id c.base).1
            p.writer
            (data_packet c.base p.link_id (b ∷ bs))
            (some (b ∷ bs))
  unfolding app_round data_packet
  app_round-through c p b bs =
      let c1 = record c { base = (next_packet_id c.base).1 } in
      let packet = data_packet c.base p.link_id (b ∷ bs) in
      let sends = send_to-through c1 p.writer packet (some (b ∷ bs)) in
      elim (Bool-cases (send_to c1 p.writer packet (some (b ∷ bs))).0) [
        | inl sent ↦ rw (sent, app_round) sends
        | inr failed ↦ rw (failed, app_round) sends
      ]

  pub app_round_goes_on :
      (c : GatewayClient W) (p : Loop) (b : ℕ) (bs : List ℕ) (w : W)
      → get_elem? c.writers p.writer ≡ some w
      → ((g : Gateway W) (q : PacketGw) → (send_gw_packet g w q (some (b ∷ bs))).0 ≡ true)
      → (app_round c p.ref p.link_id p.writer (some (b ∷ bs))).0 ≡ true
  unfolding app_round data_packet
  app_round_goes_on c p b bs w at sent =
      let c1 = record c { base = (next_packet_id c.base).1 } in
      let packet = data_packet c.base p.link_id (b ∷ bs) in
      let ok : (send_to c1 p.writer packet (some (b ∷ bs))).0 ≡ true =
        (send_to-send c1 p.writer w packet (some (b ∷ bs)) at).0 ∙ sent c1.base packet in
      rw (ok, app_round) refl

  unfoldable pub loops : Loops W (GatewayClient W) Loop
  unfolding app_round
  loops = record {
    writers = λ c. c.writers;
    ref = λ p. p.ref;
    link_id = λ p. p.link_id;
    writer = λ p. p.writer;
    round = λ c p x. app_round c p.ref p.link_id p.writer x;
    finish = λ c p. app_end c p.link_id p.writer;
    on_error = λ c p. refl;
    on_end = λ c p. refl;
    on_chunk = λ c p b bs. (c.base, app_round-through c p b bs);
    on_sent = app_round_goes_on;
    on_finish = λ c p. (c.base, app_end-through c p);
  }
