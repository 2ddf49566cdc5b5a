-- ===== src/Relay/Mux/FromClient/Tasks.antt =====
-- The tasks of gateway/client.rs as the writers of the stream to the server.
use iog.Prelude.{
  ℕ, ◌<◌, ◌^◌, ◌≡◌, ◌≢◌, sym, subst, Bool, true, false, not, Option, none, some, List, [], ◌==◌,
  arith, contains, get_elem?, inl, inr,
}
use iog.Transport.{WriteHalf, WriteLaws}
use iog.Statistics.{Timestamp}
use iog.Packet
use iog.Packet.{opened, open_fail, ping, pong}
use iog.Compression.{Zstd}
use iog.Gateway.{next_packet_id}
use iog.Relay.Stream.Sender.{IsRead}
use iog.Relay.Mux.Put.{PassesBy, Puts}
use iog.Relay.Mux.Packets.{control-IsSendable}
use iog.Relay.Mux.Through.{through_passing}
use iog.Relay.Mux.Rounds.{turn_passing, turn-Puts}
use iog.Relay.Mux.Writer.{Writer}
use iog.Relay.Mux.FromClient.{
  Fits, reads_of, loops, pong_to-through, ping_tick-through, connect_client-through,
}
use iog.Client.{GatewayClient}
use iog.Client.Connection.{ping_tick}
use iog.Client.Exchange.{connect_client, pong_to}
use iog.Client.Traffic.{Loop, Act, reads, connects, answers, pings, act}

-- Whether a connection's loop still runs.
abbrev pub runs : {W : Type 0} → Loop → List ℕ × GatewayClient W → Bool
runs own (ended, c) = not (contains ended own.ref)

module _ {W : Type 0} ⦃io : WriteHalf W⦄ ⦃z : Zstd⦄ (writes : WriteLaws W io)
    (reliable : (w : W) (d : List ℕ) → (io.write_all w d).0 ≡ true) (own : Loop) where
  -- The step puts these reads of the loop on the stream.
  abbrev PutsOwn : Bool → Bool → List (Option (List ℕ)) → W → GatewayClient W → Type 0
  PutsOwn before after xs w c =
      Puts writes own.link_id before after xs w (get_elem? c.writers own.writer)

  connects-Puts :
      (c : GatewayClient W) (writer conn_id : ℕ) (stream : Option W) (on : Bool) (w : W)
      → conn_id ≢ own.link_id
      → conn_id < 2 ^ 16
      → get_elem? c.writers own.writer ≡ some w
      → PutsOwn on on [] w (connect_client c writer conn_id stream).1
  unfolding Packet.new
  connects-Puts c writer conn_id stream on w other fits at =
      let (g, t, kind, sent) = connect_client-through c writer conn_id stream in
      let passes : PassesBy t conn_id own.link_id = elim kind [
        | inl e ↦ subst (λ k. PassesBy k conn_id own.link_id) (sym e) other
        | inr e ↦ subst (λ k. PassesBy k conn_id own.link_id) (sym e) other
      ] in
      rw sent (
        through_passing writes reliable own.link_id c.writers (next_packet_id g).1 writer own.writer
          w (Packet.new t (next_packet_id g).0 conn_id 0) none on
          (control-IsSendable t g conn_id fits) passes at)

  answers-Puts :
      (c : GatewayClient W) (writer : ℕ) (on : Bool) (w : W)
      → get_elem? c.writers own.writer ≡ some w
      → PutsOwn on on [] w (pong_to c writer)
  unfolding Packet.new
  answers-Puts c writer on w at =
      let (i, g) = next_packet_id c.base in
      rw (pong_to-through c writer) (
        through_passing writes reliable own.link_id c.writers g writer own.writer w
          (Packet.new pong i 0 0) none on (control-IsSendable pong c.base 0 (omega arith)) tt at)

  pings-Puts :
      (c : GatewayClient W) (writer : ℕ) (now : Timestamp) (on : Bool) (w : W)
      → get_elem? c.writers own.writer ≡ some w
      → PutsOwn on on [] w (ping_tick c writer now).1
  unfolding Packet.new
  pings-Puts c writer now on w at =
      let (i, g) = next_packet_id c.base in
      rw (ping_tick-through c writer now) (
        through_passing writes reliable own.link_id c.writers g writer own.writer w
          (Packet.new ping i 0 0) none on (control-IsSendable ping c.base 0 (omega arith)) tt at)

  own-Puts :
      (ended : List ℕ) (x : Option (List ℕ)) (c : GatewayClient W) (w : W)
      → own.link_id < 2 ^ 16
      → IsRead x
      → get_elem? c.writers own.writer ≡ some w
      → let t = act (ended, c) (reads own x) in
        PutsOwn (runs own (ended, c)) (runs own t) (reads_of {W = W} own (reads own x)) w t.1
  unfolding act reads_of loops
  own-Puts ended x c w fits size at =
      let same : (own.ref == own.ref) ≡ true = ground arith in
      rw same (turn-Puts writes reliable (GatewayClient W) Loop loops own ended x c w fits size at)

  pub act-Puts :
      (x : List ℕ × GatewayClient W) (a : Act W) (w : W)
      → Fits own a
      → get_elem? x.1.writers own.writer ≡ some w
      → PutsOwn (runs own x) (runs own (act x a)) (reads_of own a) w (act x a).1
  unfolding act reads_of loops
  act-Puts (ended, c) (connects writer conn_id stream) w (other, fits) at =
      connects-Puts c writer conn_id stream (runs own (ended, c)) w other fits at
  act-Puts (ended, c) (answers writer) w fits at = answers-Puts c writer (runs own (ended, c)) w at
  act-Puts (ended, c) (pings writer now) w fits at =
      pings-Puts c writer now (runs own (ended, c)) w at
  act-Puts (ended, c) (reads p x) w (inl e, fits, size) at =
      subst
        (λ q.
          PutsOwn (runs own (ended, c)) (runs own (act (ended, c) (reads q x)))
            (reads_of {W = W} own (reads q x)) w (act (ended, c) (reads q x)).1)
        (sym e) (own-Puts ended x c w (subst (λ q. q.link_id < 2 ^ 16) e fits) size at)
  act-Puts (ended, c) (reads p x) w (inr other, fits, size) at =
      let apart : (p.ref == own.ref) ≡ false = ground (arith, other.0) in
      rw apart (
        turn_passing writes reliable (GatewayClient W) Loop loops own ended p x c w other fits size
          at)

  unfoldable pub tasks : Writer writes (List ℕ × GatewayClient W) (Act W) own.link_id
  tasks = record {
    act = act;
    runs = runs own;
    stream = λ x. get_elem? x.1.writers own.writer;
    reads_of = reads_of own;
    Fits = Fits own;
    on_act = act-Puts;
  }
