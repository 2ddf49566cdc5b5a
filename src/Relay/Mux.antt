-- ===== src/Relay/Mux.antt =====
-- Connections that share one stream: whatever the other tasks of a side do, each connection is a
-- pipe of its own.
pub mod Put
pub mod Reader
pub mod Writer
pub mod AtClient
pub mod AtServer
pub mod Packets
pub mod Through
pub mod Rounds
pub mod FromServer
pub mod FromClient
use iog.Prelude.{
  ℕ, refl, ◌+◌, ◌<◌, ◌^◌, ◌≡◌, ap, ◌∙◌, Bool, true, false, not, Option, none, some, List, [], ◌++◌,
  length, All, contains, get_elem?, nat_eq,
}
use iog.Transport.{WriteHalf, WriteLaws, ReadHalf, ReadLaws}
use iog.Statistics.{Timestamp}
use iog.Compression.{Zstd, ZstdLaws}
use iog.Gateway.Apart.{IsApart}
use iog.Relay.Pipe.{Pipe, feed_all}
use iog.Relay.Stream.Reception.{Shows}
use iog.Relay.Stream.Client.{gateway_exchange-loop}
use mathlib.Core.Option
use iog.Relay.Stream.Server.{client_exchange-loop}
use iog.Relay.Mux.Writer.{all_reads, acts, acts-loop}
use iog.Relay.Mux.AtClient.Round
use iog.Relay.Mux.AtServer
use iog.Relay.Mux.FromServer
use iog.Relay.Mux.FromClient
use iog.Relay.Mux.FromClient.Tasks
use iog.Server.{GatewayServer}
use iog.Server.App.{Pending}
use iog.Server.{SocketAddr}
use iog.Server.Exchange.{client_exchange}
use iog.Server.Links.{cleanup_client}
use iog.Server.Traffic
use iog.Client.Traffic as ClientTraffic
use iog.Client.{GatewayClient}
use iog.Client.Exchange.{gateway_exchange}

module _ {W R : Type 0} ⦃io : WriteHalf W⦄ ⦃ir : ReadHalf R⦄ ⦃z : Zstd⦄ (writes : WriteLaws W io)
    (reads : ReadLaws R ir) (codec : ZstdLaws z)
    (reliable : (w : W) (d : List ℕ) → (io.write_all w d).0 ≡ true) (now : ℕ → Timestamp)
    (streams : ℕ → Option W) (writer ref : ℕ) where
  -- Whatever the tasks of the server do, a connection is a pipe to the client's application. Given
  -- streams and a codec that keep their laws, writes that do not fail, and any sequence of steps of
  -- forwarding loops to any clients, announcements of new connections and answers to pings, in
  -- which no other connection has the place or the identifier of this one, identifiers have 16
  -- bits and reads at most 16384 bytes: this connection's loop still runs exactly if the
  -- pipe of its own reads is open. A client that reads all that the steps sent to it, with the
  -- link under that identifier registered and connected and no other identifier in its place, and
  -- fuel for one round more than there are steps, comes to the end of it, and its application then
  -- has got, after what it had, the bytes that came out of the pipe of this connection's
  -- reads, in order, with the link registered and connected still if the pipe is open, closed and
  -- unregistered if not.
  pub traffic-gateway_exchange :
      (s : GatewayServer W) (own : Pending) (steps : List Traffic.Act) (w w' : W)
      (c : GatewayClient W) (r : R) (bytes delivered : List ℕ) (fuel : ℕ)
      → All (FromServer.Fits own) steps
      → get_elem? s.writers own.client_writer ≡ some w
      → let t = acts Traffic.act ([], s) steps in
        get_elem? t.1.writers own.client_writer ≡ some w'
        → writes.sent w' ≡ writes.sent w ++ delivered
        → reads.pending r ≡ delivered
        → Shows writes (record { bytes = bytes; is_open = true }) c.base own.link_id ref
        → IsApart c.base own.link_id ref
        → length steps < fuel
        → let pipe =
            feed_all
              (record { bytes = bytes; is_open = true })
              (all_reads (FromServer.reads_of own) steps) in
          (not (contains t.0 own.ref) ≡ pipe.is_open)
          × (c' : GatewayClient W) × (gateway_exchange now streams fuel c r writer ≡ some c')
          × Shows writes pipe c'.base own.link_id ref
  unfolding Round.reader FromServer.tasks
  traffic-gateway_exchange s own steps w w' c r bytes delivered fuel fits at at' sent e shows apart
        enough =
      let reader = Round.reader reads now streams writer in
      let tasks = FromServer.tasks writes reliable own in
      let (opens, c', ran, shows') =
        acts-loop writes reads codec reliable (GatewayClient W) (List ℕ × GatewayServer W)
          Traffic.Act reader own.link_id ref tasks ([], s) steps w w' c r bytes delivered fuel fits
          refl at at' sent e shows apart enough in
      (opens, c', gateway_exchange-loop reads now streams writer fuel c r ∙ ran, shows')

module _ {W R : Type 0} ⦃io : WriteHalf W⦄ ⦃ir : ReadHalf R⦄ ⦃z : Zstd⦄ (writes : WriteLaws W io)
    (reads : ReadLaws R ir) (codec : ZstdLaws z)
    (reliable : (w : W) (d : List ℕ) → (io.write_all w d).0 ≡ true) (writer ref : ℕ)
    (addr : SocketAddr) (session_id : ℕ) where
  -- The same from the client's applications to the server's: under the same conditions, whatever
  -- its forwarding loops, its answers to `Open` and to pings and its ping loop send between the
  -- rounds of this connection's loop, the loop still runs exactly if the pipe of its own reads is
  -- open, and the server's loop for that client, on all that was sent, leaves the application
  -- with the bytes of this pipe after what it had, registered and connected still if the pipe is
  -- open, closed and unregistered if not, and ends by cleaning up after the session.
  pub traffic-client_exchange :
      (c : GatewayClient W) (own : ClientTraffic.Loop) (steps : List (ClientTraffic.Act W))
      (w w' : W) (s : GatewayServer W) (r : R) (bytes delivered : List ℕ) (fuel : ℕ)
      → All (FromClient.Fits own) steps
      → get_elem? c.writers own.writer ≡ some w
      → let t = acts ClientTraffic.act ([], c) steps in
        get_elem? t.1.writers own.writer ≡ some w'
        → writes.sent w' ≡ writes.sent w ++ delivered
        → reads.pending r ≡ delivered
        → Shows writes (record { bytes = bytes; is_open = true }) s.base own.link_id ref
        → IsApart s.base own.link_id ref
        → length steps < fuel
        → let pipe =
            feed_all
              (record { bytes = bytes; is_open = true })
              (all_reads (FromClient.reads_of own) steps) in
          (not (contains t.0 own.ref) ≡ pipe.is_open)
          × (s' : GatewayServer W) × (client_exchange fuel s r writer addr session_id
              ≡ some (cleanup_client s' addr session_id))
          × Shows writes pipe s'.base own.link_id ref
  unfolding AtServer.reader Tasks.tasks
  traffic-client_exchange c own steps w w' s r bytes delivered fuel fits at at' sent e shows apart
        enough =
      let reader = AtServer.reader reads writer in
      let tasks = Tasks.tasks writes reliable own in
      let (opens, s', ran, shows') =
        acts-loop writes reads codec reliable (GatewayServer W) (List ℕ × GatewayClient W)
          (ClientTraffic.Act W) reader own.link_id ref tasks ([], c) steps w w' s r bytes delivered
          fuel fits refl at at' sent e shows apart enough in
      (
        opens,
        s',
        client_exchange-loop reads writer fuel s r addr session_id
            ∙ ap (Option.map (λ t. cleanup_client t addr session_id)) ran,
        shows',
      )
