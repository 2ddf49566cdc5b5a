-- ===== src/Relay/Stream.antt =====
-- A connection from its first read to its end, in both directions: the forwarding loop of one side
-- against the exchange loop of the other, which between them keep the contract of a pipe.
pub mod Receiver
pub mod Reception
pub mod Sender
pub mod Client
pub mod Server
use mathlib.Core.Option
use iog.Prelude.{
  ℕ, ◌+◌, ◌≤◌, ◌<◌, ◌^◌, ◌≡◌, ap, ◌∙◌, Bool, true, false, Option, none, some, List, ◌++◌, length,
  All, get_elem?, nat_eq,
}
use iog.Map
use iog.Transport.{WriteHalf, WriteLaws, ReadHalf, ReadLaws}
use iog.Statistics.{Timestamp}
use iog.Compression.{Zstd, ZstdLaws}
use iog.Link.{Link, connected}
use iog.Relay.Pipe.{Pipe, feed_all}
use iog.Relay.Stream.Reception.{Shows}
use iog.Relay.Stream.Sender.{IsRead, exchange-loop}
use iog.Relay.Stream.Client.{gateway_exchange-loop}
use iog.Relay.Stream.Server.{client_exchange-loop}
use iog.Server.{SocketAddr, GatewayServer}
use iog.Server.App.{Pending}
use iog.Server.Exchange.{client_exchange}
use iog.Server.Links.{cleanup_client}
use iog.Client.{GatewayClient}
use iog.Client.Exchange.{gateway_exchange}
use iog.Server.App
use iog.Client.App as ClientApp

module _ {W R : Type 0} ⦃io : WriteHalf W⦄ ⦃ir : ReadHalf R⦄ ⦃z : Zstd⦄ (writes : WriteLaws W io)
    (reads : ReadLaws R ir) (codec : ZstdLaws z)
    (reliable : (w : W) (d : List ℕ) → (io.write_all w d).0 ≡ true) (now : ℕ → Timestamp)
    (streams : ℕ → Option W) (writer ref : ℕ) where
  -- A connection is a pipe from the server's application to the client's. Given streams and a
  -- codec that keep their laws, writes that do not fail, a 16-bit link identifier and any
  -- sequence of reads of at most 16384 bytes each: the server's loop goes on exactly as long as the
  -- pipe stays open, and once it has ended the link is off the server's registry; and the client's
  -- loop, on all that the server's loop sent and with fuel for two rounds more than there are
  -- reads, ends with the link under that identifier, connected before, having sent to its
  -- application the bytes that came out of the pipe, in order, registered and connected still if
  -- the pipe is open, closed and unregistered if not.
  pub app_exchange-gateway_exchange :
      (s : GatewayServer W) (p : Pending) (xs : List (Option (List ℕ))) (w w' : W)
      (c : GatewayClient W) (r : R) (l : Link W) (delivered : List ℕ) (fuel : ℕ)
      → p.link_id < 2 ^ 16
      → All IsRead xs
      → get_elem? s.writers p.client_writer ≡ some w
      → let t = App.app_exchange s p xs in
        get_elem? t.1.writers p.client_writer ≡ some w'
        → writes.sent w' ≡ writes.sent w ++ delivered
        → reads.pending r ≡ delivered
        → Map.get c.base.links p.link_id ≡ some ref
        → get_elem? c.base.heap ref ≡ some l
        → l.state ≡ connected
        → length xs + 2 ≤ fuel
        → let pipe = feed_all (record { bytes = writes.sent l.writer; is_open = true }) xs in
          (t.0 ≡ pipe.is_open)
          × (t.0 ≡ false → Map.get t.1.base.links p.link_id ≡ none)
          × (c' : GatewayClient W) × (gateway_exchange now streams fuel c r writer ≡ some c')
          × Shows writes pipe c'.base p.link_id ref
  unfolding Client.receiver Server.sender
  app_exchange-gateway_exchange s p xs w w' c r l delivered fuel fits sizes at at' sent e known
        there on enough =
      let receiver = Client.receiver reads now streams writer in
      let sender = Server.sender p in
      let (opens, gone, c', ran, shows) =
        exchange-loop writes reads codec reliable (GatewayClient W) (GatewayServer W) receiver
          p.link_id ref sender s xs w w' c r l delivered fuel fits sizes at at' sent e known there
          on enough in
      (opens, gone, c', gateway_exchange-loop reads now streams writer fuel c r ∙ ran, shows)

module _ {W R : Type 0} ⦃io : WriteHalf W⦄ ⦃ir : ReadHalf R⦄ ⦃z : Zstd⦄ (writes : WriteLaws W io)
    (reads : ReadLaws R ir) (codec : ZstdLaws z)
    (reliable : (w : W) (d : List ℕ) → (io.write_all w d).0 ≡ true) (here up writer ref : ℕ)
    (addr : SocketAddr) (session_id : ℕ) where
  -- The same from the client's application to the server's. Under the same conditions, with a link
  -- registered and connected on the server: the client's loop goes on exactly as long as the pipe
  -- stays open, and once it has ended the link is off the client's registry; and the server's
  -- loop for that client reads all that the client's loop sent, with the link then having sent
  -- to its application the bytes that came out of the pipe, in order, registered and connected
  -- still if the pipe is open, closed and unregistered if not; and it ends by cleaning up after
  -- the session.
  pub app_exchange-client_exchange :
      (c : GatewayClient W) (link_id : ℕ) (xs : List (Option (List ℕ))) (w w' : W)
      (s : GatewayServer W) (r : R) (l : Link W) (delivered : List ℕ) (fuel : ℕ)
      → link_id < 2 ^ 16
      → All IsRead xs
      → get_elem? c.writers up ≡ some w
      → let t = ClientApp.app_exchange c here link_id up xs in
        get_elem? t.1.writers up ≡ some w'
        → writes.sent w' ≡ writes.sent w ++ delivered
        → reads.pending r ≡ delivered
        → Map.get s.base.links link_id ≡ some ref
        → get_elem? s.base.heap ref ≡ some l
        → l.state ≡ connected
        → length xs + 2 ≤ fuel
        → let pipe = feed_all (record { bytes = writes.sent l.writer; is_open = true }) xs in
          (t.0 ≡ pipe.is_open)
          × (t.0 ≡ false → Map.get t.1.base.links link_id ≡ none)
          × (s' : GatewayServer W) × (client_exchange fuel s r writer addr session_id
              ≡ some (cleanup_client s' addr session_id))
          × Shows writes pipe s'.base link_id ref
  unfolding Server.receiver Client.sender
  app_exchange-client_exchange c link_id xs w w' s r l delivered fuel fits sizes at at' sent e known
        there on enough =
      let receiver = Server.receiver reads writer in
      let sender = Client.sender here link_id up in
      let (opens, gone, s', ran, shows) =
        exchange-loop writes reads codec reliable (GatewayServer W) (GatewayClient W) receiver
          link_id ref sender c xs w w' s r l delivered fuel fits sizes at at' sent e known there on
          enough in
      (
        opens,
        gone,
        s',
        client_exchange-loop reads writer fuel s r addr session_id
            ∙ ap (Option.map (λ t. cleanup_client t addr session_id)) ran,
        shows,
      )
