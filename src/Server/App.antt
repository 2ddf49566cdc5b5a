-- ===== src/Server/App.antt =====
-- `handle_app_connection` and `app_exchange` of gateway/server.rs. The first is cut where it awaits
-- a lock, since other tasks run there: `open_connection`, `send_open`, `mark_waiting`.
pub mod Open
pub mod Announce
pub mod Race
use iog.Prelude.{
  ℕ, Bool, true, false, Option, none, some, List, [], ◌∷◌, if◌then◌else◌, length, nat_eq,
}
use iog.Bytes.{as_u16}
use iog.Map
use iog.Transport.{WriteHalf}
use iog.Packet
use iog.Packet.{PacketGw}
use iog.Compression.{Zstd}
use iog.Link
use iog.Gateway
use iog.Gateway.{Gateway, next_packet_id, next_link_id, alloc, with_link}
use iog.Server.{SocketAddr, ClientSession, GatewayServer, send_to}
use iog.Server.Links.{remove_link}

-- A connection under way: its link, its identifier and the writer of its client.
pub record Pending : Type 0 where
  pub ref : ℕ
  pub link_id : ℕ
  pub client_writer : ℕ

-- `sessions.values().next()`
abbrev pub first_session : List (SocketAddr × ClientSession) → Option ClientSession
first_session [] = none
first_session ((addr, s) ∷ sessions) = some s

module _ {W : Type 0} where
  unfoldable pub open_connection : GatewayServer W → W → Option Pending × GatewayServer W
  unfolding next_link_id alloc Gateway.add_link Link.new
  open_connection s stream =
      let (link_id, base) = next_link_id s.base in
      elim (first_session s.client_sessions) [
        | none ↦ (none, record s { base = base })
        | some c ↦
            let (ref, base') = alloc base (Link.new stream link_id) in
            (
              some (record { ref = ref; link_id = link_id; client_writer = c.writer }),
              record s {
                base = Gateway.add_link base' ref;
                link_clients = Map.insert s.link_clients link_id c.addr;
              },
            )
      ]

  unfoldable pub mark_waiting : GatewayServer W → ℕ → GatewayServer W
  unfolding with_link Link.set_state
  mark_waiting s ref = record s { base = with_link s.base ref (λ l. Link.set_state l Link.waiting) }

module _ {W : Type 0} ⦃io : WriteHalf W⦄ ⦃z : Zstd⦄ where
  -- A control packet for a link, under a fresh identifier; a failed write is only logged.
  unfoldable pub send_control : GatewayServer W → ℕ → (ℕ → PacketGw) → GatewayServer W
  unfolding next_packet_id send_to
  send_control s writer packet =
      let (packet_id, base) = next_packet_id s.base in
      (send_to (record s { base = base }) writer (packet packet_id) none).1

  unfoldable pub send_open : GatewayServer W → Pending → GatewayServer W
  unfolding send_control
  send_open s p = send_control s p.client_writer (λ id. Packet.new Packet.open_link id p.link_id 0)

  -- All of it, with no other task in between; the result is the forwarding task to spawn. The
  -- stream of a refused connection is shut down and dropped.
  unfoldable pub handle_app_connection : GatewayServer W → W → Option Pending × GatewayServer W
  unfolding open_connection send_open mark_waiting
  handle_app_connection s stream =
      let (opened, s1) = open_connection s stream in
      elim opened [ none ↦ (none, s1) | some p ↦ (some p, mark_waiting (send_open s1 p) p.ref) ]

  -- One round of the loop, with the result of a read (`none` is an error); `false` is its end.
  unfoldable pub app_round : GatewayServer W → Pending → Option (List ℕ) → Bool × GatewayServer W
  unfolding with_link next_packet_id send_to
  app_round s p none = (false, s)
  app_round s p (some []) = (false, s)
  app_round s p (some (b ∷ bs)) =
      let n = length (b ∷ bs) in
      let base = with_link s.base p.ref (λ l. Link.add_incoming l n) in
      let (packet_id, base') = next_packet_id base in
      send_to (record s { base = base' }) p.client_writer
        (Packet.new Packet.regular packet_id p.link_id (as_u16 n)) (some (b ∷ bs))

  unfoldable pub app_end : GatewayServer W → Pending → GatewayServer W
  unfolding send_control remove_link
  app_end s p =
      remove_link (send_control s p.client_writer (λ id. Packet.new Packet.close id p.link_id 0))
        p.link_id

  -- The loop over the reads so far; `false` is that the task has ended.
  unfoldable pub app_exchange :
      GatewayServer W → Pending → List (Option (List ℕ)) → Bool × GatewayServer W
  unfolding app_round app_end
  app_exchange s p [] = (true, s)
  app_exchange s p (x ∷ xs) =
      let (goes_on, s') = app_round s p x in
      let rest = app_exchange s' p xs in if goes_on then rest else (false, app_end s' p)
