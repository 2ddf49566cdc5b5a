-- ===== src/Tests/Sides.antt =====
-- The theorems on server and client, on a server with one client and one link.
use iog.Prelude.{
  true, false, replicate, ℕ, ◌≡◌, ◌≢◌, refl, none, some, List, [], ◌∷◌, ◌++◌, arith, get_elem?,
  nat_eq,
}
use iog.Bytes.{to_le_bytes}
use iog.Map
use iog.Statistics.{pos, waiting}
use iog.Packet
use iog.Packet.{to_bytes, regular}
use iog.Link
use iog.Link.{Link}
use iog.Gateway
use iog.Gateway.{Gateway}
use iog.Gateway.Send.{send_gw_packet}
use iog.Gateway.Registry.{IsClosed}
use iog.SessionStore.{restore_session}
use iog.Server.{SocketAddr, v4, addr_key, ClientSession, GatewayServer}
use iog.Server.Links.{cleanup_client, wait_if_empty}
use iog.Server.Cleanup.{cleanup_client-links, cleanup_client-sessions}
use iog.Server.Exchange.{client_exchange}
use iog.Server.Exchange.Termination.{client_exchange-cleanup_client}
use iog.Server.App.{Pending, mark_waiting}
use iog.Server.App
use iog.Server.App.Race.{HasState, opened_before_waiting}
use iog.Server.Exchange
use iog.Client.{GatewayClient}
use iog.Client.Exchange.{round}
use iog.Relay.Downstream.{app_round-round}
use iog.Relay.Upstream.{round-app_round}
use iog.Client
use iog.Client.Exchange.{gateway_exchange}
use iog.Client.Connection.{on_disconnection}
use iog.Client.Exchange.Termination.{on_disconnection-gateway_exchange}
use iog.Server.App.Announce.{handle_app_connection_announces}
use iog.Server.App.Open.{open_connection_registers}
use iog.Client.Handshake.{response_packet}
use iog.SessionStore.{has_session}
use iog.Statistics.{connected}
use iog.Server.Handshake.{authenticate_client}
use iog.Server.Sessions.{handle_gateway_connection, insert_session, mark_connected}
use iog.Server.Sessions.Race.{waiting_while_registered}
use iog.Server.Sessions.Register.{handle_gateway_connection_registers}
use iog.Tests.{
  summing, writing, writing_laws, reading, reading_laws, counting, counting_laws, gateway,
}

abbrev pub link : Link (List ℕ)
link = record {
  connection_id = 1;
  writer = [];
  state = Link.connected;
  statistics = record {
    packets_in = 0;
    packets_out = 0;
    bytes_in = 0;
    bytes_out = 0;
    connection_time = pos 0;
  };
  connection_awaiter = none;
  notified = [];
}

-- The gateway of either side, with that link registered.
abbrev base : Gateway (List ℕ)
base = record gateway { links = (1, 0) ∷ []; heap = link ∷ [] }

abbrev pub home : SocketAddr
home = v4 10 5000

abbrev pub session : ClientSession
session = record { writer = 0; addr = home; connected_at = pos 0; session_id = 77 }

abbrev pub server : GatewayServer (List ℕ)
server = record {
  base = base;
  client_sessions = (home, session) ∷ [];
  link_clients = (1, home) ∷ (2, v4 11 5001) ∷ [];
  session_store = record { sessions = (77, []) ∷ [] };
  writers = [] ∷ [];
}

cleanup_client-links_example :
    let t = cleanup_client server home 77 in
    ((id : ℕ)
      → Map.get server.link_clients id ≡ some home
      → (Map.get t.link_clients id ≡ none)
        × (Map.get t.base.links id ≡ none)
        × ((ref : ℕ) → Map.get server.base.links id ≡ some ref → IsClosed t.base.heap ref))
    × ((id : ℕ)
        → Map.get server.link_clients id ≢ some home
        → (Map.get t.link_clients id ≡ Map.get server.link_clients id)
          × (Map.get t.base.links id ≡ Map.get server.base.links id))
unfolding Map.get
cleanup_client-links_example = cleanup_client-links server home 77 (refl, (refl, tt))

cleanup_client-sessions_example :
    let t = cleanup_client server home 77 in
    ((c : ClientSession)
      → Map.get server.client_sessions home ≡ some c
      → (c.session_id ≡ 77 → Map.get t.client_sessions home ≡ none)
        × (c.session_id ≢ 77 → Map.get t.client_sessions home ≡ some c))
    × ((other : SocketAddr)
        → other ≢ home
        → Map.get t.client_sessions other ≡ Map.get server.client_sessions other)
    × ((restore_session t.session_store 77).0 ≡ none)
    × ((other : ℕ)
        → other ≢ 77
        → (restore_session t.session_store other).0
          ≡ (restore_session server.session_store other).0)
    × (t.client_sessions ≡ [] → t.base.state ≡ waiting)
    × (t.client_sessions ≢ [] → t.base.state ≡ server.base.state)
cleanup_client-sessions_example = cleanup_client-sessions server home 77

-- A stream with one ping and half a header.
abbrev stream : List ℕ
stream = to_bytes (Packet.new Packet.ping 1 0 0) ++ (0 ∷ 0 ∷ 0 ∷ [])

client_exchange-cleanup_client_example :
    (t : GatewayServer (List ℕ)) × Exchange.Termination.Rounds reading_laws 0 server stream t
    × (client_exchange 2 server stream 0 home 77 ≡ some (cleanup_client t home 77))
unfolding to_bytes to_le_bytes
client_exchange-cleanup_client_example =
    client_exchange-cleanup_client reading_laws 2 server stream 0 home 77 (omega arith)

opened_before_waiting_example :
    let late = (Exchange.dispatch Packet.opened (mark_waiting server 0) 0 1 none).1 in
    let early = mark_waiting (Exchange.dispatch Packet.opened server 0 1 none).1 0 in
    let after = (Exchange.dispatch regular early 0 1 (some (8 ∷ []))).1 in
    HasState late 0 Link.connected
    × HasState early 0 Link.waiting
    × (get_elem? after.base.heap 0 ≡ get_elem? early.base.heap 0)
unfolding Map.get
opened_before_waiting_example = opened_before_waiting server 0 1 0 link (8 ∷ []) refl refl

abbrev pub pending : Pending
pending = record { ref = 0; link_id = 1; client_writer = 0 }

abbrev pub client : GatewayClient (List ℕ)
client = record {
  base = base;
  gw_reader = some 0;
  gw_writer = some 0;
  last_activity = pos 0;
  writers = [] ∷ [];
}

-- What the server sends for the bytes 65 and 66.
abbrev pub delivered : List ℕ
delivered = to_bytes (Packet.new regular 1 1 2) ++ (65 ∷ 66 ∷ [])

app_round-round_example :
    let t = round client delivered 0 (pos 0) none in
    (r' : List ℕ) × (t.0 ≡ some r')
    × (r' ≡ [])
    × (m : Link (List ℕ)) × (get_elem? t.1.base.heap 0 ≡ some m)
    × (m.writer ≡ 65 ∷ 66 ∷ [])
unfolding App.app_round Gateway.new to_bytes Map.get send_gw_packet to_le_bytes
app_round-round_example =
    app_round-round writing_laws reading_laws counting_laws server pending [] delivered 65 (66 ∷ [])
      client delivered 0 0 link delivered [] (pos 0) none (omega arith) (omega arith) refl refl refl
      refl refl refl refl refl refl

round-app_round_example :
    let t = Exchange.round server delivered 0 in
    (r' : List ℕ) × (t.0 ≡ some r')
    × (r' ≡ [])
    × (m : Link (List ℕ)) × (get_elem? t.1.base.heap 0 ≡ some m)
    × (m.writer ≡ 65 ∷ 66 ∷ [])
unfolding Client.App.app_round Gateway.new to_bytes Map.get send_gw_packet to_le_bytes
round-app_round_example =
    round-app_round writing_laws reading_laws counting_laws client 0 1 0 [] delivered 65 (66 ∷ [])
      server delivered 0 0 link delivered [] (omega arith) (omega arith) refl refl refl refl refl
      refl refl refl refl

on_disconnection-gateway_exchange_example :
    (t : GatewayClient (List ℕ)) × Client.Exchange.Termination.Rounds reading_laws
      (λ n. pos n)
      (λ n. none)
      0
      2
      client
      stream
      t
    × (gateway_exchange (λ n. pos n) (λ n. none) 2 client stream 0 ≡ some t)
    × (let u = on_disconnection t in
        (u.gw_reader ≡ none)
        × (u.gw_writer ≡ none)
        × (u.base.links ≡ [])
        × ((id ref : ℕ) → Map.get t.base.links id ≡ some ref → IsClosed u.base.heap ref)
        × (u.base.state ≡ waiting))
unfolding to_bytes to_le_bytes
on_disconnection-gateway_exchange_example =
    on_disconnection-gateway_exchange reading_laws (λ n. pos n) (λ n. none) 2 client stream 0
      (omega arith)

open_connection_registers_example :
    let (opened, t) = App.open_connection server (9 ∷ []) in
    let id = (Gateway.next_link_id server.base).0 in
    ((c : ClientSession)
      → App.first_session server.client_sessions ≡ some c
      → ((p : Pending) × (opened ≡ some p)
          × (p.link_id ≡ id)
          × (p.client_writer ≡ c.writer)
          × (Map.get t.base.links id ≡ some p.ref)
          × (Map.get t.link_clients id ≡ some c.addr)
          × (get_elem? t.base.heap p.ref ≡ some (Link.new (9 ∷ []) id))
          × (get_elem? server.base.heap p.ref ≡ none))
        × ((other : ℕ)
            → other ≢ id
            → (Map.get t.base.links other ≡ Map.get server.base.links other)
              × (Map.get t.link_clients other ≡ Map.get server.link_clients other)))
    × (App.first_session server.client_sessions ≡ none
        → (opened ≡ none)
          × (t.base.links ≡ server.base.links)
          × (t.link_clients ≡ server.link_clients))
open_connection_registers_example = open_connection_registers server (9 ∷ [])

handle_app_connection_announces_example :
    let (opened, t) = App.handle_app_connection server (9 ∷ []) in
    let id = (Gateway.next_link_id server.base).0 in
    let announced = Packet.new Packet.open_link (Gateway.next_packet_id server.base).0 id 0 in
    ((c : ClientSession) (w : List ℕ)
      → App.first_session server.client_sessions ≡ some c
      → get_elem? server.writers c.writer ≡ some w
      → (p : Pending) × (opened ≡ some p)
        × (p.link_id ≡ id)
        × (p.client_writer ≡ c.writer)
        × (Map.get t.base.links id ≡ some p.ref)
        × (Map.get t.link_clients id ≡ some c.addr)
        × (get_elem? t.base.heap p.ref
            ≡ some (record (Link.new (9 ∷ []) id) { state = Link.waiting }))
        × (get_elem? t.writers c.writer ≡ some (writing.write_all w (to_bytes announced)).1))
    × (App.first_session server.client_sessions ≡ none
        → (opened ≡ none)
          × (t.base.links ≡ server.base.links)
          × (t.link_clients ≡ server.link_clients)
          × (t.writers ≡ server.writers))
handle_app_connection_announces_example = handle_app_connection_announces server (9 ∷ [])

-- A client that answers with the right tag.
abbrev pub nonce : List ℕ
nonce = replicate 32 5

abbrev pub response : List ℕ
response = to_bytes (response_packet 1 (replicate 32 163)) ++ replicate 32 163

handle_gateway_connection_registers_example :
    let accepted = (authenticate_client server.base response [] nonce false).0 in
    let result = handle_gateway_connection server home response [] nonce false 78 (pos 5) in
    let t = result.2 in
    (accepted ≡ true
      → (result.0 ≡ some 1)
        × (Map.get t.client_sessions home
            ≡ some (record { writer = 1; addr = home; connected_at = pos 5; session_id = 78 }))
        × (has_session t.session_store 78 ≡ true)
        × (t.base.state ≡ connected))
    × (accepted ≡ false
        → (result.0 ≡ none)
          × (Map.get t.client_sessions home ≡ none)
          × (t.session_store ≡ server.session_store))
    × ((other : SocketAddr)
        → other ≢ home
        → Map.get t.client_sessions other ≡ Map.get server.client_sessions other)
    × (t.link_clients ≡ server.link_clients)
handle_gateway_connection_registers_example =
    handle_gateway_connection_registers server home response [] nonce false 78 (pos 5)

-- The same server once its session has been released.
abbrev abandoned : GatewayServer (List ℕ)
abandoned = record server { client_sessions = [] }

waiting_while_registered_example :
    let late = wait_if_empty (insert_session (mark_connected abandoned) home 1 78 (pos 5)) in
    let early = insert_session (wait_if_empty (mark_connected abandoned)) home 1 78 (pos 5) in
    (late.base.state ≡ connected)
    × (early.base.state ≡ waiting)
    × (early.client_sessions ≡ late.client_sessions)
    × (Map.get early.client_sessions home
        ≡ some (record { writer = 1; addr = home; connected_at = pos 5; session_id = 78 }))
waiting_while_registered_example = waiting_while_registered abandoned home 1 78 (pos 5) refl
