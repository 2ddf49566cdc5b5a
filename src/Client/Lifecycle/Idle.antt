-- ===== src/Client/Lifecycle/Idle.antt =====
-- The client between two connections, and what it makes of the next server that it reaches.
use iog.Prelude.{
  ℕ, ◌*◌, ◌<◌, ◌≡◌, refl, ◌∙◌, Bool-cases, true, false, Option, Option-cases, inl, inr, none, some,
  List, [], ◌∷◌, length,
}
use iog.Transport.{WriteHalf, ReadHalf, ReadLaws}
use iog.Statistics.{Timestamp, waiting, processing, connected}
use iog.Packet.{packet_header_size, to_bytes}
use iog.Packet.Stream.{write_both}
use iog.Compression.{Zstd}
use iog.Auth.{Hmac, compute_response}
use iog.Gateway
use iog.Gateway.{Gateway, next_packet_id}
use iog.Gateway.Registry.{close_all_links-IsClosed}
use iog.Configuration.{Configuration}
use iog.Metrics.{Metrics}
use iog.BufferPool.{BufferPool}
use iog.Client
use iog.Client.{GatewayClient}
use iog.Client.Handshake.{gw_authenticate, respond, read_challenge, response_packet}
use iog.Client.Connection
use iog.Client.Connection.{on_connection, on_disconnection}
use iog.Client.Exchange.Termination.{on_disconnection-gateway_exchange}
use iog.Client.Lifecycle.{Reached, connection, rounds, run}

-- No connection, no links, waiting.
pub record IsIdle {W : Type 0} (c : GatewayClient W) : Type 0 where
  pub reader : c.gw_reader ≡ none
  pub writer : c.gw_writer ≡ none
  pub links : c.base.links ≡ []
  pub state : c.base.state ≡ waiting

module _ {W R : Type 0} ⦃io : WriteHalf W⦄ ⦃ir : ReadHalf R⦄ ⦃h : Hmac⦄ where
  respond-links :
      (g : Gateway W) (read : Option (List ℕ) × R) (w : W) → (respond g read w).3.links ≡ g.links
  unfolding respond next_packet_id
  respond-links g (none, r) w = refl
  respond-links g (some nonce, r) w =
      let response = compute_response g.config.general.key nonce in
      let packet = response_packet (next_packet_id g).0 response in
      let g' = (next_packet_id g).1 in
      elim (Bool-cases (write_both w (to_bytes packet) response).0) [
        | inl e ↦ rw (e, respond) refl
        | inr e ↦ rw (e, respond) refl
      ]

  -- The connection to a server: confirmed, the client is connected through its writer; refused,
  -- it has no reader and no writer. Links stay as they are.
  pub on_connection-links :
      (c : GatewayClient W) (r : R) (w : W) (now : Timestamp)
      → let (confirmed, r', t) = on_connection c r w now in
        (t.base.links ≡ c.base.links)
        × ((gw_authenticate (Gateway.set_state c.base processing) r w).0 ≡ true
            → (confirmed ≡ some (length c.writers))
              × (t.gw_writer ≡ some (length c.writers))
              × (t.gw_reader ≡ some (length c.writers))
              × (t.base.state ≡ connected))
        × ((gw_authenticate (Gateway.set_state c.base processing) r w).0 ≡ false
            → (confirmed ≡ none) × (t.gw_writer ≡ none) × (t.gw_reader ≡ none))
  unfolding on_connection gw_authenticate Gateway.set_state Connection.clear
  on_connection-links c r w now =
      let base = Gateway.set_state c.base processing in
      let links = respond-links base (read_challenge r) w in
      elim (Bool-cases (gw_authenticate base r w).0) [
        | inl e ↦ rw (e, on_connection) (links, (λ yes. (refl, refl, refl, refl)), (λ no'. cc))
        | inr e ↦ rw (e, on_connection) (links, (λ yes. cc), (λ no'. (refl, refl, refl)))
      ]

module _ {W : Type 0} ⦃io : WriteHalf W⦄ where
  lost-IsIdle :
      (c : GatewayClient W)
      → let lost = on_disconnection c in
        IsIdle (record lost { base = Gateway.set_state lost.base waiting })
  unfolding on_disconnection Gateway.set_state Connection.clear
  lost-IsIdle c = record {
    reader = refl;
    writer = refl;
    links = (close_all_links-IsClosed c.base).0;
    state = refl;
  }

module _ {W R : Type 0} ⦃io : WriteHalf W⦄ ⦃ir : ReadHalf R⦄ ⦃z : Zstd⦄ ⦃h : Hmac⦄
    (laws : ReadLaws R ir) (fuel : R → ℕ)
    (enough : (r : R) → length (laws.pending r) < packet_header_size * fuel r) where
  connection_ends :
      (c : GatewayClient W) (a : Reached W R)
      → (t : GatewayClient W) × (connection fuel c a ≡ some t)
  unfolding connection
  connection_ends c a =
      let (confirmed, r, c') = on_connection c a.reader a.writer a.now in
      elim (Option-cases confirmed) [
        | inl e ↦ (c', rw (e, connection) refl)
        | inr (writer, e) ↦
            let (t, rounds', ends, after) =
              on_disconnection-gateway_exchange laws a.times a.streams (fuel r) c' r writer
                (enough r) in
            (t, rw (e, connection) ends)
      ]

  rounds-IsIdle :
      (c : GatewayClient W) (attempts : List (Option (Reached W R)))
      → IsIdle c
      → (t : GatewayClient W) × (rounds fuel c attempts ≡ some t) × IsIdle t
  unfolding rounds
  rounds-IsIdle c [] idle = (c, refl, idle)
  rounds-IsIdle c (none ∷ attempts) idle = rounds-IsIdle c attempts idle
  rounds-IsIdle c (some a ∷ attempts) idle =
      let (c', e) = connection_ends c a in
      let lost = on_disconnection c' in
      let (t, ran, idle') =
        rounds-IsIdle (record lost { base = Gateway.set_state lost.base waiting }) attempts
          (lost-IsIdle c') in
      (t, rw (e, rounds) ran, idle')

  -- A new client, over any sequence of attempts to connect, failed or followed by a connection of
  -- any content, on a stream that keeps its laws and with fuel for one round per header that it
  -- can hold, and one more: every connection ends, and between two the client has no
  -- connection and no links, and waits. The next server that it reaches finds it so: if that
  -- server confirms the client, the client is connected through it, and if not, it has no
  -- connection, and in either case no links.
  pub run-on_connection :
      (config : Configuration) (since : Timestamp) (metrics : Metrics) (pool : BufferPool)
      (attempts : List (Option (Reached W R))) (r : R) (w : W) (now : Timestamp)
      → (t : GatewayClient W) × (run fuel (Client.new config since metrics pool) attempts ≡ some t)
        × IsIdle t
        × (let accepted = (gw_authenticate (Gateway.set_state t.base processing) r w).0 in
            let (confirmed, r', u) = on_connection t r w now in
            (u.base.links ≡ [])
            × (accepted ≡ true
                → (confirmed ≡ some (length t.writers))
                  × (u.gw_writer ≡ some (length t.writers))
                  × (u.gw_reader ≡ some (length t.writers))
                  × (u.base.state ≡ connected))
            × (accepted ≡ false → (confirmed ≡ none) × (u.gw_writer ≡ none) × (u.gw_reader ≡ none)))
  unfolding run Client.new Gateway.new Gateway.set_state
  run-on_connection config since metrics pool attempts r w now =
      let c = Client.new config since metrics pool in
      let (t, ran, idle) =
        rounds-IsIdle (record c { base = Gateway.set_state c.base waiting }) attempts
          (record { reader = refl; writer = refl; links = refl; state = refl }) in
      let (links, accepted, refused) = on_connection-links t r w now in
      (t, ran, idle, (links ∙ idle.links, accepted, refused))
