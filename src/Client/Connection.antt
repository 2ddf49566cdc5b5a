-- ===== src/Client/Connection.antt =====
-- The life of the client's connection in gateway/client.rs: `on_connection`, `start_ping_loop`,
-- `send_ping`, `on_disconnection`, `shutdown`.
use iog.Prelude.{
  ℕ, Bool, true, false, Option, none, some, [], ◌∷◌, ◌++◌, if◌then◌else◌, length, modify,
}
use iog.Transport.{WriteHalf, ReadHalf}
use iog.Statistics.{Timestamp, waiting, processing, connected}
use iog.Packet
use iog.Compression.{Zstd}
use iog.Auth.{Hmac}
use iog.Gateway
use iog.Gateway.{Gateway}
use iog.Client.{GatewayClient, send_control}
use iog.Client.Handshake.{gw_authenticate}

module _ {W : Type 0} where
  unfoldable pub clear : GatewayClient W → GatewayClient W
  clear c = record c { gw_reader = none; gw_writer = none }

module _ {W R : Type 0} ⦃io : WriteHalf W⦄ ⦃ir : ReadHalf R⦄ ⦃h : Hmac⦄ where
  -- Up to the ping and exchange loops, which are to start if the result is the place of a writer.
  unfoldable pub on_connection :
      GatewayClient W → R → W → Timestamp → Option ℕ × R × GatewayClient W
  unfolding clear Gateway.set_state
  on_connection c r w now =
      let writer = length c.writers in
      let c1 = record c {
        base = Gateway.set_state c.base processing;
        gw_reader = some writer;
        gw_writer = some writer;
        writers = c.writers ++ (w ∷ []);
      } in
      let (confirmed, r', w', base) = gw_authenticate c1.base r w in
      let c2 = record c1 { base = base; writers = modify c1.writers writer (λ x. w') } in
      if confirmed
      then (
        some writer,
        r',
        record c2 { base = Gateway.set_state c2.base connected; last_activity = now },
      )
      else (none, r', clear c2)

module _ {W : Type 0} ⦃io : WriteHalf W⦄ ⦃z : Zstd⦄ where
  -- One tick of the ping loop; `false` is its end.
  unfoldable pub ping_tick : GatewayClient W → ℕ → Timestamp → Bool × GatewayClient W
  unfolding send_control Gateway.update_keepalive
  ping_tick c writer now =
      let (sent, c') = send_control c writer (λ id. Packet.new Packet.ping id 0 0) in
      if sent
      then (true, record c' { base = Gateway.update_keepalive c'.base now })
      else (false, c')

  -- `send_ping`, the command of the operator.
  unfoldable pub send_ping : GatewayClient W → GatewayClient W
  unfolding send_control
  send_ping c = elim c.gw_writer [
    | none ↦ c
    | some writer ↦ (send_control c writer (λ id. Packet.new Packet.ping id 0 0)).1
  ]

module _ {W : Type 0} ⦃io : WriteHalf W⦄ where
  unfoldable pub on_disconnection : GatewayClient W → GatewayClient W
  unfolding clear Gateway.close_all_links Gateway.set_state
  on_disconnection c = record (clear c) {
    base = Gateway.set_state (Gateway.close_all_links c.base) waiting;
  }

  unfoldable pub shutdown : GatewayClient W → GatewayClient W
  unfolding Gateway.shutdown
  shutdown c = elim c.gw_writer [
    | none ↦ record c { base = Gateway.shutdown c.base }
    | some writer ↦ record c {
      base = Gateway.shutdown c.base;
      gw_writer = none;
      writers = modify c.writers writer io.shutdown;
    }
  ]
