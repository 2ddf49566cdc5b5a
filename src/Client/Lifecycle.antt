-- ===== src/Client/Lifecycle.antt =====
-- The client from its start: `connect_gateway`, all of `on_connection`, and the loop of `run` in
-- gateway/client.rs, undisturbed by the tasks that it spawns. The outcomes of `TcpStream::connect`
-- are arguments, in their order.
pub mod Idle
use iog.Prelude.{ℕ, Option, none, some, List, [], ◌∷◌}
use iog.Transport.{WriteHalf, ReadHalf}
use iog.Statistics.{Timestamp, waiting}
use iog.Compression.{Zstd}
use iog.Auth.{Hmac}
use iog.Gateway
use iog.Client.{GatewayClient}
use iog.Client.Connection.{on_connection, on_disconnection}
use iog.Client.Exchange.{gateway_exchange}

-- A server that was reached: the halves of the connection, the time of the authentication, and
-- what the exchange loop meets.
pub record Reached (W R : Type 0) : Type 0 where
  pub reader : R
  pub writer : W
  pub now : Timestamp
  pub times : ℕ → Timestamp
  pub streams : ℕ → Option W

module _ {W R : Type 0} ⦃io : WriteHalf W⦄ ⦃ir : ReadHalf R⦄ ⦃z : Zstd⦄ ⦃h : Hmac⦄
    (fuel : R → ℕ) where
  -- `on_connection`, its exchange included, on fuel for the reader that the authentication leaves.
  unfoldable pub connection : GatewayClient W → Reached W R → Option (GatewayClient W)
  unfolding on_connection gateway_exchange
  connection c a =
      let (confirmed, r, c') = on_connection c a.reader a.writer a.now in
      elim confirmed [
        | none ↦ some c'
        | some writer ↦ gateway_exchange a.times a.streams (fuel r) c' r writer
      ]

  -- `connect_gateway` and what follows it in the loop of `run`, over the attempts to connect so
  -- far: one that fails (`none`) is made again, after a pause.
  unfoldable pub rounds : GatewayClient W → List (Option (Reached W R)) → Option (GatewayClient W)
  unfolding connection on_disconnection Gateway.set_state
  rounds c [] = some c
  rounds c (none ∷ attempts) = rounds c attempts
  rounds c (some a ∷ attempts) = elim (connection c a) [
    | none ↦ none
    | some c' ↦
        let lost = on_disconnection c' in
        rounds (record lost { base = Gateway.set_state lost.base waiting }) attempts
  ]

  -- `run`, after the session's identifier has been restored.
  unfoldable pub run : GatewayClient W → List (Option (Reached W R)) → Option (GatewayClient W)
  unfolding rounds
  run c attempts = rounds (record c { base = Gateway.set_state c.base waiting }) attempts
