-- ===== src/Client/Traffic.antt =====
-- The tasks of gateway/client.rs that write to the server, in any order: the forwarding loops of
-- application connections, the answers to `Open` and to pings, and the ping loop. A loop is named
-- by the place of its link.
use iog.Prelude.{ℕ, Option, List}
use iog.Transport.{WriteHalf}
use iog.Statistics.{Timestamp}
use iog.Compression.{Zstd}
use iog.Gateway.Loops.{loop_round}
use iog.Client.{GatewayClient}
use iog.Client.Connection.{ping_tick}
use iog.Client.Exchange.{connect_client, pong_to}
use iog.Client.App.{app_round, app_end}

-- The link, its identifier and the writer of a forwarding loop.
pub record Loop : Type 0 where
  pub ref : ℕ
  pub link_id : ℕ
  pub writer : ℕ

pub data Act (W : Type 0) : Type 0 where
  reads : Loop → Option (List ℕ) → Act W
  connects : ℕ → ℕ → Option W → Act W
  answers : ℕ → Act W
  pings : ℕ → Timestamp → Act W

module _ {W : Type 0} ⦃io : WriteHalf W⦄ ⦃z : Zstd⦄ where
  -- With the loops that have ended so far.
  unfoldable pub act : List ℕ × GatewayClient W → Act W → List ℕ × GatewayClient W
  unfolding loop_round app_round app_end connect_client pong_to ping_tick
  act (ended, c) (reads p x) =
      loop_round (λ t. app_round t p.ref p.link_id p.writer x) (λ t. app_end t p.link_id p.writer)
        p.ref (ended, c)
  act (ended, c) (connects writer conn_id stream) =
      (ended, (connect_client c writer conn_id stream).1)
  act (ended, c) (answers writer) = (ended, pong_to c writer)
  act (ended, c) (pings writer now) = (ended, (ping_tick c writer now).1)
