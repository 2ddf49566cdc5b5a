-- ===== src/Server/Traffic.antt =====
-- The tasks of gateway/server.rs that write to gateway clients, in any order: the forwarding loops
-- of application connections, the announcements of new ones, and the answers to pings. A loop is
-- named by the place of its link.
use iog.Prelude.{ℕ, Option, List}
use iog.Transport.{WriteHalf}
use iog.Compression.{Zstd}
use iog.Gateway.Loops.{loop_round}
use iog.Server.{GatewayServer}
use iog.Server.Exchange.{pong_to}
use iog.Server.App.{Pending, send_open, mark_waiting, app_round, app_end}

pub data Act : Type 0 where
  reads : Pending → Option (List ℕ) → Act
  announces : Pending → Act
  answers : ℕ → Act

module _ {W : Type 0} ⦃io : WriteHalf W⦄ ⦃z : Zstd⦄ where
  -- With the loops that have ended so far.
  unfoldable pub act : List ℕ × GatewayServer W → Act → List ℕ × GatewayServer W
  unfolding loop_round app_round app_end send_open mark_waiting pong_to
  act (ended, s) (reads p x) = loop_round (λ t. app_round t p x) (λ t. app_end t p) p.ref (ended, s)
  act (ended, s) (announces p) = (ended, mark_waiting (send_open s p) p.ref)
  act (ended, s) (answers writer) = (ended, pong_to s writer)
