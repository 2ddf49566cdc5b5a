-- ===== src/Program.antt =====
-- main.rs: what the program does with its configuration, and the commands of its operator. Where
-- the code waits for a line, the line is an argument; what it logs is left out.
pub mod Start
use iog.Prelude.{ℕ, Bool, true, false, Option, none, some, List, [], ◌∷◌, ◌||◌, if◌then◌else◌}
use iog.Text.{trim}
use iog.Transport.{WriteHalf}
use iog.Compression.{Zstd}
use iog.Statistics.{Timestamp}
use iog.Configuration.{
  Configuration, AppMode, undefined, client, server, app_mode, metrics_port, Problem, Verdict, ok,
  err, validate, bytes_eq, codes,
}
use iog.Metrics.{Metrics}
use iog.BufferPool.{BufferPool}
use iog.Client
use iog.Client.{GatewayClient}
use iog.Client.Connection.{send_ping}
use iog.Server
use iog.Server.{GatewayServer}
use iog.Report.{ClientReport, ServerReport, of_client, of_server}

-- `exit(1)`, with what is printed, or the gateway that runs beside a metrics server on a port.
pub data Outcome (W : Type 0) : Type 0 where
  load_error : Outcome W
  invalid : Problem → Outcome W
  undefined_mode : Outcome W
  runs_client : ℕ → GatewayClient W → Outcome W
  runs_server : ℕ → GatewayServer W → Outcome W

abbrev pub default_metrics_port : ℕ
default_metrics_port = 9090

-- `config.metrics_port().unwrap_or(DEFAULT_METRICS_PORT)`
unfoldable pub port_or_default : Option ℕ → ℕ
port_or_default none = default_metrics_port
port_or_default (some port) = port

-- The state of the statics and the time come from outside.
module _ {W : Type 0} (now : Timestamp) (metrics : Metrics) (pool : BufferPool) where
  unfoldable pub start_mode : AppMode → ℕ → Configuration → Outcome W
  unfolding Client.new Server.new
  start_mode client port config = runs_client port (Client.new config now metrics pool)
  start_mode server port config = runs_server port (Server.new config now metrics pool)
  start_mode undefined port config = undefined_mode

  abbrev validated : Verdict → Configuration → Outcome W
  validated (err problem) config = invalid problem
  validated ok config = start_mode (app_mode config) (port_or_default (metrics_port config)) config

  -- `main`, with the result of `Configuration::load`.
  unfoldable pub main : Option Configuration → Outcome W
  unfolding start_mode
  main none = load_error
  main (some config) = validated (validate config) config

-- `lines.next_line().await`
pub data Line : Type 0 where
  line : List ℕ → Line
  end_of_input read_error : Line

abbrev is_empty : List ℕ → Bool
is_empty [] = true
is_empty (c ∷ s) = false

abbrev is_ping : List ℕ → Bool
is_ping s = bytes_eq s (codes "p") || bytes_eq s (codes "P")

abbrev add_report : Option ClientReport → List ClientReport → List ClientReport
add_report none reports = reports
add_report (some r) reports = r ∷ reports

module _ {W : Type 0} ⦃io : WriteHalf W⦄ ⦃z : Zstd⦄ where
  -- One line, trimmed: the new state, and what is printed.
  unfoldable pub client_command : GatewayClient W → List ℕ → GatewayClient W × Option ClientReport
  unfolding send_ping
  client_command c s =
      if is_empty s
      then (c, some (of_client c))
      else if is_ping s
      then (send_ping c, none)
      else (c, none)

  -- The loop over the lines so far, undisturbed by other tasks; `false` is its end.
  unfoldable pub stdin_loop_client :
      GatewayClient W → List Line → Bool × List ClientReport × GatewayClient W
  unfolding client_command trim
  stdin_loop_client c [] = (true, [], c)
  stdin_loop_client c (end_of_input ∷ lines) = (false, [], c)
  stdin_loop_client c (read_error ∷ lines) = (false, [], c)
  stdin_loop_client c (line s ∷ lines) =
      let (c', printed) = client_command c (trim s) in
      let (goes_on, reports, t) = stdin_loop_client c' lines in
      (goes_on, add_report printed reports, t)

module _ {W : Type 0} where
  unfoldable pub stdin_loop_server : GatewayServer W → List Line → Bool × List ServerReport
  unfolding trim
  stdin_loop_server s [] = (true, [])
  stdin_loop_server s (end_of_input ∷ lines) = (false, [])
  stdin_loop_server s (read_error ∷ lines) = (false, [])
  stdin_loop_server s (line text ∷ lines) =
      let (goes_on, reports) = stdin_loop_server s lines in
      if is_empty (trim text) then (goes_on, of_server s ∷ reports) else (goes_on, reports)
