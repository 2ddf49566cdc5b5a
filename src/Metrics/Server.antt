-- ===== src/Metrics/Server.antt =====
-- The HTTP server of gateway/metrics.rs: what it answers, and how it starts. The registry of the
-- prometheus crate, its encoder and the axum crate are outside: what `encode` wrote, and whether it
-- failed, is an argument, as is the decoding of its bytes as UTF-8.
use iog.Prelude.{ℕ, Bool, Option, none, some, List}
use iog.Configuration.{codes}
use iog.Metrics.{Metrics, init_metrics}

abbrev pub encoding_error : List ℕ
encoding_error = codes "# Error encoding metrics\n"

unfoldable pub metrics_handler : Option (List ℕ) → (List ℕ → Option (List ℕ)) → List ℕ
metrics_handler none from_utf8 = encoding_error
metrics_handler (some buffer) from_utf8 = elim (from_utf8 buffer) [
  | none ↦ encoding_error
  | some text ↦ text
]

unfoldable pub health_handler : List ℕ
health_handler = codes "OK"

-- The collectors are registered, whether or not the port can be bound; the result is whether the
-- server runs.
unfoldable pub start_metrics_server : Metrics → Bool → Bool × Metrics
unfolding init_metrics
start_metrics_server m bound = (bound, init_metrics m)
