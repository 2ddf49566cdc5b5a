-- ===== src/Program/Start.antt =====
-- Which gateway the program starts, and what its operator's lines do.
use iog.Prelude.{
  ℕ, ◌<◌, ◌≡◌, ◌≢◌, ◌⊎◌, refl, sym, subst, ◌∙◌, Bool-cases, inl, inr, some, arith, ltb,
}
use iog.Statistics.{Timestamp}
use iog.Configuration.{
  Configuration, AppMode, undefined, client, server, app_mode, metrics_port, ok, err, validate,
  Verdict, Problem, codes,
}
use iog.Configuration.Validate.{Complete, Spells, validate_iff, app_mode_from_iff}
use iog.Metrics.{Metrics}
use iog.BufferPool.{BufferPool}
use iog.Client
use iog.Client.{GatewayClient}
use iog.Server
use iog.Program.{
  Outcome, invalid, undefined_mode, runs_client, runs_server, port_or_default, start_mode, main,
}

Verdict-cases : (v : Verdict) → (v ≡ ok) ⊎ ((p : Problem) × (v ≡ err p))
Verdict-cases ok = inl refl
Verdict-cases (err p) = inr (p, refl)

port_positive : (config : Configuration) → 0 < port_or_default (metrics_port config)
unfolding port_or_default metrics_port
port_positive config = elim (Bool-cases (ltb 0 config.network.port_metrics)) [
  | inl e ↦ rw (e, port_or_default) (ground arith)
  | inr e ↦ rw (e, port_or_default) (omega arith)
]

module _ {W : Type 0} (now : Timestamp) (metrics : Metrics) (pool : BufferPool) where
  main_valid :
      (config : Configuration) (m : AppMode)
      → app_mode config ≡ m
      → Complete config.network m
      → main {W = W} now metrics pool (some config)
        ≡ start_mode now metrics pool m (port_or_default (metrics_port config)) config
  unfolding main
  main_valid config m is_mode complete =
      let valid =
        (validate_iff config).1 (subst (Complete config.network) (sym is_mode) complete) in
      rw (valid, main, is_mode) refl

  main_invalid :
      (config : Configuration)
      → (¬ Complete config.network (app_mode config))
      → (p : Problem) × (main {W = W} now metrics pool (some config) ≡ invalid p)
  unfolding main
  main_invalid config incomplete = elim (Verdict-cases (validate config)) [
    | inl e ↦ absurd (incomplete ((validate_iff config).0 e))
    | inr (p, e) ↦ (p, rw (e, main) refl)
  ]

  start_mode_defined :
      (m : AppMode) (port : ℕ) (config : Configuration)
      → Complete config.network m
      → start_mode {W = W} now metrics pool m port config ≢ undefined_mode
  unfolding start_mode
  start_mode_defined client port config complete e = cc
  start_mode_defined server port config complete e = cc
  start_mode_defined undefined port config complete e = complete

  never_undefined :
      (config : Configuration) → main {W = W} now metrics pool (some config) ≢ undefined_mode
  unfolding main start_mode
  never_undefined config e = elim (Verdict-cases (validate config)) [
    | inl valid ↦
        let complete = (validate_iff config).0 valid in
        start_mode_defined (app_mode config) (port_or_default (metrics_port config)) config complete
          (sym (main_valid config (app_mode config) refl complete) ∙ e)
    | inr (p, wrong) ↦
        let found : main {W = W} now metrics pool (some config) ≡ invalid p =
          rw (wrong, main) refl in
        cc
  ]

  -- A configuration whose mode spells `client` or `server` and that has all that the mode requires
  -- starts that gateway, new, beside a metrics server on a port above 0; one that lacks something
  -- stops the program with a complaint; and the branch for an undefined mode is never reached.
  pub main_starts :
      (config : Configuration)
      → let started : Outcome W = main now metrics pool (some config) in
        let port = port_or_default (metrics_port config) in
        (Spells config.general.mode (codes "client")
          → Complete config.network client
          → started ≡ runs_client port (Client.new config now metrics pool))
        × (Spells config.general.mode (codes "server")
            → Complete config.network server
            → started ≡ runs_server port (Server.new config now metrics pool))
        × ((¬ Complete config.network (app_mode config)) → (p : Problem) × (started ≡ invalid p))
        × (started ≢ undefined_mode)
        × (0 < port)
  unfolding start_mode app_mode
  main_starts config =
      let (is_client, is_server) = app_mode_from_iff config.general.mode in
      (
        (λ spells complete. main_valid config client (is_client.1 spells) complete),
        (λ spells complete. main_valid config server (is_server.1 spells) complete),
        main_invalid config,
        never_undefined config,
        port_positive config,
      )
