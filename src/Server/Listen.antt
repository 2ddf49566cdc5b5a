-- ===== src/Server/Listen.antt =====
-- `listen_gateway`, `listen_app` and `run` of gateway/server.rs. What `bind` and each `accept` gave
-- is an argument, `none` for an error; the results are the connections whose tasks are spawned.
use iog.Prelude.{Bool, true, false, Option, none, some, List, [], ◌∷◌}
use iog.Statistics.{waiting}
use iog.Gateway
use iog.Server.{GatewayServer}

-- The loop: an error of `accept` is only logged.
unfoldable pub accepted {ℓ} : {A : Type ℓ} → List (Option A) → List A
accepted [] = []
accepted (none ∷ outcomes) = accepted outcomes
accepted (some stream ∷ outcomes) = stream ∷ accepted outcomes

module _ {W : Type 0} where
  unfoldable pub listen_gateway {ℓ} :
      {A : Type ℓ} → GatewayServer W → Bool → List (Option A) → List A × GatewayServer W
  unfolding accepted Gateway.set_state
  listen_gateway s false outcomes = ([], s)
  listen_gateway s true outcomes =
      (accepted outcomes, record s { base = Gateway.set_state s.base waiting })

unfoldable pub listen_app {ℓ} : {A : Type ℓ} → Bool → List (Option A) → List A
unfolding accepted
listen_app false outcomes = []
listen_app true outcomes = accepted outcomes

module _ {W : Type 0} where
  -- Both listeners, each in a task of its own.
  unfoldable pub run {ℓ} :
      {A : Type ℓ}
      → GatewayServer W
      → Bool
      → List (Option A)
      → Bool
      → List (Option A)
      → List A × List A × GatewayServer W
  unfolding listen_gateway listen_app
  run s gw_bound gw_outcomes app_bound app_outcomes =
      let (clients, s') = listen_gateway s gw_bound gw_outcomes in
      (clients, listen_app app_bound app_outcomes, s')
