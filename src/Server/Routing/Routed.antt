-- ===== src/Server/Routing/Routed.antt =====
-- What holds between any two changes to the routes and the registry of gateway/server.rs.
use iog.Prelude.{ℕ, ◌≡◌, ◌⊎◌, some, [], nat_eq}
use iog.Map
use iog.Statistics.{Timestamp}
use iog.Configuration.{Configuration}
use iog.Metrics.{Metrics}
use iog.BufferPool.{BufferPool}
use iog.Gateway
use iog.Link
use iog.Server
use iog.Server.{SocketAddr, addr_key}
use iog.Server.Routing.Due.{Due}
use iog.Server.Routing.{Tables}

-- No task has begun.
abbrev pub start : {W : Type 0} → Configuration → Timestamp → Metrics → BufferPool → Tables W
start config now metrics pool = record { server = Server.new config now metrics pool; duties = [] }

-- Every registered link has a route, or a task that is to route or to drop it.
abbrev pub IsRouted : {W : Type 0} → Tables W → Type 0
IsRouted x =
    (id ref : ℕ)
    → Map.get x.server.base.links id ≡ some ref
    → ((addr : SocketAddr) × (Map.get x.server.link_clients id ≡ some addr)) ⊎ Due x.duties id
