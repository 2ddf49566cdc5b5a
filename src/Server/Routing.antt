-- ===== src/Server/Routing.antt =====
-- The routes and the registry of gateway/server.rs, which have a lock each: the tasks that change
-- both, from one lock to the next. Between two of these points any other task may run.
pub mod Due
pub mod Routed
use iog.Prelude.{
  ℕ, ◌≡◌, ◌⊎◌, refl, sym, ap, ◌∙◌, Bool, true, false, Option, none, some, List, [], ◌∷◌, ◌==◌, ◌||◌,
  arith, if◌then◌else◌, nat_eq, contains, length, ◌++◌, Bool-cases, Option-cases, inl, inr,
}
use iog.Map
use iog.Transport.{WriteHalf}
use iog.Gateway
use iog.Gateway.{Gateway, next_link_id, alloc, add_link}
use iog.Link
use iog.Gateway.Drop.{drop_link}
use iog.Server.{SocketAddr, addr_key, GatewayServer}
use iog.Server.App.{first_session}
use iog.Server.Life.{collect}

-- What a task has yet to do: give a link its route (`handle_app_connection`), or drop links whose
-- routes it has taken (`remove_link`, `cleanup_client`).
pub data Duty : Type 0 where
  routing : ℕ → SocketAddr → Duty
  dropping : List ℕ → Duty

pub record Tables (W : Type 0) : Type 0 where
  pub server : GatewayServer W
  pub duties : List (ℕ × Duty)

module _ {W : Type 0} where
  -- `base.add_link(link.clone())`, for a link under an identifier drawn before.
  unfoldable pub enlist : GatewayServer W → W → ℕ → GatewayServer W
  unfolding alloc add_link Link.new
  enlist s stream link_id =
      let (ref, base) = alloc s.base (Link.new stream link_id) in
      record s { base = add_link base ref }

  -- `link_clients.write().await.insert(link_id, _client_addr)`
  unfoldable pub route : GatewayServer W → ℕ → SocketAddr → GatewayServer W
  route s link_id addr = record s { link_clients = Map.insert s.link_clients link_id addr }

  -- `link_clients.write().await.remove(&link_id)`
  unfoldable pub unroute : GatewayServer W → ℕ → GatewayServer W
  unroute s link_id = record s { link_clients = Map.remove s.link_clients link_id }

module _ {W : Type 0} ⦃io : WriteHalf W⦄ where
  -- The two parts of `handle_app_connection`; the first part of `remove_link` and that of
  -- `cleanup_client`, and one drop of a link after the other; any step that leaves registry and
  -- routes alone; and `close_all_links`. A task has a number that no other has.
  pub data Step : Tables W → Tables W → Type 0 where
    enlists :
        (x : Tables W) (n link_id : ℕ) (stream : W) (addr : SocketAddr)
        → Map.get x.duties n ≡ none
        → Step x (record {
          server = enlist x.server stream link_id;
          duties = Map.insert x.duties n (routing link_id addr);
        })
    routes :
        (x : Tables W) (n link_id : ℕ) (addr : SocketAddr)
        → Map.get x.duties n ≡ some (routing link_id addr)
        → Step x (record { server = route x.server link_id addr; duties = Map.remove x.duties n })
    unroutes :
        (x : Tables W) (n link_id : ℕ)
        → Map.get x.duties n ≡ none
        → Step x (record {
          server = unroute x.server link_id;
          duties = Map.insert x.duties n (dropping (link_id ∷ []));
        })
    collects :
        (x : Tables W) (n : ℕ) (addr : SocketAddr)
        → Map.get x.duties n ≡ none
        → Step x (record {
          server = (collect x.server addr).1;
          duties = Map.insert x.duties n (dropping (collect x.server addr).0);
        })
    drops :
        (x : Tables W) (n link_id : ℕ) (ids : List ℕ)
        → Map.get x.duties n ≡ some (dropping (link_id ∷ ids))
        → Step x (record {
          server = record x.server { base = drop_link x.server.base link_id };
          duties = Map.insert x.duties n (dropping ids);
        })
    finishes :
        (x : Tables W) (n : ℕ)
        → Map.get x.duties n ≡ some (dropping [])
        → Step x (record x { duties = Map.remove x.duties n })
    others :
        (x : Tables W) (s : GatewayServer W)
        → s.base.links ≡ x.server.base.links
        → s.link_clients ≡ x.server.link_clients
        → Step x (record x { server = s })
    closes :
        (x : Tables W)
        → Step x
            (record x { server = record x.server { base = Gateway.close_all_links x.server.base } })

  pub data Reach (x : Tables W) : Tables W → Type 0 where
    here : Reach x x
    next : {y t : Tables W} → Reach x y → Step y t → Reach x t
