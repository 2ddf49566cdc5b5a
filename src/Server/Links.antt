-- ===== src/Server/Links.antt =====
-- Routes and links of gateway/server.rs: `remove_link`, `cleanup_client`.
use iog.Prelude.{
  ℕ, Bool, true, false, Option, none, some, List, [], ◌∷◌, if◌then◌else◌, ◌==◌, nat_eq,
}
use iog.Map
use iog.Map.{IsMap}
use iog.Transport.{WriteHalf}
use iog.Statistics.{waiting}
use iog.SessionStore.{restore_session}
use iog.Gateway
use iog.Gateway.{Gateway}
use iog.Gateway.Drop.{drop_link}
use iog.Server.{SocketAddr, addr_key, addr_eq, ClientSession, GatewayServer}

-- `for link_id in owned_link_ids { … }`
module _ {W : Type 0} ⦃io : WriteHalf W⦄ where
  unfoldable pub drop_links : Gateway W → List ℕ → Gateway W
  unfolding drop_link
  drop_links g [] = g
  drop_links g (id ∷ ids) = drop_links (drop_link g id) ids

-- `iter().filter(…).map(…).collect()`: the links that belong to a client.
unfoldable pub owned_link_ids : List (ℕ × SocketAddr) → SocketAddr → List ℕ
owned_link_ids [] addr = []
owned_link_ids ((id, a) ∷ routes) addr =
    if addr_eq a addr then id ∷ owned_link_ids routes addr else owned_link_ids routes addr

unfoldable pub remove_routes : List (ℕ × SocketAddr) → List ℕ → List (ℕ × SocketAddr)
remove_routes routes [] = routes
remove_routes routes (id ∷ ids) = remove_routes (Map.remove routes id) ids

unfoldable pub is_current : Option ClientSession → ℕ → Bool
is_current none session_id = false
is_current (some s) session_id = s.session_id == session_id

abbrev pub is_empty {ℓ} : {A : Type ℓ} → List A → Bool
is_empty [] = true
is_empty (x ∷ xs) = false

module _ {W : Type 0} where
  -- With no clients left, the server waits for connections again.
  unfoldable pub wait_if_empty : GatewayServer W → GatewayServer W
  unfolding Gateway.set_state
  wait_if_empty s = record s {
    base = Gateway.set_state s.base (if is_empty s.client_sessions then waiting else s.base.state);
  }

module _ {W : Type 0} ⦃io : WriteHalf W⦄ where
  unfoldable pub remove_link : GatewayServer W → ℕ → GatewayServer W
  unfolding drop_link
  remove_link s link_id = record s {
    link_clients = Map.remove s.link_clients link_id;
    base = drop_link s.base link_id;
  }

  -- Routes, links, the session and its entry in the store.
  unfoldable pub release : GatewayServer W → SocketAddr → ℕ → GatewayServer W
  unfolding owned_link_ids remove_routes drop_links is_current restore_session
  release s addr session_id =
      let owned = owned_link_ids s.link_clients addr in
      record s {
        link_clients = remove_routes s.link_clients owned;
        base = drop_links s.base owned;
        client_sessions =
            if is_current (Map.get s.client_sessions addr) session_id
            then Map.remove s.client_sessions addr
            else s.client_sessions;
        session_store = (restore_session s.session_store session_id).1;
      }

  unfoldable pub cleanup_client : GatewayServer W → SocketAddr → ℕ → GatewayServer W
  unfolding release wait_if_empty
  cleanup_client s addr session_id = wait_if_empty (release s addr session_id)
