-- ===== src/Server/Cleanup.antt =====
-- What the end of a client's session takes with it.
use iog.Prelude.{
  ℕ, ◌≡◌, refl, ◌↔◌, ◌≢◌, ◌⊎◌, ◌∙◌, true, none, some, List, [], ◌∷◌, if◌then◌else◌, ◌==◌, arith,
  nat_eq, contains, Bool-cases, inl, inr,
}
use iog.Map
use iog.Map.{IsMap}
use iog.Transport.{WriteHalf}
use iog.Statistics.{waiting}
use iog.SessionStore.{restore_session}
use iog.Gateway
use iog.Gateway.{Gateway}
use iog.Gateway.Registry.{IsClosed}
use iog.Gateway.Drop.{
  drop_link, drop_link-links, drop_link-state, drop_link-IsClosed, drop_link_closes,
}
use iog.Server.{ClientSession, SocketAddr, addr_key, addr_eq_iff, GatewayServer}
use iog.Server.Links.{
  release, wait_if_empty, drop_links, owned_link_ids, remove_routes, is_current, cleanup_client,
}

List-cases : {A : Type 0} (xs : List A) → (xs ≡ []) ⊎ ((x : A) × (ys : List A) × (xs ≡ x ∷ ys))
List-cases [] = inl refl
List-cases (x ∷ xs) = inr (x, xs, refl)

pub get-remove_routes :
    (routes : List (ℕ × SocketAddr)) (ids : List ℕ) (j : ℕ)
    → Map.get (remove_routes routes ids) j ≡ (if contains ids j then none else Map.get routes j)
unfolding remove_routes
get-remove_routes routes [] j = refl
get-remove_routes routes (id ∷ ids) j =
    ground (arith, get-remove_routes (Map.remove routes id) ids j, Map.get-remove routes id j)

-- On a map the ids collected for a client are those that it routes to.
contains-owned :
    (routes : List (ℕ × SocketAddr)) (addr : SocketAddr) (id : ℕ)
    → IsMap routes
    → (contains (owned_link_ids routes addr) id ≡ true) ↔ (Map.get routes id ≡ some addr)
unfolding owned_link_ids Map.get
contains-owned [] addr id h = ground arith
contains-owned ((i, a) ∷ routes) addr id h =
    ground (arith, contains-owned routes addr id h.1, addr_eq_iff a addr)

module _ {W : Type 0} ⦃io : WriteHalf W⦄ where
  drop_links-links :
      (ids : List ℕ) (g : Gateway W) (j : ℕ)
      → Map.get (drop_links g ids).links j ≡ (if contains ids j then none else Map.get g.links j)
  unfolding drop_links
  drop_links-links [] g j = refl
  drop_links-links (id ∷ ids) g j = ground (
    arith,
    drop_links-links ids (drop_link g id) j,
    drop_link-links g id,
    Map.get-remove g.links id j,
  )

  drop_links-IsClosed :
      (ids : List ℕ) (g : Gateway W) (ref : ℕ)
      → IsClosed g.heap ref
      → IsClosed (drop_links g ids).heap ref
  unfolding drop_links
  drop_links-IsClosed [] g ref c = c
  drop_links-IsClosed (id ∷ ids) g ref c =
      drop_links-IsClosed ids (drop_link g id) ref (drop_link-IsClosed g id ref c)

  drop_links_closes :
      (ids : List ℕ) (g : Gateway W) (id ref : ℕ)
      → contains ids id ≡ true
      → Map.get g.links id ≡ some ref
      → IsClosed (drop_links g ids).heap ref
  unfolding drop_links
  drop_links_closes [] g id ref h e = cc
  drop_links_closes (x ∷ ids) g id ref h e = elim (Bool-cases (x == id)) [
    | inl same ↦
        drop_links-IsClosed ids (drop_link g x) ref (drop_link_closes g x ref (ground arith))
    | inr other ↦
        drop_links_closes ids (drop_link g x) id ref (ground arith)
          (ground (arith, drop_link-links g x, Map.get-remove g.links x id))
  ]

  -- With one route for each link at most, the end of a session removes every route to the client's
  -- address and unregisters and closes every link routed there; all other routes and registrations
  -- stay.
  pub cleanup_client-links :
      (s : GatewayServer W) (addr : SocketAddr) (session_id : ℕ)
      → IsMap s.link_clients
      → let t = cleanup_client s addr session_id in
        ((id : ℕ)
          → Map.get s.link_clients id ≡ some addr
          → (Map.get t.link_clients id ≡ none)
            × (Map.get t.base.links id ≡ none)
            × ((ref : ℕ) → Map.get s.base.links id ≡ some ref → IsClosed t.base.heap ref))
        × ((id : ℕ)
            → Map.get s.link_clients id ≢ some addr
            → (Map.get t.link_clients id ≡ Map.get s.link_clients id)
              × (Map.get t.base.links id ≡ Map.get s.base.links id))
  unfolding cleanup_client release wait_if_empty Gateway.set_state
  cleanup_client-links s addr session_id m =
      let owned = owned_link_ids s.link_clients addr in
      (
        λ id e.
            let mine = (contains-owned s.link_clients addr id m).1 e in
            (
              ground (arith, get-remove_routes s.link_clients owned id, mine),
              ground (arith, drop_links-links owned s.base id, mine),
              λ ref r. drop_links_closes owned s.base id ref mine r,
            ),
        λ id e.
            let other = (contains-owned s.link_clients addr id m).0 in
            (
              ground (arith, get-remove_routes s.link_clients owned id, other),
              ground (arith, drop_links-links owned s.base id, other),
            ),
      )

  drop_links-state : (ids : List ℕ) (g : Gateway W) → (drop_links g ids).state ≡ g.state
  unfolding drop_links
  drop_links-state [] g = refl
  drop_links-state (id ∷ ids) g = drop_links-state ids (drop_link g id) ∙ drop_link-state g id

  -- The end of a session takes the client's entry with it if that entry is this session; an entry
  -- of a newer session stays, as do the entries of other addresses and the stored links of other
  -- sessions. The session leaves the store. With no client left the gateway waits, and otherwise
  -- its state is what it was.
  pub cleanup_client-sessions :
      (s : GatewayServer W) (addr : SocketAddr) (session_id : ℕ)
      → let t = cleanup_client s addr session_id in
        ((c : ClientSession)
          → Map.get s.client_sessions addr ≡ some c
          → (c.session_id ≡ session_id → Map.get t.client_sessions addr ≡ none)
            × (c.session_id ≢ session_id → Map.get t.client_sessions addr ≡ some c))
        × ((other : SocketAddr)
            → other ≢ addr
            → Map.get t.client_sessions other ≡ Map.get s.client_sessions other)
        × ((restore_session t.session_store session_id).0 ≡ none)
        × ((other : ℕ)
            → other ≢ session_id
            → (restore_session t.session_store other).0 ≡ (restore_session s.session_store other).0)
        × (t.client_sessions ≡ [] → t.base.state ≡ waiting)
        × (t.client_sessions ≢ [] → t.base.state ≡ s.base.state)
  unfolding cleanup_client release wait_if_empty is_current Gateway.set_state restore_session
  cleanup_client-sessions s addr session_id =
      let owned = owned_link_ids s.link_clients addr in
      let sessions = (release s addr session_id).client_sessions in
      (
        λ c e. (
          λ same.
              rw e
                (ground (arith, Map.get-remove s.client_sessions addr addr, addr_eq_iff addr addr)),
          λ newer. rw e (ground (arith, newer)),
        ),
        λ other h.
            ground (arith, Map.get-remove s.client_sessions addr other, addr_eq_iff addr other),
        ground (arith, Map.get-remove s.session_store.sessions session_id session_id),
        λ other h. ground (arith, Map.get-remove s.session_store.sessions session_id other),
        λ h. ground arith,
        λ h. elim (List-cases sessions) [
          | inl none_left ↦ absurd (h none_left)
          | inr (x, xs, some_left) ↦ rw some_left (drop_links-state owned s.base)
        ],
      )
