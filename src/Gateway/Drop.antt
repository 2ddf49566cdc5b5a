-- ===== src/Gateway/Drop.antt =====
-- A link taken off the registry and closed, as the exchange loops of gateway/server.rs and
-- gateway/client.rs do it.
use iog.Prelude.{ℕ, ◌≡◌, refl, Option, none, some, nat_eq, Option-cases, inl, inr}
use iog.Map
use iog.Transport.{WriteHalf}
use iog.Link
use iog.Gateway
use iog.Gateway.{Gateway, with_link}
use iog.Gateway.Registry.{IsClosed, modify-IsClosed_self, modify-IsClosed}

-- `if let Some(link) = base.remove_link(id).await { link.lock().await.close_connection().await }`
module _ {W : Type 0} ⦃io : WriteHalf W⦄ where
  unfoldable pub close_removed : Option ℕ × Gateway W → Gateway W
  unfolding with_link Link.close_connection
  close_removed (none, g) = g
  close_removed (some ref, g) = with_link g ref Link.close_connection

  unfoldable pub drop_link : Gateway W → ℕ → Gateway W
  unfolding Gateway.remove_link close_removed
  drop_link g id = close_removed (Gateway.remove_link g id)

  pub drop_link-links : (g : Gateway W) (id : ℕ) → (drop_link g id).links ≡ Map.remove g.links id
  unfolding drop_link Gateway.remove_link
  drop_link-links g id = elim (Option-cases (Map.get g.links id)) [
    | inl e ↦ rw (e, close_removed)
    | inr (ref, e) ↦ rw (e, close_removed)
  ]

  pub drop_link-state : (g : Gateway W) (id : ℕ) → (drop_link g id).state ≡ g.state
  unfolding drop_link Gateway.remove_link Gateway.update_connections_metric
  drop_link-state g id = elim (Option-cases (Map.get g.links id)) [
    | inl e ↦ rw (e, close_removed) refl
    | inr (ref, e) ↦ rw (e, close_removed) refl
  ]

  pub drop_link-IsClosed :
      (g : Gateway W) (id ref : ℕ) → IsClosed g.heap ref → IsClosed (drop_link g id).heap ref
  unfolding drop_link Gateway.remove_link
  drop_link-IsClosed g id ref c = elim (Option-cases (Map.get g.links id)) [
    | inl e ↦ rw (e, close_removed) c
    | inr (r, e) ↦ rw (e, close_removed) (modify-IsClosed g.heap r ref c)
  ]

  pub drop_link_closes :
      (g : Gateway W) (id ref : ℕ)
      → Map.get g.links id ≡ some ref
      → IsClosed (drop_link g id).heap ref
  unfolding drop_link Gateway.remove_link
  drop_link_closes g id ref e = rw (e, close_removed) (modify-IsClosed_self g.heap ref)
