-- ===== src/Gateway/Fresh.antt =====
-- A fresh link enters the registry of gateway/mod.rs.
use iog.Prelude.{◌≡◌, refl, [], ◌∷◌, ◌++◌, length, get_elem?-end, nat_eq}
use iog.Map
use iog.Link.{Link}
use iog.Gateway.{Gateway, add_link, update_connections_metric}

module _ {W : Type 0} where
  -- It stands there under its identifier.
  pub add_link-fresh :
      (g : Gateway W) (l : Link W)
      → let g' = add_link (record g { heap = g.heap ++ (l ∷ []) }) (length g.heap) in
        (g'.links ≡ Map.insert g.links l.connection_id (length g.heap))
        × (g'.heap ≡ g.heap ++ (l ∷ []))
        × (g'.state ≡ g.state)
  unfolding add_link update_connections_metric
  add_link-fresh g l = rw (get_elem?-end g.heap l, add_link) (refl, refl, refl)
