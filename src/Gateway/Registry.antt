-- ===== src/Gateway/Registry.antt =====
-- The registry of links, what closing it does to them, and the gauge that shows its size.
use iog.Prelude.{
  ℕ, ◌≡◌, refl, subst, ◌∙◌, ◌≢◌, some, List, [], ◌∷◌, arith, All, get_elem?, modify,
  get_elem?-modify, ◌==◌, nat_eq, inl, inr, Bool-cases,
}
use iog.Map
use iog.Transport.{WriteHalf}
use iog.Link.{Link, disconnected, close_connection}
use iog.Gateway.{Gateway, close_refs, close_all_links, update_connections_metric}

module _ {W : Type 0} ⦃io : WriteHalf W⦄ where
  -- The link at a place, if there is one, is closed.
  abbrev pub IsClosed : List (Link W) → ℕ → Type 0
  IsClosed heap ref = (l : Link W) → get_elem? heap ref ≡ some l → l.state ≡ disconnected

  pub modify-IsClosed_self :
      (heap : List (Link W)) (ref : ℕ) → IsClosed (modify heap ref close_connection) ref
  unfolding close_connection
  modify-IsClosed_self heap ref l e = ground (arith, get_elem?-modify heap ref ref close_connection)

  pub modify-IsClosed :
      (heap : List (Link W)) (i ref : ℕ)
      → IsClosed heap ref
      → IsClosed (modify heap i close_connection) ref
  unfolding close_connection
  modify-IsClosed heap i ref c l e = elim (Bool-cases (i == ref)) [
    | inl same ↦ ground (arith, get_elem?-modify heap i ref close_connection)
    | inr other ↦ c l (ground (arith, get_elem?-modify heap i ref close_connection))
  ]

  close_refs-IsClosed :
      (links : List (ℕ × ℕ)) (heap : List (Link W)) (ref : ℕ)
      → IsClosed heap ref
      → IsClosed (close_refs links heap) ref
  unfolding close_refs
  close_refs-IsClosed [] heap ref c = c
  close_refs-IsClosed ((id, r) ∷ links) heap ref c =
      close_refs-IsClosed links (modify heap r close_connection) ref (modify-IsClosed heap r ref c)

  close_refs_registered :
      (links : List (ℕ × ℕ)) (heap : List (Link W)) (id ref : ℕ)
      → Map.get links id ≡ some ref
      → IsClosed (close_refs links heap) ref
  unfolding close_refs Map.get
  close_refs_registered [] heap id ref e = cc
  close_refs_registered ((j, r) ∷ links) heap id ref e = elim (Bool-cases (j == id)) [
    | inl same ↦
        let here : r ≡ ref = ground arith in
        close_refs-IsClosed links (modify heap r close_connection) ref (
          subst (λ x. IsClosed (modify heap r close_connection) x) here
            (modify-IsClosed_self heap r))
    | inr other ↦ close_refs_registered links (modify heap r close_connection) id ref (ground arith)
  ]

  close_refs_unregistered :
      (links : List (ℕ × ℕ)) (heap : List (Link W)) (ref : ℕ)
      → All (λ e. e.1 ≢ ref) links
      → get_elem? (close_refs links heap) ref ≡ get_elem? heap ref
  unfolding close_refs
  close_refs_unregistered [] heap ref a = refl
  close_refs_unregistered ((id, r) ∷ links) heap ref a =
      close_refs_unregistered links (modify heap r close_connection) ref a.1
      ∙ ground (arith, a.0, get_elem?-modify heap r ref close_connection)

  -- `close_all_links` leaves the registry empty, every link that it held disconnected, and every
  -- link that it did not hold as it was.
  pub close_all_links-IsClosed :
      (g : Gateway W)
      → let g' = close_all_links g in
        (g'.links ≡ [])
        × ((id ref : ℕ) → Map.get g.links id ≡ some ref → IsClosed g'.heap ref)
        × ((ref : ℕ) → All (λ e. e.1 ≢ ref) g.links → get_elem? g'.heap ref ≡ get_elem? g.heap ref)
  unfolding close_all_links update_connections_metric
  close_all_links-IsClosed g =
      (refl, close_refs_registered g.links g.heap, close_refs_unregistered g.links g.heap)
