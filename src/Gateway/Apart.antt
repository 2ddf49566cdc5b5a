-- ===== src/Gateway/Apart.antt =====
-- A link apart from the others of its gateway: what is done to the others leaves it as it is.
use iog.Prelude.{
  ℕ, ◌<◌, ◌≡◌, ◌≢◌, refl, sym, ap, ◌∙◌, some, [], ◌∷◌, ◌++◌, arith, length, length-append,
  length-modify, get_elem?, get_elem?-modify, get_elem?-append, get_elem?-none, nat_eq,
  Option-cases, inl, inr,
}
use iog.Map
use iog.Transport.{WriteHalf}
use iog.Link
use iog.Link.{Link}
use iog.Gateway.{Gateway, with_link, remove_link, add_link}
use iog.Gateway.Drop.{drop_link, drop_link-links, close_removed}
use iog.Gateway.Frame.{SameLinks}
use iog.Gateway.Fresh.{add_link-fresh}

-- The place is in use, and no other identifier has it.
pub record IsApart {W : Type 0} (g : Gateway W) (id ref : ℕ) : Type 0 where
  pub used : ref < length g.heap
  pub alone : (other : ℕ) → other ≢ id → Map.get g.links other ≢ some ref

-- What the registry has under an identifier, and the link in a place.
pub record Kept {W : Type 0} (g g' : Gateway W) (id ref : ℕ) : Type 0 where
  pub known : Map.get g'.links id ≡ Map.get g.links id
  pub there : get_elem? g'.heap ref ≡ get_elem? g.heap ref

pub Kept-refl : {W : Type 0} (g : Gateway W) (id ref : ℕ) → Kept g g id ref
Kept-refl g id ref = record { known = refl; there = refl }

module _ {W : Type 0} (g g' : Gateway W) (id ref : ℕ) where
  pub SameLinks-Kept : SameLinks g g' → Kept g g' id ref
  SameLinks-Kept (links, heap) = record {
    known = ap (λ m. Map.get m id) links;
    there = ap (λ h. get_elem? h ref) heap;
  }

  pub SameLinks-IsApart : SameLinks g g' → IsApart g id ref → IsApart g' id ref
  SameLinks-IsApart (links, heap) a = record {
    used = omega (arith, a.used, ap length heap);
    alone = λ other h e. a.alone other h (sym (ap (λ m. Map.get m other) links) ∙ e);
  }

module _ {W : Type 0} (g : Gateway W) (id ref : ℕ) (a : IsApart g id ref) where
  pub with_link-IsApart : (r : ℕ) (f : Link W → Link W) → IsApart (with_link g r f) id ref
  unfolding with_link
  with_link-IsApart r f = record {
    used = omega (arith, a.used, length-modify g.heap r f);
    alone = a.alone;
  }

  pub with_link-Kept : (r : ℕ) (f : Link W → Link W) → r ≢ ref → Kept g (with_link g r f) id ref
  unfolding with_link
  with_link-Kept r f other = record {
    known = refl;
    there = ground (arith, get_elem?-modify g.heap r ref f);
  }

  -- The link of another identifier stands in another place.
  pub other_place : (other r : ℕ) → other ≢ id → Map.get g.links other ≡ some r → r ≢ ref
  other_place other r h e same = a.alone other h (e ∙ ap some same)

  -- A new link, under any identifier.
  pub add_link-IsApart :
      (l : Link W)
      → IsApart (add_link (record g { heap = g.heap ++ (l ∷ []) }) (length g.heap)) id ref
  add_link-IsApart l =
      let (links, heap, state) = add_link-fresh g l in
      record {
        used = omega (arith, a.used, ap length heap, length-append g.heap (l ∷ []));
        alone = λ other h e.
            let e' = sym (ap (λ m. Map.get m other) links) ∙ e in
            a.alone other h (
              ground
                (arith, a.used, e', Map.get-insert g.links l.connection_id (length g.heap) other));
      }

  pub add_link-Kept :
      (l : Link W)
      → l.connection_id ≢ id
      → Kept g (add_link (record g { heap = g.heap ++ (l ∷ []) }) (length g.heap)) id ref
  add_link-Kept l other =
      let (links, heap, state) = add_link-fresh g l in
      record {
        known =
            ap (λ m. Map.get m id) links
            ∙ ground (arith, Map.get-insert g.links l.connection_id (length g.heap) id);
        there = ap (λ h. get_elem? h ref) heap ∙ elim (Option-cases (get_elem? g.heap ref)) [
          | inl e ↦ absurd (omega (arith, a.used, get_elem?-none g.heap ref e))
          | inr (x, e) ↦ get_elem?-append g.heap l ref x e ∙ sym e
        ];
      }

module _ {W : Type 0} ⦃io : WriteHalf W⦄ (g : Gateway W) (id ref : ℕ) (a : IsApart g id ref) where
  pub drop_link-IsApart : (other : ℕ) → IsApart (drop_link g other) id ref
  unfolding drop_link remove_link with_link
  drop_link-IsApart other = record {
    used = elim (Option-cases (Map.get g.links other)) [
      | inl e ↦ rw (e, close_removed) a.used
      | inr (r, e) ↦
          rw (e, close_removed)
            (omega (arith, a.used, length-modify g.heap r Link.close_connection))
    ];
    alone = λ j h e.
        let e' = sym (ap (λ m. Map.get m j) (drop_link-links g other)) ∙ e in
        a.alone j h (ground (arith, e', Map.get-remove g.links other j));
  }

  pub drop_link-Kept : (other : ℕ) → other ≢ id → Kept g (drop_link g other) id ref
  unfolding drop_link remove_link with_link
  drop_link-Kept other h = record {
    known =
        ap (λ m. Map.get m id) (drop_link-links g other)
        ∙ ground (arith, Map.get-remove g.links other id);
    there = elim (Option-cases (Map.get g.links other)) [
      | inl e ↦ rw (e, close_removed) refl
      | inr (r, e) ↦
          let apart = other_place g id ref a other r h e in
          rw (e, close_removed)
            (ground (arith, apart, get_elem?-modify g.heap r ref Link.close_connection))
    ];
  }
