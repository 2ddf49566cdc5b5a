-- ===== src/Map.antt =====
-- std::collections::HashMap as an association list. `insert` puts a new binding in place of every
-- older one of its key, and the order of the list stands for the unspecified order in which a
-- HashMap is iterated. Statements quantify over every list, so over every such order.
use iog.Prelude.{
  ◌≡◌, Bool, true, false, Option, none, some, List, [], ◌∷◌, arith, if◌then◌else◌, Eq,
}

module _ {ℓ κ} {K : Type ℓ} {V : Type κ} ⦃e : Eq K⦄ where
  unfoldable pub get : List (K × V) → K → Option V
  get [] k = none
  get ((j, v) ∷ m) k = if e.beq j k then some v else get m k

  unfoldable pub remove : List (K × V) → K → List (K × V)
  remove [] k = []
  remove ((j, v) ∷ m) k = if e.beq j k then remove m k else (j, v) ∷ remove m k

  unfoldable pub insert : List (K × V) → K → V → List (K × V)
  unfolding remove
  insert m k v = (k, v) ∷ remove m k

  unfoldable pub contains_key : List (K × V) → K → Bool
  unfolding get
  contains_key m k = elim (get m k) as (λ x. Bool) [ none ↦ false | some v ↦ true ]

  pub get-remove :
      (m : List (K × V)) (k j : K) → get (remove m k) j ≡ (if e.beq k j then none else get m j)
  unfolding get remove
  get-remove [] k j = ground arith
  get-remove ((i, v) ∷ m) k j =
      ground (arith, get-remove m k j, e.beq_iff i k, e.beq_iff k j, e.beq_iff i j)

  pub get-insert :
      (m : List (K × V)) (k : K) (v : V) (j : K)
      → get (insert m k v) j ≡ (if e.beq k j then some v else get m j)
  unfolding get insert
  get-insert m k v j = ground (arith, get-remove m k j)

  -- Keys are unique, as in a HashMap.
  abbrev pub IsMap : List (K × V) → Type κ
  IsMap [] = Unit {κ}
  IsMap ((k, v) ∷ m) = (get m k ≡ none) × IsMap m

  pub remove-IsMap : (m : List (K × V)) (k : K) → IsMap m → IsMap (remove m k)
  unfolding remove
  remove-IsMap [] k h = tt
  remove-IsMap ((j, v) ∷ m) k h = ground (arith, get-remove m k j, remove-IsMap m k h.1)

  pub insert-IsMap : (m : List (K × V)) (k : K) (v : V) → IsMap m → IsMap (insert m k v)
  unfolding insert
  insert-IsMap m k v h = (ground (arith, get-remove m k k, e.beq_iff k k), remove-IsMap m k h)
