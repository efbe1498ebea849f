-- ===== src/HashMap.antt =====
-- `std::collections::HashMap` behind its laws: a list of entries, each key once. The order of the
-- entries stands for the map's unspecified iteration order.
pub mod Laws
use pg_grpc.Common.{
  ◌≡◌, ◌⊎◌, Bool, true, false, Option, none, some, List, [], ◌∷◌, if◌then◌else◌, ◌==◌, Eq,
}

abbrev pub HashMap {ℓ κ} : Type ℓ → Type κ → Type (ℓ ⊔ κ)
HashMap K V = List (K × V)

module _ {ℓ κ} {K : Type ℓ} {V : Type κ} where
  module _ ⦃e : Eq K⦄ where
    unfoldable pub get : HashMap K V → K → Option V
    get [] key = none
    get ((k, v) ∷ m) key = if k == key then some v else get m key

    unfoldable pub insert : K → V → HashMap K V → HashMap K V
    insert key value [] = (key, value) ∷ []
    insert key value ((k, v) ∷ m) =
        if k == key then (key, value) ∷ m else (k, v) ∷ insert key value m

    unfoldable pub remove : K → HashMap K V → HashMap K V
    remove key [] = []
    remove key ((k, v) ∷ m) = if k == key then m else (k, v) ∷ remove key m

    -- `entry(key).or_insert(value)`: the map, and the value that it now holds.
    unfoldable pub or_insert : K → V → HashMap K V → HashMap K V × V
    unfolding get insert
    or_insert key value m = elim (get m key) [
      | none ↦ (insert key value m, value)
      | some old ↦ (m, old)
    ]

  -- Every key stands once.
  abbrev pub Fresh : K → HashMap K V → Type ℓ
  Fresh key [] = Unit
  Fresh key ((k, v) ∷ m) = ¬ (k ≡ key) × Fresh key m

  abbrev pub IsMap : HashMap K V → Type ℓ
  IsMap [] = Unit
  IsMap ((k, v) ∷ m) = Fresh k m × IsMap m

abbrev pub is_some {ℓ} : {V : Type ℓ} → Option V → Bool
is_some none = false
is_some (some v) = true

-- An entry stands in the list.
abbrev pub In : {K V : Type 0} → K → V → HashMap K V → Type 0
In key value [] = ⊥
In key value ((k, v) ∷ m) = ((k ≡ key) × (v ≡ value)) ⊎ In key value m
