-- ===== src/HashMap/Laws.antt =====
-- The laws by which clients of a map reason.
use pg_grpc.Common.{
  ◌≡◌, ◌↔◌, refl, sym, ap, inl, inr, none, some, [], ◌∷◌, if◌then◌else◌, ◌==◌, Eq, Bool-cases,
  Option-cases, ==_refl, ◌∙◌, arith,
}
use mathlib.Core.Option.{some-injective}
use pg_grpc.HashMap.{HashMap, get, insert, or_insert, remove, Fresh, IsMap, In}

module _ {ℓ κ} {K : Type ℓ} {V : Type κ} ⦃e : Eq K⦄ where
  pub get-empty : (key : K) → get {V = V} [] key ≡ none
  unfolding get
  get-empty key = refl

  pub get-insert :
      (key j : K) (value : V) (m : HashMap K V)
      → get (insert key value m) j ≡ (if key == j then some value else get m j)
  unfolding get insert
  get-insert key j value [] = refl
  get-insert key j value ((k, v) ∷ m) =
      ground (arith, e.same_iff key j, e.same_iff k key, e.same_iff k j, get-insert key j value m)

  pub get_of_Fresh : (key : K) (m : HashMap K V) → Fresh key m → get m key ≡ none
  unfolding get
  get_of_Fresh key [] h = refl
  get_of_Fresh key ((k, v) ∷ m) (h, t) = ground (arith, e.same_iff k key, get_of_Fresh key m t)

  pub get-remove :
      (key j : K) (m : HashMap K V)
      → IsMap m
      → get (remove key m) j ≡ (if key == j then none else get m j)
  unfolding get remove
  get-remove key j [] h = ground arith
  get-remove key j ((k, v) ∷ m) (f, h) = ground (
    arith,
    e.same_iff key j,
    e.same_iff k key,
    e.same_iff k j,
    get-remove key j m h,
    get_of_Fresh k m f,
  )

  Fresh-insert :
      (j key : K) (value : V) (m : HashMap K V)
      → Fresh j m
      → ¬ (key ≡ j)
      → Fresh j (insert key value m)
  unfolding insert
  Fresh-insert j key value [] h n = (n, tt)
  Fresh-insert j key value ((k, v) ∷ m) (f, h) n =
      ground (arith, e.same_iff k key, Fresh-insert j key value m h n)

  pub insert-IsMap : (key : K) (value : V) (m : HashMap K V) → IsMap m → IsMap (insert key value m)
  unfolding insert
  insert-IsMap key value [] h = (tt, tt)
  insert-IsMap key value ((k, v) ∷ m) (f, h) = elim (Bool-cases (k == key)) [
    | inl same ↦ rw same (rw (← (e.same_iff k key).0 same) f, h)
    | inr other ↦ rw other (
      Fresh-insert k key value m f (λ p. cc (other, (e.same_iff k key).1 (sym p))),
      insert-IsMap key value m h,
    )
  ]

  Fresh-remove : (j key : K) (m : HashMap K V) → Fresh j m → Fresh j (remove key m)
  unfolding remove
  Fresh-remove j key [] h = tt
  Fresh-remove j key ((k, v) ∷ m) (f, h) = ground (arith, Fresh-remove j key m h)

  pub remove-IsMap : (key : K) (m : HashMap K V) → IsMap m → IsMap (remove key m)
  unfolding remove
  remove-IsMap key [] h = tt
  remove-IsMap key ((k, v) ∷ m) (f, h) =
      ground (arith, remove-IsMap key m h, Fresh-remove k key m f)

module _ {ℓ κ} {K : Type ℓ} {V : Type κ} ⦃e : Eq K⦄ (key : K) (value : V) (m : HashMap K V) where
  pub or_insert_old : (old : V) → get m key ≡ some old → or_insert key value m ≡ (m, old)
  unfolding or_insert
  or_insert_old old h = rw (h, or_insert) refl

  or_insert_new : get m key ≡ none → or_insert key value m ≡ (insert key value m, value)
  unfolding or_insert
  or_insert_new h = rw (h, or_insert) refl

  -- The key has the value that the call returned.
  pub get-or_insert : get (or_insert key value m).0 key ≡ some (or_insert key value m).1
  get-or_insert = elim (Option-cases (get m key)) [
    | inl h ↦ rw (or_insert_new h) (get-insert key key value m ∙ (rw (==_refl key) refl))
    | inr (old, h) ↦ rw (or_insert_old old h) h
  ]

  -- No key loses its value.
  pub get-or_insert_kept :
      (j : K) (old : V) → get m j ≡ some old → get (or_insert key value m).0 j ≡ some old
  get-or_insert_kept j old h = elim (Option-cases (get m key)) [
    | inl h' ↦
        rw (or_insert_new h', get-insert key j value m)
          (elim (Bool-cases (key == j)) [
            | inl same ↦ let p = (e.same_iff key j).0 same in absurd (clash p h')
            | inr other ↦ rw other h
          ])
    | inr (v, h') ↦ rw (or_insert_old v h') h
  ]
    where
      clash : key ≡ j → get m key ≡ none → ⊥
      clash p h' = cc (h, h', ap (get m) p)

module _ {K V : Type 0} ⦃e : Eq K⦄ where
  Fresh-In : (key : K) (value : V) (m : HashMap K V) → Fresh key m → ¬ In key value m
  Fresh-In key value ((k, v) ∷ m) (f, h) (inl (p, q)) = f p
  Fresh-In key value ((k, v) ∷ m) (f, h) (inr i) = Fresh-In key value m h i
  Fresh-In key value [] h i = i

  -- The entries of a map are its keys with their values.
  pub In-iff :
      (key : K) (value : V) (m : HashMap K V) → IsMap m → In key value m ↔ (get m key ≡ some value)
  unfolding get
  In-iff key value [] h = (λ i. absurd i, λ p. cc)
  In-iff key value ((k, v) ∷ m) (f, h) = elim (Bool-cases (k == key)) [
    | inl same ↦
        let p = (e.same_iff k key).0 same in
        rw same (
          elim [ inl q ↦ ap some q.1 | inr i ↦ absurd (Fresh-In k value m f (rw p i)) ],
          λ q. inl (p, some-injective v value q),
        )
    | inr other ↦ rw other (
      elim [ inl q ↦ cc (other, (e.same_iff k key).1 q.0) | inr i ↦ (In-iff key value m h).0 i ],
      λ q. inr ((In-iff key value m h).1 q),
    )
  ]
