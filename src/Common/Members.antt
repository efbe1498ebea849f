-- ===== src/Common/Members.antt =====
-- `contains` and the library's membership.
use mathlib.Core.List.{
  List, [], ◌∷◌, ◌++◌, Mem, Nodup, Nodup-append, mem-cons, mem-cons_self, not-mem-nil, Nodup-cons,
  Nodup-nil,
}
use mathlib.Core.Path.{◌≡◌, sym}
use mathlib.Core.Logic.{inl, inr}
use mathlib.Core.Logic.Or
use mathlib.Core.Bool.{Bool, true, false, ◌&&◌, not}
use native.Mathlib.Omega.{arith}
use pg_grpc.Common.Bits.{Eq, ◌==◌, contains, Bool-cases}

Bool_set : (a b : Bool) → IsProp (a ≡ b)
Bool_set = hlevel

module _ {ℓ} {A : Type ℓ} ⦃e : Eq A⦄ where
  pub contains_of_mem : (xs : List A) (a : A) → Mem a xs → contains xs a ≡ true
  unfolding contains
  contains_of_mem [] a m = absurd (not-mem-nil m)
  contains_of_mem (x ∷ xs) a m =
      Or.elim (Bool_set _ _) (mem-cons.0 m) (λ p. rw ((e.same_iff x a).1 (sym p)))
        (λ m'. ground (arith, contains_of_mem xs a m'))

  pub mem_of_contains : (xs : List A) (a : A) → contains xs a ≡ true → Mem a xs
  unfolding contains
  mem_of_contains [] a h = cc
  mem_of_contains (x ∷ xs) a h = elim (Bool-cases (x == a)) [
    | inl same ↦ mem-cons.1 (Or.inl (sym ((e.same_iff x a).0 same)))
    | inr other ↦ mem-cons.1 (Or.inr (mem_of_contains xs a (ground arith)))
  ]

  pub not_contains : (xs : List A) (a : A) → ¬ Mem a xs → contains xs a ≡ false
  not_contains xs a n = elim (Bool-cases (contains xs a)) [
    | inl found ↦ absurd (n (mem_of_contains xs a found))
    | inr missing ↦ missing
  ]

  -- Where nothing stands twice, an element does not stand before itself.
  pub not_contains_before : (xs ys : List A) (a : A) → Nodup (xs ++ a ∷ ys) → contains xs a ≡ false
  not_contains_before xs ys a h = not_contains xs a (λ m. (Nodup-append.0 h).2 a m mem-cons_self)

  -- A test that nothing stands twice.
  abbrev pub distinct : List A → Bool
  distinct [] = true
  distinct (x ∷ xs) = not (contains xs x) && distinct xs

  pub distinct-Nodup : (xs : List A) → distinct xs ≡ true → Nodup xs
  distinct-Nodup [] h = Nodup-nil
  distinct-Nodup (x ∷ xs) h = Nodup-cons.1 (
    λ m. let found = contains_of_mem xs x m in absurd (clash found),
    distinct-Nodup xs (ground arith),
  )
    where
      clash : contains xs x ≡ true → ⊥
      clash found = ground arith
