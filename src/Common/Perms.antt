-- ===== src/Common/Perms.antt =====
-- Lengths and prefixes under permutation.
use mathlib.Core.List.{Perm, Permᴰ, Mem, Nodup, Nodup-append, mem-append_left, map}
use mathlib.Core.List.Perm
use mathlib.Core.List.{Sublist}
use mathlib.Core.List.Sublist
use mathlib.Core.Logic.{∥∥₁_elim}
use mathlib.Core.Path.{◌≡◌, refl, ap, ◌∙◌, subst, sym}
use mathlib.Core.List.{List, [], ◌∷◌, ◌++◌, filter}
use Prim.Native.Nat.{ℕ, suc, min}
use native.Mathlib.Nat.{ℕ_set}
use native.Mathlib.Omega.{arith}
use mathlib.Core.Logic.Dec
use mathlib.Core.List.{perm_middle}
use pg_grpc.Common.Bits.{length, take, drop, take-append-drop}

module _ {ℓ} {A : Type ℓ} where
  same_length : {left right : List A} → Permᴰ left right → length left ≡ length right
  same_length (Permᴰ.trans first second) = same_length first ∙ same_length second
  same_length (Permᴰ.swap here there) = refl
  same_length (Permᴰ.cons here rest) = omega (arith, same_length rest)
  same_length Permᴰ.nil = refl

  pub length-perm : {left right : List A} → Perm left right → length left ≡ length right
  length-perm moved = ∥∥₁_elim moved (ℕ_set _ _) same_length

  pub length-take : (n : ℕ) (xs : List A) → length (take n xs) ≡ min n (length xs)
  length-take ℕ.zero xs = omega arith
  length-take (suc n) [] = omega arith
  length-take (suc n) (x ∷ xs) = omega (arith, length-take n xs)

  pub mem_of_mem-take : (n : ℕ) (xs : List A) {a : A} → Mem a (take n xs) → Mem a xs
  mem_of_mem-take n xs {a} m = subst (Mem a) (take-append-drop n xs) (mem-append_left (drop n xs) m)

  pub take-Nodup : (n : ℕ) (xs : List A) → Nodup xs → Nodup (take n xs)
  take-Nodup n xs h = (Nodup-append.0 (subst Nodup (sym (take-append-drop n xs)) h)).0

  -- What a test takes out of a list, with what it leaves, is the list.
  pub filter-not-perm {κ} :
      {P : A → Type κ} (d : (a : A) → Dec (P a)) (xs : List A)
      → Perm xs (filter d xs ++ filter (λ a. Dec.not (d a)) xs)
  filter-not-perm d [] = Perm.refl _
  filter-not-perm d (x ∷ xs) =
      let rest = Perm.cons x (filter-not-perm d xs) in
      ground (
        arith,
        rest,
        Perm.trans rest (Perm.symm (perm_middle (filter d xs) (filter (λ a. Dec.not (d a)) xs))),
      )

  pub map-filter-sublist {κ μ} :
      {P : A → Type κ} {B : Type μ} (d : (a : A) → Dec (P a)) (f : A → B) (xs : List A)
      → Sublist (map f (filter d xs)) (map f xs)
  map-filter-sublist d f [] = Sublist.refl _
  map-filter-sublist d f (x ∷ xs) =
      let rest = map-filter-sublist d f xs in
      ground (arith, Sublist.cons (f x) rest, Sublist.cons-cons (f x) rest)

  pub length-map {κ} : {B : Type κ} (f : A → B) (xs : List A) → length (map f xs) ≡ length xs
  length-map f [] = refl
  length-map f (x ∷ xs) = ap suc (length-map f xs)
