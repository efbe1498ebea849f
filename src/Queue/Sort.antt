-- ===== src/Queue/Sort.antt =====
-- ORDER BY over numbers, for the statements of src/queue.rs.
use mathlib.Core.List.{Perm, Mem, not-mem-nil, mem-cons}
use mathlib.Core.List.Perm
use mathlib.Core.Logic.Or
use native.Mathlib.Bridge.{le_prop}
use pg_grpc.Common.{
  ℕ, ◌≤◌, inl, inr, List, [], ◌∷◌, ◌++◌, if◌then◌else◌, leb, arith, All, Bool-cases,
}

unfoldable pub insert_ordered : ℕ → List ℕ → List ℕ
insert_ordered a [] = a ∷ []
insert_ordered a (b ∷ l) = if leb a b then a ∷ b ∷ l else b ∷ insert_ordered a l

unfoldable pub order_by : List ℕ → List ℕ
unfolding insert_ordered
order_by [] = []
order_by (a ∷ l) = insert_ordered a (order_by l)

abbrev pub IsSorted : List ℕ → Type 0
IsSorted [] = Unit
IsSorted (a ∷ l) = All (λ b. a ≤ b) l × IsSorted l

All-le_trans : (a b : ℕ) (l : List ℕ) → a ≤ b → All (λ c. b ≤ c) l → All (λ c. a ≤ c) l
All-le_trans a b [] h t = tt
All-le_trans a b (c ∷ l) h t = (omega arith, All-le_trans a b l h t.1)

All-insert_ordered :
    (a b : ℕ) (l : List ℕ) → b ≤ a → All (λ c. b ≤ c) l → All (λ c. b ≤ c) (insert_ordered a l)
unfolding insert_ordered
All-insert_ordered a b [] h t = (h, tt)
All-insert_ordered a b (c ∷ l) h t = ground (arith, All-insert_ordered a b l h)

insert_ordered-IsSorted : (a : ℕ) (l : List ℕ) → IsSorted l → IsSorted (insert_ordered a l)
unfolding insert_ordered
insert_ordered-IsSorted a [] h = (tt, tt)
insert_ordered-IsSorted a (b ∷ l) h = elim (Bool-cases (leb a b)) [
  | inl le ↦ let below : a ≤ b = ground arith in rw le ((below, All-le_trans a b l below h.0), h)
  | inr gt ↦
      let above : b ≤ a = ground arith in
      rw gt (All-insert_ordered a b l above h.0, insert_ordered-IsSorted a l h.1)
]

pub order_by-IsSorted : (l : List ℕ) → IsSorted (order_by l)
unfolding order_by
order_by-IsSorted [] = tt
order_by-IsSorted (a ∷ l) = insert_ordered-IsSorted a (order_by l) (order_by-IsSorted l)

insert_ordered-perm : (a : ℕ) (l : List ℕ) → Perm (insert_ordered a l) (a ∷ l)
unfolding insert_ordered
insert_ordered-perm a [] = Perm.refl _
insert_ordered-perm a (b ∷ l) = elim (Bool-cases (leb a b)) [
  | inl le ↦ rw le (Perm.refl _)
  | inr gt ↦ rw gt (Perm.trans (Perm.cons b (insert_ordered-perm a l)) (Perm.swap a b l))
]

pub order_by-perm : (l : List ℕ) → Perm (order_by l) l
unfolding order_by
order_by-perm [] = Perm.refl _
order_by-perm (a ∷ l) =
    Perm.trans (insert_ordered-perm a (order_by l)) (Perm.cons a (order_by-perm l))

le_of_All : (a b : ℕ) (l : List ℕ) → All (λ c. a ≤ c) l → Mem b l → a ≤ b
le_of_All a b [] h m = absurd (not-mem-nil m)
le_of_All a b (c ∷ l) h m = Or.elim le_prop (mem-cons.0 m) (λ e. rw e h.0) (le_of_All a b l h.1)

All-append_right : (a : ℕ) (xs ys : List ℕ) → All (λ c. a ≤ c) (xs ++ ys) → All (λ c. a ≤ c) ys
All-append_right a [] ys h = h
All-append_right a (x ∷ xs) ys h = All-append_right a xs ys h.1

-- In an ordered list what stands in front is no larger.
pub le_of_split : (xs ys : List ℕ) (a b : ℕ) → IsSorted (xs ++ ys) → Mem a xs → Mem b ys → a ≤ b
le_of_split [] ys a b h m n = absurd (not-mem-nil m)
le_of_split (x ∷ xs) ys a b h m n =
    Or.elim le_prop (mem-cons.0 m) (λ e. rw e (le_of_All x b ys (All-append_right x xs ys h.0) n))
      (λ m'. le_of_split xs ys a b h.1 m' n)
