-- ===== src/Common/Alls.antt =====
-- Properties of all the elements of a list, about one that stands in its middle.
use mathlib.Core.List.{List, [], ◌∷◌, ◌++◌}
use pg_grpc.Common.Bits.{All}

module _ {ℓ κ} {A : Type ℓ} (P : A → Type κ) where
  pub All-middle :
      (before : List A) (a : A) (after : List A)
      → All P (before ++ a ∷ after)
      → P a × All P (before ++ after)
  All-middle [] a after (own, h) = (own, h)
  All-middle (b ∷ before) a after (own, h) =
      let (here, others) = All-middle before a after h in (here, (own, others))

  pub All-insert :
      (before : List A) (a : A) (after : List A)
      → P a
      → All P (before ++ after)
      → All P (before ++ a ∷ after)
  All-insert [] a after here h = (here, h)
  All-insert (b ∷ before) a after here (own, h) = (own, All-insert before a after here h)

  pub All-snoc : (l : List A) (a : A) → P a → All P l → All P (l ++ a ∷ [])
  All-snoc [] a here h = (here, tt)
  All-snoc (b ∷ l) a here (own, h) = (own, All-snoc l a here h)
