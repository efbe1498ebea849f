-- ===== src/Wake/Fair/Ahead.antt =====
-- How many calls of a queue come no later than an id.
use mathlib.Core.List.{List, [], ◌∷◌, ◌++◌, Perm, Permᴰ, Mem, mem-cons, mem-cons_self}
use mathlib.Core.Logic.{∥∥₁_elim}
use mathlib.Core.Logic.Or
use native.Mathlib.Nat.{ℕ_set}
use pg_grpc.Common.{
  ℕ, ◌+◌, ◌≤◌, ◌<◌, ◌≡◌, refl, ap, ◌∙◌, inl, inr, true, Bool-cases, arith, length, contains, nat_eq,
}
use pg_grpc.Queue.{QueueRow, queue_ids}
use pg_grpc.Wake.Fair.{weight, ahead}

module _ {N : Type 0} (i : ℕ) where
  pub ahead-append : (q r : List (QueueRow N)) → ahead i (q ++ r) ≡ ahead i q + ahead i r
  unfolding ahead
  ahead-append [] r = omega arith
  ahead-append (x ∷ q) r = let rest = ahead-append q r in omega arith

  same_ahead : {q r : List (QueueRow N)} → Permᴰ q r → ahead i q ≡ ahead i r
  unfolding ahead
  same_ahead (Permᴰ.trans first second) = same_ahead first ∙ same_ahead second
  same_ahead (Permᴰ.swap here there) =
      let e = ap (weight i) here in let e' = ap (weight i) there in omega arith
  same_ahead (Permᴰ.cons here rest) =
      let e = ap (weight i) here in let e' = same_ahead rest in omega arith
  same_ahead Permᴰ.nil = refl

  pub ahead-perm : {q r : List (QueueRow N)} → Perm q r → ahead i q ≡ ahead i r
  ahead-perm moved = ∥∥₁_elim moved (ℕ_set _ _) same_ahead

  -- Rows that are all older count in full.
  pub ahead-older :
      (rows : List (QueueRow N))
      → ((r : QueueRow N) → Mem r rows → r.id < i)
      → ahead i rows ≡ length rows
  unfolding ahead weight
  ahead-older [] h = refl
  ahead-older (r ∷ rows) h =
      let own = h r mem-cons_self in
      let rest = ahead-older rows (λ s m. h s (mem-cons.1 (Or.inr m))) in ground arith

  -- A waiting call counts itself.
  pub ahead-waits :
      (rows : List (QueueRow N)) → contains (queue_ids rows) i ≡ true → 1 ≤ ahead i rows
  unfolding ahead weight contains
  ahead-waits [] h = cc
  ahead-waits (r ∷ rows) h = elim (Bool-cases (contains (queue_ids rows) i)) [
    | inl later ↦ let rest = ahead-waits rows later in omega arith
    | inr gone ↦ let same : r.id ≡ i = (nat_eq.same_iff r.id i).0 (ground arith) in ground arith
  ]
