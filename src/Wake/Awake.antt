-- ===== src/Wake/Awake.antt =====
-- When a waiting call is sure to be noticed: the marks that the commit callback of src/lib.rs and the
-- outer loop of src/worker.rs leave for each other, and how a callback's steps move them.
use mathlib.Core.List.{Nodup, List, [], ◌∷◌, ◌++◌}
use pg_grpc.Common.{◌<◌, ◌≡◌, ◌⊎◌, refl, sym, subst, inl, inr, true, arith}
use pg_grpc.Worker.Rounds.{known}
use pg_grpc.Wake.{Shmem, Action, mark_wake, signal, perform}
use pg_grpc.Wake.System.{stopped, starting, woken, checked, draining, System}

-- Some callback has just these steps to take.
abbrev pub Holds : List Action → List (List Action) → Type 0
Holds c [] = ⊥
Holds c (x ∷ l) = (x ≡ c) ⊎ Holds c l

pub Holds-at : (c : List Action) (before after : List (List Action)) → Holds c (before ++ c ∷ after)
Holds-at c [] after = inl refl
Holds-at c (x ∷ before) after = inr (Holds-at c before after)

-- After another callback's step the callback is still there.
Holds-act :
    (c x y : List Action) (before after : List (List Action))
    → Holds c (before ++ x ∷ after)
    → (x ≡ c) ⊎ Holds c (before ++ y ∷ after)
Holds-act c x y [] after (inl e) = inl e
Holds-act c x y [] after (inr h) = inr (inr h)
Holds-act c x y (z ∷ before) after (inl e) = inr (inl e)
Holds-act c x y (z ∷ before) after (inr h) = elim (Holds-act c x y before after h) [
  | inl e ↦ inl e
  | inr k ↦ inr (inr k)
]

module _ {N : Type 0} where
  -- The latch is set, the worker is past it or will be handed it set, or a callback will set it.
  pub data Signalled (s : System N) : Type 0 where
    ringing : s.memory.latch_set ≡ true → Signalled s
    past : s.pc ≡ woken → Signalled s
    past_check : s.pc ≡ checked → Signalled s
    down : s.pc ≡ stopped → Signalled s
    coming : s.pc ≡ starting → Signalled s
    ringer : Holds (signal ∷ []) s.callbacks → Signalled s

  -- The queue is empty, or something is bound to make the worker drain it.
  pub data Awake (s : System N) : Type 0 where
    no_calls : s.db.call_queue ≡ [] → Awake s
    at_work : s.pc ≡ draining → Awake s
    marked : s.memory.should_wake ≡ true → Signalled s → Awake s
    owed : Holds (mark_wake ∷ signal ∷ []) s.callbacks → Awake s

  -- Where the worker's address is not yet known.
  pub data Published (s : System N) : Type 0 where
    off : s.pc ≡ stopped → Published s
    early : s.pc ≡ starting → Published s
    known_at : 0 < s.memory.worker_latch → Published s

  pub record Invariant (s : System N) : Type 0 where
    pub distinct : Nodup (known s.db)
    pub published : Published s
    pub awake : Awake s

perform-should_wake :
    (a : Action) (m : Shmem) → m.should_wake ≡ true → (perform a m).should_wake ≡ true
perform-should_wake mark_wake m h = refl
perform-should_wake signal m h = ground arith

perform-latch_set : (a : Action) (m : Shmem) → m.latch_set ≡ true → (perform a m).latch_set ≡ true
perform-latch_set mark_wake m h = h
perform-latch_set signal m h = ground arith

perform-worker_latch : (a : Action) (m : Shmem) → (perform a m).worker_latch ≡ m.worker_latch
perform-worker_latch mark_wake m = refl
perform-worker_latch signal m = ground arith

signal-latch_set : (m : Shmem) → 0 < m.worker_latch → (perform signal m).latch_set ≡ true
signal-latch_set m h = ground arith

module _ {N : Type 0} where
  -- The state after a callback's step.
  abbrev pub acted :
      (s : System N) (before : List (List Action)) (a : Action) (rest : List Action)
      (after : List (List Action))
      → System N
  acted s before a rest after = record s {
    memory = perform a s.memory;
    callbacks = before ++ rest ∷ after;
  }

  module _ (s : System N) (before : List (List Action)) (a : Action) (rest : List Action)
      (after : List (List Action)) (at : s.callbacks ≡ before ++ (a ∷ rest) ∷ after) where
    abbrev s' : System N
    s' = acted s before a rest after

    pub acted-Published : Published s → Published s'
    acted-Published (off e) = off e
    acted-Published (early e) = early e
    acted-Published (known_at h) =
        known_at (subst (λ n. 0 < n) (sym (perform-worker_latch a s.memory)) h)

    rings : a ≡ signal → Published s → Signalled s'
    rings e (off h) = down h
    rings e (early h) = coming h
    rings e (known_at h) =
        ringing
          (subst (λ x. (perform x s.memory).latch_set ≡ true) (sym e) (signal-latch_set s.memory h))

    acted-Signalled : Published s → Signalled s → Signalled s'
    acted-Signalled p (ringing h) = ringing (perform-latch_set a s.memory h)
    acted-Signalled p (past h) = past h
    acted-Signalled p (past_check h) = past_check h
    acted-Signalled p (down h) = down h
    acted-Signalled p (coming h) = coming h
    acted-Signalled p (ringer h) =
        elim (Holds-act (signal ∷ []) (a ∷ rest) rest before after
          (subst (Holds (signal ∷ [])) at h)) [ inl e ↦ rings (cc) p | inr k ↦ ringer k ]

    pub acted-Awake : Published s → Awake s → Awake s'
    acted-Awake p (no_calls h) = no_calls h
    acted-Awake p (at_work h) = at_work h
    acted-Awake p (marked h g) = marked (perform-should_wake a s.memory h) (acted-Signalled p g)
    acted-Awake p (owed h) =
        elim (Holds-act (mark_wake ∷ signal ∷ []) (a ∷ rest) rest before after
          (subst (Holds (mark_wake ∷ signal ∷ [])) at h)) [
            | inl e ↦
                let first : a ≡ mark_wake = cc in
                let others : rest ≡ signal ∷ [] = cc in
                marked (subst (λ x. (perform x s.memory).should_wake ≡ true) (sym first) refl) (
                  ringer (
                    subst (λ x. Holds (signal ∷ []) (before ++ x ∷ after)) (sym others)
                      (Holds-at (signal ∷ []) before after)))
            | inr k ↦ owed k
          ]
