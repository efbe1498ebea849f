-- ===== src/Wake/Kept.antt =====
-- How single steps of the worker of src/worker.rs, of a SIGHUP and of a change of the settings carry
-- on what is bound to wake it.
use mathlib.Core.List.{Nodup, List, []}
use pg_grpc.Common.{ℕ, Bool, ◌≡◌, ◌≢◌, refl, sym, ◌∙◌, true, false, arith}
use pg_grpc.Worker.Rounds.{known}
use pg_grpc.Wake.{Shmem, Action, take_wake, store_latch}
use pg_grpc.Wake.System.{Pc, stopped, starting, waiting, woken, checked, draining, Settings, System}
use pg_grpc.Wake.Awake.{
  Signalled, ringing, past, past_check, ringer, down, coming, Awake, no_calls, at_work, marked,
  owed, Published, off, early, known_at, Invariant,
}

pub take_wake-marked : (m : Shmem) → m.should_wake ≡ true → (take_wake m).1 ≡ true
take_wake-marked m h = ground arith

pub take_wake-worker_latch : (m : Shmem) → (take_wake m).0.worker_latch ≡ m.worker_latch
take_wake-worker_latch m = ground arith

pub at_pc : (pc a b : Pc) → pc ≡ a → a ≢ b → pc ≢ b
at_pc pc a b e n h = n (sym e ∙ h)

module _ {N : Type 0} where
  pub settled-Invariant :
      (s : System N) → s.pc ≡ stopped → s.db.call_queue ≡ [] → Nodup (known s.db) → Invariant s
  settled-Invariant s e empty distinct = record {
    distinct = distinct;
    published = off e;
    awake = no_calls empty;
  }

  -- Once it is past the latch, the worker finds the mark, if there is one to find.
  pub skipped-Awake :
      (s : System N)
      → s.pc ≡ checked
      → (take_wake s.memory).1 ≡ false
      → Awake s
      → Awake (record s { memory = (take_wake s.memory).0; pc = waiting })
  skipped-Awake s e f (no_calls h) = no_calls h
  skipped-Awake s e f (at_work h) = cc
  skipped-Awake s e f (marked h g) = let found = take_wake-marked s.memory h in cc
  skipped-Awake s e f (owed h) = owed h

  pub woken-Awake :
      (s : System N)
      → s.pc ≡ waiting
      → Awake s
      → Awake (record s { memory = record s.memory { latch_set = false }; pc = woken })
  woken-Awake s e (no_calls h) = no_calls h
  woken-Awake s e (at_work h) = cc
  woken-Awake s e (marked h g) = marked h (past refl)
  woken-Awake s e (owed h) = owed h

  pub published-Awake :
      (s : System N)
      → (latch : ℕ) → s.pc ≡ starting
      → Awake s
      → Awake (record s {
        memory = record (store_latch latch s.memory) { latch_set = true };
        pc = waiting;
      })
  published-Awake s latch e (no_calls h) = no_calls h
  published-Awake s latch e (at_work h) = cc
  published-Awake s latch e (marked h g) = marked h (ringing refl)
  published-Awake s latch e (owed h) = owed h

  -- Past its check for SIGHUP, with the settings that it then has.
  pub checked-Awake :
      (s : System N) (c : Settings) (b : Bool)
      → s.pc ≡ woken
      → Awake s
      → Awake (record s { pc = checked; settings = c; sighup = b })
  checked-Awake s c b e (no_calls h) = no_calls h
  checked-Awake s c b e (at_work h) = cc
  checked-Awake s c b e (marked h g) = marked h (past_check refl)
  checked-Awake s c b e (owed h) = owed h

  pub hung_up-Awake :
      (s : System N)
      → Awake s
      → Awake (record s { memory = record s.memory { latch_set = true }; sighup = true })
  hung_up-Awake s (no_calls h) = no_calls h
  hung_up-Awake s (at_work h) = at_work h
  hung_up-Awake s (marked h g) = marked h (ringing refl)
  hung_up-Awake s (owed h) = owed h

  pub configured-Awake :
      (s : System N) (new : Settings) → Awake s → Awake (record s { config = new })
  configured-Awake s new (no_calls h) = no_calls h
  configured-Awake s new (at_work h) = at_work h
  configured-Awake s new (marked h g) = marked h (go g)
    where
      go : Signalled s → Signalled (record s { config = new })
      go (ringing h) = ringing h
      go (past h) = past h
      go (past_check h) = past_check h
      go (down h) = down h
      go (coming h) = coming h
      go (ringer h) = ringer h
  configured-Awake s new (owed h) = owed h

  -- Published does not depend on the rest of the state.
  pub same-Published :
      {s t : System N}
      → t.pc ≡ s.pc
      → t.memory.worker_latch ≡ s.memory.worker_latch
      → Published s
      → Published t
  same-Published e m (off h) = off (e ∙ h)
  same-Published e m (early h) = early (e ∙ h)
  same-Published e m (known_at h) = known_at (omega arith)

  -- A worker that is not yet running goes from one such state to another.
  pub down-Awake :
      (s : System N) (m : Shmem) (pc : Pc) (cfg : Settings) (b : Bool)
      → s.pc ≢ draining
      → m.should_wake ≡ s.memory.should_wake
      → ((c : List (List Action))
          → Signalled (record s { memory = m; pc = pc; settings = cfg; sighup = b }))
      → Awake s
      → Awake (record s { memory = m; pc = pc; settings = cfg; sighup = b })
  down-Awake s m pc cfg b n e g (no_calls h) = no_calls h
  down-Awake s m pc cfg b n e g (at_work h) = absurd (n h)
  down-Awake s m pc cfg b n e g (marked h g') = marked (e ∙ h) (g s.callbacks)
  down-Awake s m pc cfg b n e g (owed h) = owed h

  pub running :
      {s t : System N}
      → s.pc ≢ stopped
      → s.pc ≢ starting
      → t.memory.worker_latch ≡ s.memory.worker_latch
      → Published s
      → Published t
  running n m e (off h) = absurd (n h)
  running n m e (early h) = absurd (m h)
  running n m e (known_at h) = known_at (omega arith)
