-- ===== src/Extension/Enqueue/Ids.antt =====
-- The ids that `grpc_call_async` gives out.
use mathlib.Core.List.{
  Nodup, Mem, Nodup-append, mem-append, mem-cons, mem-cons_self, not-mem-nil, Nodup-cons, Nodup-nil,
  map-append, append_assoc, [], ◌∷◌, ◌++◌,
}
use mathlib.Core.Logic.Or
use native.Mathlib.Bridge.{le_prop}
use pg_grpc.Common.{
  ℕ, ℤ, pos, ◌<◌, ◌≡◌, refl, sym, ap, ◌∙◌, subst, String, true, Option, ok, arith, nat_eq,
}
use pg_grpc.Common.Members.{not_contains}
use pg_grpc.Json.{Numbers, Value}
use pg_grpc.Queue.{Db, insert_call, queue_ids, result_ids, pending, lookup}
use pg_grpc.Queue.Lookup.{lookup-pending_iff}
use pg_grpc.Worker.Rounds.{known}
use pg_grpc.Worker.Ids.{WellKept}
use pg_grpc.Extension.Enqueue.{Session, enqueue, grpc_call_async}
use pg_grpc.Extension.Enqueue.Laws.{grpc_call_async-enqueue_iff}

lt_prop : (m n : ℕ) → IsProp (m < n)
lt_prop m n = le_prop

ℕ_set : (m n : ℕ) → IsProp (m ≡ n)
ℕ_set = hlevel

mem_last : (i n : ℕ) → Mem i (n ∷ []) → i ≡ n
mem_last i n m = Or.elim (ℕ_set i n) (mem-cons.0 m) (λ p. p) (λ q. absurd (not-mem-nil q))

module _ (ns : Numbers) (endpoint method : String) (request : Value ns.N) where
  module _ (metadata options : Option (Value ns.N)) (t : ℤ) (s : Session ns.N) where
    abbrev after : Db ns.N
    after = (enqueue ns endpoint method request metadata options t s).0.db

    known-enqueue : known after ≡ known s.db ++ s.db.next_id ∷ []
    unfolding enqueue insert_call
    known-enqueue =
        ap (λ l. result_ids s.db.call_result ++ l) (map-append (λ r. r.id) s.db.call_queue _)
        ∙ sym (append_assoc (result_ids s.db.call_result) (queue_ids s.db.call_queue) _)

    enqueue-WellKept : WellKept s.db → WellKept after
    unfolding enqueue insert_call
    enqueue-WellKept k = record {
      distinct = subst Nodup (sym known-enqueue) (
          Nodup-append.1 (
            k.distinct,
            Nodup-cons.1 (not-mem-nil, Nodup-nil),
            λ i m last. (let less = k.given_out i m in let same = mem_last i _ last in omega arith),
          ));
      given_out = λ i m.
          Or.elim (lt_prop _ _) (mem-append.0 (subst (Mem i) known-enqueue m))
            (λ old. let less = k.given_out i old in omega arith)
            (λ new. let same = mem_last i _ new in omega arith);
    }

    enqueue-pending : WellKept s.db → (lookup s.db.next_id after).status ≡ pending
    unfolding enqueue insert_call
    enqueue-pending k = (lookup-pending_iff s.db.next_id after).1 (
      not_contains (result_ids s.db.call_result) s.db.next_id
          (λ m. let less = k.given_out s.db.next_id (mem-append.1 (Or.inl m)) in omega arith),
      subst (Mem s.db.next_id) (sym (map-append (λ r. r.id) s.db.call_queue _))
          (mem-append.1 (Or.inr mem-cons_self)),
    )

  module _ (metadata options : Option (Value ns.N)) where
    -- An accepted call gets an id that nothing in the tables has. The tables stay well kept, the call
    -- is pending, and the commit callback will wake the worker.
    pub grpc_call_async-WellKept :
        (s s' : Session ns.N) (id : ℕ)
        → WellKept s.db
        → grpc_call_async ns endpoint method request metadata options s ≡ ok (s', id)
        → ¬ Mem id (known s.db)
          × WellKept s'.db
          × ((lookup id s'.db).status ≡ pending)
          × (s'.wake_cb_active ≡ true)
    unfolding enqueue insert_call
    grpc_call_async-WellKept s s' id k h =
        let (t, a, e) =
          (grpc_call_async-enqueue_iff ns endpoint method request metadata options s (s', id)).0
            h in
        subst
          (λ r.
            ¬ Mem r.1 (known s.db)
            × WellKept r.0.db
            × ((lookup r.1 r.0.db).status ≡ pending)
            × (r.0.wake_cb_active ≡ true))
          (sym e)
          (
            λ m. (let less = k.given_out s.db.next_id m in omega arith),
            enqueue-WellKept metadata options (pos t) s k,
            enqueue-pending metadata options (pos t) s k,
            refl,
          )
