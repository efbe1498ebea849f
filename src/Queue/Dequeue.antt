-- ===== src/Queue/Dequeue.antt =====
-- `dequeue` of src/queue.rs takes the oldest calls of the queue, each once.
use Prim.Native.Nat.{min}
use mathlib.Core.List.{
  Perm, Mem, Nodup, mem-append, mem-filter, filter, dec_mem, filter-map, perm_ext_iff_of_Nodup,
  mem-map_of_mem,
}
use mathlib.Core.List.Perm
use mathlib.Core.List.Pairwise
use mathlib.Core.Logic.Dec
use mathlib.Core.Logic.Or
use native.Mathlib.Bridge.{le_prop}
use pg_grpc.Common.{
  ℕ, ◌≤◌, ◌<◌, ◌≡◌, refl, sym, ap, ◌∙◌, subst, List, ◌++◌, length, take-append-drop, arith,
  ℕ_discrete,
}
use pg_grpc.Common.Perms.{
  length-perm, length-take, mem_of_mem-take, take-Nodup, filter-not-perm, length-map,
}
use pg_grpc.Queue.{QueueRow, Db, queue_ids, picked, dequeue}
use pg_grpc.Queue.Sort.{IsSorted, order_by, order_by-IsSorted, order_by-perm, le_of_split}

lt_of_le : {i j : ℕ} → i ≤ j → ¬ (i ≡ j) → i < j
lt_of_le h n = omega arith

module _ {N : Type 0} where
  -- A batch taken out of the queue: it and what is left are the queue as it was, nothing that is
  -- left is older than anything taken, the batch is as large as the limit and the queue allow, and
  -- nothing else changes.
  pub record IsBatch (limit : ℕ) (before : Db N) (rows : List (QueueRow N)) (after : Db N)
      : Type 0 where
    pub split : Perm before.call_queue (rows ++ after.call_queue)
    pub oldest : (r s : QueueRow N) → Mem r rows → Mem s after.call_queue → r.id < s.id
    pub size : length rows ≡ min limit (length before.call_queue)
    pub results : after.call_result ≡ before.call_result
    pub sequence : after.next_id ≡ before.next_id

  module _ (limit : ℕ) (rows : List (QueueRow N)) where
    ids-perm : Perm (order_by (queue_ids rows)) (queue_ids rows)
    ids-perm = order_by-perm (queue_ids rows)

    picked-mem : {i : ℕ} → Mem i (picked limit rows) → Mem i (queue_ids rows)
    unfolding picked
    picked-mem m = (Perm.mem_iff ids-perm).0 (mem_of_mem-take limit _ m)

    picked-Nodup : Nodup (queue_ids rows) → Nodup (picked limit rows)
    unfolding picked
    picked-Nodup h = take-Nodup limit _ (Perm.nodup (Perm.symm ids-perm) h)

    -- An id that is not picked comes after every id that is.
    picked-lt :
        {i j : ℕ}
        → Mem i (picked limit rows)
        → Mem j (queue_ids rows)
        → ¬ Mem j (picked limit rows)
        → i < j
    unfolding picked
    picked-lt {i} {j} m n out =
        let whole = sym (take-append-drop limit (order_by (queue_ids rows))) in
        let sorted = subst IsSorted whole (order_by-IsSorted (queue_ids rows)) in
        let listed = subst (Mem j) whole ((Perm.mem_iff ids-perm).1 n) in
        Or.elim le_prop (mem-append.0 listed) (λ taken. absurd (out taken))
          λ left.
            let le = le_of_split _ _ i j sorted m left in
            lt_of_le le (λ e. out (subst (λ k. Mem k (picked limit rows)) e m))

    abbrev is_picked : (i : ℕ) → Dec (Mem i (picked limit rows))
    is_picked i = dec_mem ℕ_discrete i (picked limit rows)

    taken-perm :
        Nodup (queue_ids rows) → Perm (filter is_picked (queue_ids rows)) (picked limit rows)
    taken-perm h =
        (perm_ext_iff_of_Nodup (Pairwise.filter _ h) (picked-Nodup h)).1 λ i.
          (λ m. ((mem-filter is_picked).0 m).1, λ m. (mem-filter is_picked).1 (picked-mem m, m))

    length-picked : length (picked limit rows) ≡ min limit (length rows)
    unfolding picked
    length-picked =
        length-take limit _ ∙ ap (min limit) (length-perm ids-perm ∙ length-map (λ r. r.id) rows)

  -- `dequeue` takes a batch of the oldest calls, and every call of the queue is in the batch or left
  -- in the queue, as often as it was there.
  pub dequeue-IsBatch :
      (limit : ℕ) (db : Db N)
      → Nodup (queue_ids db.call_queue)
      → IsBatch limit db (dequeue limit db).0 (dequeue limit db).1
  unfolding dequeue
  dequeue-IsBatch limit db h =
      let ids = picked limit db.call_queue in
      let d = λ (r : QueueRow N). dec_mem ℕ_discrete r.id ids in
      record {
        split = filter-not-perm d db.call_queue;
        oldest = λ r s m n.
            let (listed, out) = (mem-filter (λ x. Dec.not (d x))).0 n in
            picked-lt limit db.call_queue ((mem-filter d).0 m).1 (mem-map_of_mem _ listed) out;
        size =
            sym (length-map (λ r. r.id) (filter d db.call_queue))
            ∙ ap length (sym (filter-map (is_picked limit db.call_queue) (λ r. r.id) db.call_queue))
            ∙ length-perm (taken-perm limit db.call_queue h)
            ∙ length-picked limit db.call_queue;
        results = refl;
        sequence = refl;
      }
