-- ===== src/Extension/Fetch/Laws.antt =====
-- How long `grpc_call_result` waits, and what it then returns.
use pg_grpc.Common.{
  ℕ, suc, ◌+◌, ◌≤◌, ltb, Bool-cases, ◌<◌, ◌≡◌, ◌≢◌, refl, sym, ap, String, Option, none, ◌∙◌, subst,
  false, some, arith, inl, inr,
}
use pg_grpc.Json.{Value}
use pg_grpc.Queue.{Db, ResultRow, find_result, LookupStatus, pending, lookup}
use pg_grpc.Extension.Fetch.{ResultColumns, report, wait, columns, grpc_call_result}

module _ {N : Type 0} where
  wait-pending :
      (fuel : ℕ) (seen : ℕ → Db N) (k id : ℕ)
      → (lookup id (seen k)).status ≡ pending
      → wait (suc fuel) seen k id ≡ wait fuel seen (suc k) id
  unfolding wait
  wait-pending fuel seen k id h = rw (h, wait) refl

  wait_found :
      (fuel : ℕ) (seen : ℕ → Db N) (k id : ℕ)
      → (lookup id (seen k)).status ≢ pending
      → wait (suc fuel) seen k id ≡ some (lookup id (seen k))
  unfolding wait
  wait_found fuel seen k id h = go (lookup id (seen k)).status refl
    where
      go :
          (st : LookupStatus N)
          → (lookup id (seen k)).status ≡ st
          → wait (suc fuel) seen k id ≡ some (lookup id (seen k))
      go pending e = absurd (h e)
      go (LookupStatus.success v) e = simp (e, wait)
      go (LookupStatus.error msg) e = simp (e, wait)

  wait_lem :
      (fuel : ℕ) (seen : ℕ → Db N) (k d id : ℕ)
      → ((j : ℕ) → k ≤ j → j < d → (lookup id (seen j)).status ≡ pending)
      → (lookup id (seen d)).status ≢ pending
      → k ≤ d
      → d < k + fuel
      → wait fuel seen k id ≡ some (lookup id (seen d))
  unfolding wait
  wait_lem ℕ.zero seen k d id before now le h = absurd (omega arith)
  wait_lem (suc fuel) seen k d id before now le h = elim (Bool-cases (ltb k d)) [
    | inl early ↦
        let less : k < d = ground arith in
        wait-pending fuel seen k id (before k (omega arith) less)
        ∙ wait_lem fuel seen (suc k) d id (λ j lo hi. before j (omega arith) hi) now (omega arith)
            (omega arith)
    | inr late ↦
        let same : d ≡ k = ground arith in
        let found =
          wait_found fuel seen k id (subst (λ n. (lookup id (seen n)).status ≢ pending) same now) in
        found ∙ ap (λ n. some (lookup id (seen n))) (sym same)
  ]

  lookup-id : (id : ℕ) (db : Db N) → (lookup id db).id ≡ id
  unfolding lookup
  lookup-id id db = go (find_result id db.call_result) refl
    where
      go : (o : Option (ResultRow N)) → find_result id db.call_result ≡ o → (lookup id db).id ≡ id
      go none e = simp (e, lookup)
      go (some row) e = simp (e, lookup)

  -- The columns of a final status: those of a success, or those of an error.
  pub data Final (id : ℕ) : LookupStatus N → ResultColumns N → Type 0 where
    answered :
        (v : Value N)
        → Final id
            (LookupStatus.success v)
            (record { id = id; status = "SUCCESS"; message = none; response = some v })
    failed :
        (msg : String)
        → Final id
            (LookupStatus.error msg)
            (record { id = id; status = "ERROR"; message = some msg; response = none })

  report-Final : (id : ℕ) (st : LookupStatus N) → st ≢ pending → Final id st (report id st)
  unfolding report
  report-Final id pending h = absurd (h refl)
  report-Final id (LookupStatus.success v) h = answered v
  report-Final id (LookupStatus.error msg) h = failed msg

  -- A synchronous look returns at the first of its polls at which the call is not pending, under
  -- its id and with what is then known of it: "SUCCESS" and the response, or "ERROR" and the message,
  -- and nothing else; as many polls as that are enough.
  pub grpc_call_result_waits :
      (fuel : ℕ) (seen : ℕ → Db N) (k id : ℕ)
      → ((j : ℕ) → j < k → (lookup id (seen j)).status ≡ pending)
      → (lookup id (seen k)).status ≢ pending
      → k < fuel
      → (r : ResultColumns N) × (grpc_call_result fuel seen id false ≡ some r)
        × Final id (lookup id (seen k)).status r
  unfolding grpc_call_result
  grpc_call_result_waits fuel seen k id before now h = (
    columns (lookup id (seen k)),
    rw
        (
          wait_lem fuel seen 0 k id (λ j lo. before j) now (omega arith) (omega arith),
          grpc_call_result,
        )
        refl,
    subst (λ i. Final id (lookup id (seen k)).status (report i (lookup id (seen k)).status))
        (sym (lookup-id id (seen k))) (report-Final id _ now),
  )
