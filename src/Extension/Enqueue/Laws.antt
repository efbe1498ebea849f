-- ===== src/Extension/Enqueue/Laws.antt =====
-- What `grpc_call_async` accepts, and what it leaves behind.
use pg_grpc.Common.{
  ℕ, ℤ, pos, as_i32, suc, true, ◌≤◌, ◌≡◌, ◌↔◌, sym, ap, String, Option, ok, err, >>=-eq-ok,
  ok-injective, unwrap_or, ltb, arith, ◌∙◌, refl, subst, [], ◌∷◌, ◌++◌, Bool-cases, inl, inr,
}
use pg_grpc.Errors.{GrpcResult}
use pg_grpc.Json.{Numbers, Value}
use pg_grpc.Options.{OptionsConfig}
use pg_grpc.Queue.{insert_call}
use pg_grpc.Endpoint.{validate_endpoint}
use pg_grpc.Call.Method.{parse_method}
use pg_grpc.Extension.Enqueue.{
  Session, i32_max, or_error, row_timeout, read_options, enqueue, grpc_call_async,
}

or_error-ok : {A : Type 0} (r : GrpcResult A) (a : A) → or_error r ≡ ok a → r ≡ ok a
or_error-ok (ok b) a h = ap ok (ok-injective h)
or_error-ok (err e) a h = cc

as_i32_small : (n : ℕ) → n ≤ i32_max → as_i32 n ≡ pos n
as_i32_small n le = ground arith

row_timeout-ok_iff :
    (opts : OptionsConfig) (z : ℤ)
    → (row_timeout opts ≡ ok z)
      ↔ ((z ≡ pos (unwrap_or opts.timeout_ms 30000)) × (unwrap_or opts.timeout_ms 30000 ≤ i32_max))
unfolding row_timeout
row_timeout-ok_iff opts z = elim (Bool-cases (ltb i32_max (unwrap_or opts.timeout_ms 30000))) [
  | inl big ↦ rw (row_timeout, big) ((λ h. cc), (λ h. let le = h.1 in ground arith))
  | inr small ↦
      let le : unwrap_or opts.timeout_ms 30000 ≤ i32_max = ground arith in
      let same = as_i32_small (unwrap_or opts.timeout_ms 30000) le in
      rw (row_timeout, small)
        ((λ h. (sym (ok-injective h) ∙ same, le)), (λ h. ap ok (same ∙ sym h.0)))
]

module _ (ns : Numbers) where
  -- A call that passes every check of the synchronous path, with the timeout that its row gets.
  pub record Accepted (endpoint method : String) (options : Option (Value ns.N)) (timeout_ms : ℕ)
      : Type 0 where
    pub host : String
    pub path : String × String
    pub opts : OptionsConfig
    pub valid_endpoint : validate_endpoint endpoint ≡ ok host
    pub valid_method : parse_method method ≡ ok path
    pub valid_options : read_options ns options ≡ ok opts
    pub timeout : unwrap_or opts.timeout_ms 30000 ≡ timeout_ms
    pub fits : timeout_ms ≤ i32_max

  -- The session after an accepted call: one more row, which holds what the call was given.
  abbrev pub queued :
      String
      → String
      → Value ns.N
      → Option (Value ns.N)
      → Option (Value ns.N)
      → ℕ
      → Session ns.N
      → Session ns.N × ℕ
  queued e m req md o t s = (
    record {
      db = record {
        next_id = suc s.db.next_id;
        call_queue =
            s.db.call_queue
            ++ (record {
              id = s.db.next_id;
              endpoint = e;
              method = m;
              request = req;
              metadata = md;
              options = o;
              timeout_ms = pos t;
            })
              ∷ [];
        call_result = s.db.call_result;
      };
      wake_cb_active = true;
    },
    s.db.next_id,
  )

  pub grpc_call_async-enqueue_iff :
      (endpoint method : String) (request : Value ns.N) (metadata options : Option (Value ns.N))
      (s : Session ns.N) (r : Session ns.N × ℕ)
      → (grpc_call_async ns endpoint method request metadata options s ≡ ok r) ↔ (
          (t : ℕ) × Accepted endpoint method options t
          × (r ≡ enqueue ns endpoint method request metadata options (pos t) s))
  unfolding grpc_call_async
  grpc_call_async-enqueue_iff endpoint method request metadata options s r = (to, from)
    where
      to :
          grpc_call_async ns endpoint method request metadata options s ≡ ok r
          → (t : ℕ) × Accepted endpoint method options t
            × (r ≡ enqueue ns endpoint method request metadata options (pos t) s)
      to h =
          let (host, e, h1) = >>=-eq-ok (or_error (validate_endpoint endpoint)) _ h in
          let (path, m, h2) = >>=-eq-ok (or_error (parse_method method)) _ h1 in
          let (opts, o, h3) = >>=-eq-ok (or_error (read_options ns options)) _ h2 in
          let (t, f, h4) = >>=-eq-ok (row_timeout opts) _ h3 in
          let (same, le) = (row_timeout-ok_iff opts t).0 f in
          (
            unwrap_or opts.timeout_ms 30000,
            record {
              host = host;
              path = path;
              opts = opts;
              valid_endpoint = or_error-ok _ host e;
              valid_method = or_error-ok _ path m;
              valid_options = or_error-ok _ opts o;
              timeout = refl;
              fits = le;
            },
            sym (ok-injective h4)
                ∙ ap (λ z. enqueue ns endpoint method request metadata options z s) same,
          )

      from :
          ((t : ℕ) × Accepted endpoint method options t
            × (r ≡ enqueue ns endpoint method request metadata options (pos t) s))
          → grpc_call_async ns endpoint method request metadata options s ≡ ok r
      from (t, a, e) =
          let f =
            (row_timeout-ok_iff a.opts (pos t)).1
              (ap pos (sym a.timeout), subst (λ n. n ≤ i32_max) (sym a.timeout) a.fits) in
          rw (grpc_call_async, a.valid_endpoint, a.valid_method, a.valid_options, f) (ap ok (sym e))

  -- A call is accepted exactly if its endpoint, its method and its options are, and its timeout fits;
  -- its row then holds what it was given and the timeout, under the next id, and nothing else of the
  -- tables changes; the call returns that id, and the commit callback is told.
  pub grpc_call_async-ok_iff :
      (endpoint method : String) (request : Value ns.N) (metadata options : Option (Value ns.N))
      (s : Session ns.N) (r : Session ns.N × ℕ)
      → (grpc_call_async ns endpoint method request metadata options s ≡ ok r) ↔ (
          (t : ℕ) × Accepted endpoint method options t
          × (r ≡ queued endpoint method request metadata options t s))
  unfolding enqueue insert_call
  grpc_call_async-ok_iff endpoint method request metadata options s r =
      grpc_call_async-enqueue_iff endpoint method request metadata options s r
