-- ===== src/Proto/Fetch/Laws.antt =====
-- Which descriptors reflection yields.
use pg_grpc.Common.{
  ℕ, ◌≡◌, ◌≢◌, ◌⊎◌, refl, sym, ap, ◌∙◌, subst, inl, inr, String, Option, List, [], ◌∷◌, ◌++◌,
  Result, ok, err, ◌>>=◌, >>=-eq-ok, ok-injective, map_err, fail_if,
}
use pg_grpc.Proto.{Descriptors, is_nil, backfill_wkts}
use pg_grpc.Proto.Fetch.{
  Code, unimplemented, internal, other_code, Status, Version, v1, v1alpha, MessageResponse,
  file_descriptor_response, error_response, other_response, Reflection, add_decoded, take_message,
  read_stream, fetch, fall_back, fetch_pool,
}

map_err-ok : {E F A : Type 0} (f : E → F) (r : Result E A) (a : A) → map_err f r ≡ ok a → r ≡ ok a
map_err-ok f (ok b) a h = ap ok (ok-injective h)
map_err-ok f (err e) a h = cc

module _ {d : Descriptors} (r : Reflection d) where
  -- A stream without an error, with the files of its messages in order.
  abbrev pub Files : List (Result Status (MessageResponse r.Bytes)) → List r.Bytes → Type 0
  Files [] files = files ≡ []
  Files (err s ∷ stream) files = ⊥
  Files (ok (file_descriptor_response own) ∷ stream) files =
      (more : List r.Bytes) × Files stream more × (files ≡ own ++ more)
  Files (ok (error_response code message) ∷ stream) files = ⊥
  Files (ok other_response ∷ stream) files = Files stream files

  -- A version of the service answered with these descriptors, one service at least among them.
  pub record Fetched (version : Version) (service_name : String) (max_decode max_encode : Option ℕ)
      (pool : d.DescriptorPool) : Type 0 where
    pub stream : List (Result Status (MessageResponse r.Bytes))
    pub files : List r.Bytes
    pub answer : r.server_reflection_info version max_decode max_encode service_name ≡ ok stream
    pub no_error : Files stream files
    pub added : add_decoded r d.new_pool files ≡ ok pool
    pub some_service : d.services pool ≢ []

  add_decoded-append :
      (pool mid end : d.DescriptorPool) (own more : List r.Bytes)
      → add_decoded r pool own ≡ ok mid
      → add_decoded r mid more ≡ ok end
      → add_decoded r pool (own ++ more) ≡ ok end
  unfolding add_decoded
  add_decoded-append pool mid end [] more h h' =
      subst (λ p. add_decoded r p more ≡ ok end) (sym (ok-injective h)) h'
  add_decoded-append pool mid end (b ∷ own) more h h' =
      let (fdp, decoded, h1) = >>=-eq-ok (map_err _ (r.decode b)) _ h in
      let (next, added, h2) = >>=-eq-ok (map_err _ (d.add_file_descriptor_proto pool fdp)) _ h1 in
      rw (decoded, added) (add_decoded-append next mid end own more h2 h')

  read_stream-Files :
      (stream : List (Result Status (MessageResponse r.Bytes))) (pool end : d.DescriptorPool)
      → read_stream r pool stream ≡ ok end
      → (files : List r.Bytes) × Files stream files × (add_decoded r pool files ≡ ok end)
  unfolding read_stream take_message add_decoded
  read_stream-Files [] pool end h = ([], refl, h)
  read_stream-Files (err s ∷ stream) pool end h = cc
  read_stream-Files (ok (file_descriptor_response own) ∷ stream) pool end h =
      let (mid, first, h1) = >>=-eq-ok (add_decoded r pool own) _ h in
      let (more, fs, h2) = read_stream-Files stream mid end h1 in
      (own ++ more, (more, fs, refl), add_decoded-append pool mid end own more first h2)
  read_stream-Files (ok (error_response code message) ∷ stream) pool end h = cc
  read_stream-Files (ok other_response ∷ stream) pool end h = read_stream-Files stream pool end h

  checked_services :
      {A : Type 0} (l : List A) (s : Status) (pool found : d.DescriptorPool)
      → (fail_if (is_nil l) s >>= λ _. ok pool) ≡ ok found
      → (l ≢ []) × (pool ≡ found)
  checked_services [] s pool found h = cc
  checked_services (a ∷ l) s pool found h = (λ p. cc, ok-injective h)

  fetch-Fetched :
      (version : Version) (service_name : String) (max_decode max_encode : Option ℕ)
      (found : d.DescriptorPool)
      → fetch r version service_name max_decode max_encode ≡ ok found
      → Fetched version service_name max_decode max_encode found
  unfolding fetch
  fetch-Fetched version service_name max_decode max_encode found h =
      let (stream, answer, h1) =
        >>=-eq-ok (r.server_reflection_info version max_decode max_encode service_name) _ h in
      let (pool, read, h2) = >>=-eq-ok (read_stream r d.new_pool stream) _ h1 in
      let (files, fs, added) = read_stream-Files stream d.new_pool pool read in
      let (some_service, same) = checked_services (d.services pool) _ pool found h2 in
      record {
        stream = stream;
        files = files;
        answer = answer;
        no_error = fs;
        added = added ∙ ap ok same;
        some_service = subst (λ p. d.services p ≢ []) same some_service;
      }

  fall_back-ok :
      (first second : Result Status d.DescriptorPool) (found : d.DescriptorPool)
      → fall_back r first second ≡ ok found
      → (first ≡ ok found)
        ⊎ ((s : Status) × (first ≡ err s) × (s.code ≡ unimplemented) × (second ≡ ok found))
  unfolding fall_back
  fall_back-ok (ok pool) second found h = inl h
  fall_back-ok (err s) second found h = go s.code refl
    where
      go :
          (c : Code)
          → s.code ≡ c
          → (◌≡◌ {A = Result Status d.DescriptorPool} (err s) (ok found))
            ⊎ ((s' : Status) × (◌≡◌ {A = Result Status d.DescriptorPool} (err s) (err s'))
                × (s'.code ≡ unimplemented)
                × (second ≡ ok found))
      go unimplemented e = inr (s, refl, e, rw (e, fall_back) at h)
      go internal e = let h' = rw (e, fall_back) at h in cc
      go other_code e = let h' = rw (e, fall_back) at h in cc

  -- Where reflection yields a pool, the server answered by the stable version of the service, or by
  -- the older one if it has not implemented the stable one: without an error, with files that were
  -- added in order and define a service. The pool is theirs with the well-known types filled in.
  pub fetch_pool-ok :
      (service_name : String) (max_decode max_encode : Option ℕ) (pool : d.DescriptorPool)
      → fetch_pool r service_name max_decode max_encode ≡ ok pool
      → (found : d.DescriptorPool) × (Fetched v1 service_name max_decode max_encode found
          ⊎ ((s : Status) × (fetch r v1 service_name max_decode max_encode ≡ err s)
              × (s.code ≡ unimplemented)
              × Fetched v1alpha service_name max_decode max_encode found))
        × (backfill_wkts d found ≡ ok pool)
  unfolding fetch_pool
  fetch_pool-ok service_name max_decode max_encode pool h =
      let (found, answered, filled) = >>=-eq-ok (map_err _ (fall_back r _ _)) _ h in
      (
        found,
        elim (fall_back-ok _ _ found (map_err-ok _ _ found answered)) [
          | inl first ↦ inl (fetch-Fetched v1 service_name max_decode max_encode found first)
          | inr (s, failed, code, second) ↦ inr (
            s,
            failed,
            code,
            fetch-Fetched v1alpha service_name max_decode max_encode found second,
          )
        ],
        filled,
      )
