-- ===== src/Extension/Register/Laws.antt =====
-- What a compilation registers, and under which names.
use pg_grpc.Common.{
  ◌≡◌, ◌⊎◌, refl, sym, ap, subst, ◌∙◌, inl, inr, String, Option, some, List, [], ◌∷◌, ok, >>=-eq-ok,
  ok-injective, unwrap_or, string_eq, ◌==◌, Bool-cases,
}
use pg_grpc.HashMap
use pg_grpc.HashMap.{IsMap}
use pg_grpc.HashMap.Laws.{get-insert}
use pg_grpc.Staging.{Staged}
use pg_grpc.Registry.{Registry, RegisteredService, user_staged, insert_proto_manual}
use pg_grpc.Proto.{Descriptors, compile_proto_files}
use pg_grpc.Extension.Register.{register_services, grpc_proto_compile}

-- A service of this name comes from this file.
abbrev pub Serves : String → String → List (String × String) → Type 0
Serves name file [] = ⊥
Serves name file ((n, f) ∷ services) = ((n ≡ name) × (f ≡ file)) ⊎ Serves name file services

module _ (d : Descriptors) where
  -- A registration from the staged files.
  abbrev pub from_staged : d.DescriptorPool → Staged → String → RegisteredService d.DescriptorPool
  from_staged pool staged file = record {
    pool = pool;
    origin = user_staged file (unwrap_or (HashMap.get staged file) "");
  }

  -- What becomes of a name: a service of the pool under it is registered, any other keeps what it had.
  abbrev pub Registers :
      d.DescriptorPool
      → Staged
      → List (String × String)
      → String
      → Option (RegisteredService d.DescriptorPool)
      → Option (RegisteredService d.DescriptorPool)
      → Type 0
  Registers pool staged services name before after =
      ((file : String) × Serves name file services × (after ≡ some (from_staged pool staged file)))
      ⊎ (((file : String) → ¬ Serves name file services) × (after ≡ before))

  register_services_lem :
      (pool : d.DescriptorPool) (staged : Staged) (services : List (String × String))
      (registry : Registry d.DescriptorPool) (name : String)
      → Registers pool staged services name
          (HashMap.get registry name)
          (HashMap.get (register_services d pool staged services registry) name)
  unfolding register_services insert_proto_manual
  register_services_lem pool staged [] registry name = inr (λ file h. h, refl)
  register_services_lem pool staged ((n, f) ∷ services) registry name =
      elim (register_services_lem pool staged services
        (HashMap.insert n (from_staged pool staged f) registry) name) [
          | inl (file, h, e) ↦ inl (file, inr h, e)
          | inr (others, e) ↦ elim (Bool-cases (n == name)) [
            | inl same ↦ inl (
              f,
              inl ((string_eq.same_iff n name).0 same, refl),
              e ∙ get-insert n name (from_staged pool staged f) registry ∙ (rw same refl),
            )
            | inr other ↦ inr (
              λ file. elim [
                | inl (p, q) ↦ cc (other, (string_eq.same_iff n name).1 p)
                | inr h ↦ others file h
              ],
              e ∙ get-insert n name (from_staged pool staged f) registry ∙ (rw other refl),
            )
          ]
        ]

  -- A compilation that succeeds leaves nothing staged and registers the services of the compiled pool,
  -- each with the file that it comes from and that file's staged source; no other name changes.
  pub grpc_proto_compile-ok :
      (staged staged' : Staged) (registry registry' : Registry d.DescriptorPool)
      → grpc_proto_compile d staged registry ≡ ok (staged', registry')
      → (pool : d.DescriptorPool) × (compile_proto_files d staged ≡ ok pool)
        × (staged' ≡ [])
        × ((name : String)
            → Registers pool staged
                (d.services pool)
                name
                (HashMap.get registry name)
                (HashMap.get registry' name))
  unfolding grpc_proto_compile
  grpc_proto_compile-ok staged staged' registry registry' h =
      let (pool, compiled, e) = >>=-eq-ok (compile_proto_files d staged) _ h in
      let same = ok-injective e in
      (
        pool,
        compiled,
        sym (ap (λ p. p.0) same),
        λ name.
            subst
              (λ r.
                Registers pool staged (d.services pool) name (HashMap.get registry name)
                  (HashMap.get r name))
              (ap (λ p. p.1) same)
              (register_services_lem pool staged (d.services pool) registry name),
      )
