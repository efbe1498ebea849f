-- ===== src/Extension/Register/History/Laws.antt =====
-- The listing of src/lib.rs tells of each service what the last change about it left.
use mathlib.Core.Option
use pg_grpc.Common.{
  ◌≡◌, ◌↔◌, refl, ap, ◌∙◌, String, none, some, List, [], ◌∷◌, ok, err, if◌then◌else◌, ◌==◌,
  string_eq, map, Bool-cases, inl, inr,
}
use pg_grpc.Errors.{GrpcResult}
use pg_grpc.HashMap
use pg_grpc.HashMap.{IsMap, In, Fresh}
use pg_grpc.HashMap.Laws.{get-empty, get-insert, get-remove, insert-IsMap, remove-IsMap, In-iff}
use pg_grpc.Staging.{Staged}
use pg_grpc.Registry
use pg_grpc.Registry.{
  Registry, Origin, RegisteredService, user_staged, reflection, insert_proto_manual,
  insert_proto_reflection, list,
}
use pg_grpc.Proto.{Descriptors, compile_proto_files}
use pg_grpc.Extension.Register.{
  register_services, grpc_proto_compile, grpc_proto_unregister, grpc_proto_unregister_all,
  registered_row, grpc_proto_list_registered,
}
use pg_grpc.Extension.Register.History.{
  Services, Change, compiles, answers, unregisters, unregisters_all, registry_of, change, changed,
  served, compiled, after, after_all, origin_in,
}

module _ (d : Descriptors) where
  register_services-IsMap :
      (pool : d.DescriptorPool) (staged : Staged) (services : List (String × String))
      (registry : Services d)
      → IsMap registry
      → IsMap (register_services d pool staged services registry)
  unfolding register_services insert_proto_manual
  register_services-IsMap pool staged [] registry h = h
  register_services-IsMap pool staged ((n, file) ∷ services) registry h =
      register_services-IsMap pool staged services _ (insert-IsMap n _ registry h)

  -- The origin of a name after d an insertion.
  origin_in-insert :
      (n name : String) (s : RegisteredService d.DescriptorPool) (registry : Services d)
      → origin_in d (HashMap.insert n s registry) name
        ≡ (if n == name then some s.origin else origin_in d registry name)
  origin_in-insert n name s registry =
      ap (Option.map (λ r. r.origin)) (get-insert n name s registry)
      ∙ elim (Bool-cases (n == name)) [ inl e ↦ rw e refl | inr e ↦ rw e refl ]

  origin_in-register_services :
      (pool : d.DescriptorPool) (staged : Staged) (services : List (String × String))
      (registry : Services d) (name : String)
      → origin_in d (register_services d pool staged services registry) name
        ≡ served d name staged services (origin_in d registry name)
  unfolding register_services insert_proto_manual
  origin_in-register_services pool staged [] registry name = refl
  origin_in-register_services pool staged ((n, file) ∷ services) registry name =
      origin_in-register_services pool staged services _ name
      ∙ ap (served d name staged services) (origin_in-insert n name _ registry)

  -- A compilation by its pool.
  registry_of-compile :
      (staged : Staged) (registry : Services d) (r : GrpcResult d.DescriptorPool)
      → compile_proto_files d staged ≡ r
      → (registry_of d registry (grpc_proto_compile d staged registry) ≡ (elim r [
        | ok pool ↦ register_services d pool staged (d.services pool) registry
        | err e ↦ registry
      ]))
  unfolding grpc_proto_compile
  registry_of-compile staged registry (ok pool) e = rw (e, grpc_proto_compile) refl
  registry_of-compile staged registry (err x) e = rw (e, grpc_proto_compile) refl

  compile-IsMap :
      (staged : Staged) (registry : Services d) (r : GrpcResult d.DescriptorPool)
      → compile_proto_files d staged ≡ r
      → IsMap registry
      → IsMap (registry_of d registry (grpc_proto_compile d staged registry))
  compile-IsMap staged registry (ok pool) e h =
      rw (registry_of-compile staged registry (ok pool) e)
        (register_services-IsMap pool staged (d.services pool) registry h)
  compile-IsMap staged registry (err x) e h = rw (registry_of-compile staged registry (err x) e) h

  origin_in-compile :
      (staged : Staged) (registry : Services d) (name : String) (r : GrpcResult d.DescriptorPool)
      → compile_proto_files d staged ≡ r
      → origin_in d (registry_of d registry (grpc_proto_compile d staged registry)) name
        ≡ compiled d name staged r (origin_in d registry name)
  origin_in-compile staged registry name (ok pool) e =
      rw (registry_of-compile staged registry (ok pool) e)
        (origin_in-register_services pool staged (d.services pool) registry name)
  origin_in-compile staged registry name (err x) e =
      rw (registry_of-compile staged registry (err x) e) refl

  change-IsMap :
      (registry : Services d) (c : Change d) → IsMap registry → IsMap (change d registry c)
  unfolding grpc_proto_unregister grpc_proto_unregister_all Registry.remove insert_proto_reflection
  change-IsMap registry (compiles staged) h = compile-IsMap staged registry _ refl h
  change-IsMap registry (answers n pool endpoint) h = insert-IsMap n _ registry h
  change-IsMap registry (unregisters n) h = remove-IsMap n registry h
  change-IsMap registry unregisters_all h = tt

  origin_in-change :
      (registry : Services d) (c : Change d) (name : String)
      → IsMap registry
      → origin_in d (change d registry c) name ≡ after d name c (origin_in d registry name)
  unfolding grpc_proto_unregister grpc_proto_unregister_all Registry.remove insert_proto_reflection
  origin_in-change registry (compiles staged) name h = origin_in-compile staged registry name _ refl
  origin_in-change registry (answers n pool endpoint) name h = origin_in-insert n name _ registry
  origin_in-change registry (unregisters n) name h =
      ap (Option.map (λ r. r.origin)) (get-remove n name registry h)
      ∙ elim (Bool-cases (n == name)) [ inl e ↦ rw e refl | inr e ↦ rw e refl ]
  origin_in-change registry unregisters_all name h =
      ap (Option.map (λ r. r.origin)) (get-empty name)

  changed-IsMap :
      (registry : Services d) (cs : List (Change d))
      → IsMap registry
      → IsMap (changed d registry cs)
  unfolding changed
  changed-IsMap registry [] h = h
  changed-IsMap registry (c ∷ cs) h =
      changed-IsMap (change d registry c) cs (change-IsMap registry c h)

  origin_in-changed :
      (registry : Services d) (cs : List (Change d)) (name : String)
      → IsMap registry
      → origin_in d (changed d registry cs) name ≡ after_all d name cs (origin_in d registry name)
  unfolding changed
  origin_in-changed registry [] name h = refl
  origin_in-changed registry (c ∷ cs) name h =
      origin_in-changed (change d registry c) cs name (change-IsMap registry c h)
      ∙ ap (after_all d name cs) (origin_in-change registry c name h)

  get-list :
      (registry : Services d) (name : String)
      → HashMap.get (list registry) name ≡ origin_in d registry name
  unfolding list HashMap.get
  get-list [] name = refl
  get-list ((n, s) ∷ registry) name = elim (Bool-cases (n == name)) [
    | inl e ↦ rw e refl
    | inr e ↦ rw e (get-list registry name)
  ]

  list-Fresh :
      (name : String) (registry : Services d) → Fresh name registry → Fresh name (list registry)
  unfolding list
  list-Fresh name [] h = tt
  list-Fresh name ((n, s) ∷ registry) (own, h) = (own, list-Fresh name registry h)

  list-IsMap : (registry : Services d) → IsMap registry → IsMap (list registry)
  unfolding list
  list-IsMap [] h = tt
  list-IsMap ((n, s) ∷ registry) (own, h) = (list-Fresh n registry own, list-IsMap registry h)

  -- After any changes to an empty registry, the listing has one row for each service and origin that
  -- the changes left: the last of them about the service counts, compilations register the services of
  -- their pools, and a failed compilation counts for nothing.
  pub registered_iff :
      (cs : List (Change d))
      → (entries : List (String × Origin)) × (grpc_proto_list_registered (changed d [] cs)
          ≡ map registered_row entries)
        × IsMap entries
        × ((name : String) (origin : Origin)
            → In name origin entries ↔ (after_all d name cs none ≡ some origin))
  unfolding grpc_proto_list_registered
  registered_iff cs =
      let registry = changed d [] cs in
      let unique = list-IsMap registry (changed-IsMap [] cs tt) in
      (
        list registry,
        refl,
        unique,
        λ name origin.
            rw
              (← (
                get-list registry name
                ∙ origin_in-changed [] cs name tt
                ∙ ap (after_all d name cs) (ap (Option.map (λ s. s.origin)) (get-empty name))))
              (In-iff name origin (list registry) unique),
      )
