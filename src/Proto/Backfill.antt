-- ===== src/Proto/Backfill.antt =====
-- `backfill_wkts` of src/proto.rs makes a pool complete.
use pg_grpc.Common.{
  ◌≡◌, refl, subst, String, Bool, true, false, List, [], ◌∷◌, ok, >>=-eq-ok, ok-injective, All,
  arith,
}
use pg_grpc.Proto.{Descriptors, backfill_file, backfill_from, backfill_wkts}

-- What the program relies on of prost-reflect: a file that is added is there under its name, the
-- files that were there stay, and the global pool has each file under its name.
pub record PoolLaws (d : Descriptors) : Type 0 where
  pub file_name : d.FileDescriptorProto → String
  pub adds :
      (pool next : d.DescriptorPool) (fdp : d.FileDescriptorProto)
      → d.add_file_descriptor_proto pool fdp ≡ ok next
      → d.has_file next (file_name fdp) ≡ true
  pub keeps :
      (pool next : d.DescriptorPool) (fdp : d.FileDescriptorProto) (name : String)
      → d.add_file_descriptor_proto pool fdp ≡ ok next
      → d.has_file pool name ≡ true
      → d.has_file next name ≡ true
  pub global_names : All (λ e. file_name e.1 ≡ e.0) d.global_files

module _ (d : Descriptors) where
  -- The pool has every file of the list.
  abbrev pub HasAll : List (String × d.FileDescriptorProto) → d.DescriptorPool → Type 0
  HasAll files pool = All (λ e. d.has_file pool e.0 ≡ true) files

  -- No file of the one pool is missing in the other.
  abbrev pub KeepsFiles : d.DescriptorPool → d.DescriptorPool → Type 0
  KeepsFiles pool next = (name : String) → d.has_file pool name ≡ true → d.has_file next name ≡ true

  backfill_from-HasAll :
      (files : List (String × d.FileDescriptorProto)) (pool : d.DescriptorPool)
      → HasAll files pool
      → backfill_from d files pool ≡ ok pool
  unfolding backfill_from backfill_file
  backfill_from-HasAll [] pool h = refl
  backfill_from-HasAll ((name, fdp) ∷ files) pool (e, h) =
      rw (e, backfill_file) (backfill_from-HasAll files pool h)

module _ (d : Descriptors) (laws : PoolLaws d) where
  backfill_file-fills :
      (b : Bool) (name : String) (fdp : d.FileDescriptorProto) (pool next : d.DescriptorPool)
      → d.has_file pool name ≡ b
      → laws.file_name fdp ≡ name
      → backfill_file d b name fdp pool ≡ ok next
      → (d.has_file next name ≡ true) × KeepsFiles d pool next
  unfolding backfill_file
  backfill_file-fills true name fdp pool next has named h =
      let same = ok-injective h in
      (
        subst (λ p. d.has_file p name ≡ true) same has,
        λ n e. subst (λ p. d.has_file p n ≡ true) same e,
      )
  backfill_file-fills false name fdp pool next has named h =
      let added : d.add_file_descriptor_proto pool fdp ≡ ok next = ground arith in
      (
        subst (λ n. d.has_file next n ≡ true) named (laws.adds pool next fdp added),
        λ n e. laws.keeps pool next fdp n added e,
      )

  backfill_from-fills :
      (files : List (String × d.FileDescriptorProto)) (pool end : d.DescriptorPool)
      → All (λ e. laws.file_name e.1 ≡ e.0) files
      → backfill_from d files pool ≡ ok end
      → HasAll d files end × KeepsFiles d pool end
  unfolding backfill_from
  backfill_from-fills [] pool end names h =
      (tt, λ n e. subst (λ p. d.has_file p n ≡ true) (ok-injective h) e)
  backfill_from-fills ((name, fdp) ∷ files) pool end (named, names) h =
      let (next, first, rest) =
        >>=-eq-ok (backfill_file d (d.has_file pool name) name fdp pool) _ h in
      let (there, kept) = backfill_file-fills _ name fdp pool next refl named first in
      let (all, kept') = backfill_from-fills files next end names rest in
      ((kept' name there, all), λ n e. kept' n (kept n e))

  -- When it succeeds, `backfill_wkts` leaves a pool with every well-known file and every file that the
  -- pool had; to fill that pool again changes nothing.
  pub backfill_wkts-HasAll :
      (pool end : d.DescriptorPool)
      → backfill_wkts d pool ≡ ok end
      → HasAll d d.global_files end × KeepsFiles d pool end × (backfill_wkts d end ≡ ok end)
  unfolding backfill_wkts
  backfill_wkts-HasAll pool end h =
      let (all, kept) = backfill_from-fills d.global_files pool end laws.global_names h in
      (all, kept, backfill_from-HasAll d d.global_files end all)
