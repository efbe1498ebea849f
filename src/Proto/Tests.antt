-- ===== src/Proto/Tests.antt =====
-- Runs of `backfill_wkts`, and its theorem at a concrete input.
use pg_grpc.Common.{
  ◌≡◌, refl, arith, String, true, List, [], ◌∷◌, ok, ok-injective, contains, string_eq, subst,
  ==_refl,
}
use pg_grpc.Proto.{Descriptors, backfill_file, backfill_from, backfill_wkts}
use pg_grpc.Proto.Backfill.{PoolLaws, HasAll, KeepsFiles, backfill_wkts-HasAll}

-- A pool is the list of its files' names, and there are two well-known ones.
abbrev names_only : Descriptors
names_only = record {
  DescriptorPool = List String;
  Compiler = Unit;
  FileDescriptorProto = String;
  with_file_resolver = λ resolver. tt;
  open_file = λ c name. ok c;
  file_descriptor_set = λ c. [];
  new_pool = [];
  add_file_descriptor_proto = λ pool name. ok (name ∷ pool);
  services = λ pool. [];
  has_file = λ pool name. contains pool name;
  global_files = ("any", "any") ∷ ("empty", "empty") ∷ [];
}

fills : backfill_wkts names_only ("empty" ∷ "own" ∷ []) ≡ ok ("any" ∷ "empty" ∷ "own" ∷ [])
unfolding backfill_wkts backfill_from backfill_file contains
fills = refl

has-first : (name : String) (pool : List String) → contains (name ∷ pool) name ≡ true
unfolding contains
has-first name pool = rw (==_refl name) refl

has-later :
    (added name : String) (pool : List String)
    → contains pool name ≡ true
    → contains (added ∷ pool) name ≡ true
unfolding contains
has-later added name pool h = ground arith

names_only_laws : PoolLaws names_only
names_only_laws = record {
  file_name = λ name. name;
  adds = λ pool next name e.
      subst (λ p. contains p name ≡ true) (ok-injective e) (has-first name pool);
  keeps = λ pool next added name e h.
      subst (λ p. contains p name ≡ true) (ok-injective e) (has-later added name pool h);
  global_names = (refl, (refl, tt));
}

abbrev filled : List String
filled = "any" ∷ "empty" ∷ "own" ∷ []

backfill_wkts-HasAll_example :
    HasAll names_only names_only.global_files filled
    × KeepsFiles names_only ("empty" ∷ "own" ∷ []) filled
    × (backfill_wkts names_only filled ≡ ok filled)
backfill_wkts-HasAll_example =
    backfill_wkts-HasAll names_only names_only_laws ("empty" ∷ "own" ∷ []) filled fills
