-- ===== src/Extension/Stage/Laws.antt =====
-- What is staged after any calls: the map seen as a function of the filename.
use pg_grpc.Common.{
  ◌≡◌, ◌↔◌, refl, ap, ◌∙◌, inl, inr, String, Bool, Option, none, some, List, [], ◌∷◌, if◌then◌else◌,
  ◌==◌, string_eq, arith, Bool-cases, map, ==_refl,
}
use pg_grpc.Text.{trim, is_empty}
use pg_grpc.HashMap
use pg_grpc.HashMap.{HashMap, IsMap, In, is_some}
use pg_grpc.HashMap.Laws.{get-empty, get-insert, get-remove, insert-IsMap, remove-IsMap, In-iff}
use pg_grpc.Staging
use pg_grpc.Staging.{Staged}
use pg_grpc.Extension.Stage.{
  validate_stage_input, grpc_proto_stage, grpc_proto_unstage, grpc_proto_unstage_all,
  grpc_proto_list_staged, Call, stage, unstage, unstage_all, settle, step, run,
}

abbrev pub is_blank : String → Bool
is_blank s = is_empty (trim s)

-- What one call leaves of the source that a file has.
abbrev pub after : String → Call → Option String → Option String
after file (stage filename source) old =
    if is_blank filename
    then old
    else if is_blank source
    then old
    else if filename == file
    then some source
    else old
after file (unstage filename) old = if filename == file then none else old
after file unstage_all old = none

abbrev pub after_all : String → List Call → Option String → Option String
after_all file [] old = old
after_all file (c ∷ cs) old = after_all file cs (after file c old)

step-IsMap : (files : Staged) (c : Call) → IsMap files → IsMap (step files c)
unfolding step grpc_proto_stage grpc_proto_unstage grpc_proto_unstage_all Staging.stage_file
    Staging.remove validate_stage_input
step-IsMap files (stage filename source) h = ground (arith, insert-IsMap filename source files h)
step-IsMap files (unstage filename) h = remove-IsMap filename files h
step-IsMap files unstage_all h = tt

get-step :
    (files : Staged) (c : Call) (file : String)
    → IsMap files
    → HashMap.get (step files c) file ≡ after file c (HashMap.get files file)
unfolding step grpc_proto_stage grpc_proto_unstage grpc_proto_unstage_all Staging.stage_file
    Staging.remove validate_stage_input
get-step files (stage filename source) file h = elim (Bool-cases (is_blank filename)) [
  | inl blank ↦ rw (blank, settle)
  | inr named ↦ elim (Bool-cases (is_blank source)) [
    | inl blank ↦ rw (named, blank)
    | inr filled ↦ rw (named, filled) (get-insert filename file source files)
  ]
]
get-step files (unstage filename) file h = get-remove filename file files h
get-step files unstage_all file h = get-empty file

run-IsMap : (files : Staged) (cs : List Call) → IsMap files → IsMap (run files cs)
unfolding run
run-IsMap files [] h = h
run-IsMap files (c ∷ cs) h = run-IsMap (step files c) cs (step-IsMap files c h)

get-run :
    (files : Staged) (cs : List Call) (file : String)
    → IsMap files
    → HashMap.get (run files cs) file ≡ after_all file cs (HashMap.get files file)
unfolding run
get-run files [] file h = refl
get-run files (c ∷ cs) file h =
    get-run (step files c) cs file (step-IsMap files c h)
    ∙ ap (after_all file cs) (get-step files c file h)

get-run-empty :
    (cs : List Call) (file : String) → HashMap.get (run [] cs) file ≡ after_all file cs none
get-run-empty cs file = get-run [] cs file tt ∙ ap (after_all file cs) (get-empty file)

map-same : (files : Staged) → map (λ e. (e.0, e.1)) files ≡ files
map-same [] = refl
map-same ((k, v) ∷ m) = rw (map-same m)

-- After any calls, from a start with nothing staged, a file is listed with a source exactly if that
-- source is what the calls about it left: the last accepted one counts, a call with a blank
-- filename or source counts for nothing, and unstaging forgets the file.
pub listed_iff :
    (cs : List Call) (file source : String)
    → In file source (grpc_proto_list_staged (run [] cs)) ↔ (after_all file cs none ≡ some source)
unfolding grpc_proto_list_staged Staging.list
listed_iff cs file source =
    let (listed, held) = In-iff file source (run [] cs) (run-IsMap [] cs tt) in
    rw (map-same (run [] cs), ← get-run-empty cs file) (listed, held)

-- `grpc_proto_unstage` says whether the file was staged, and it is not afterwards.
unstage_lem :
    (cs : List Call) (file : String)
    → let r = grpc_proto_unstage file (run [] cs) in
      (r.1 ≡ is_some (after_all file cs none)) × (HashMap.get r.0 file ≡ none)
unfolding grpc_proto_unstage Staging.remove
unstage_lem cs file = (
  ap is_some (get-run-empty cs file),
  get-remove file file (run [] cs) (run-IsMap [] cs tt) ∙ rw (==_refl file),
)
