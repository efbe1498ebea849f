-- ===== src/Call/Method/Laws.antt =====
-- Which method paths `parse_method` of src/call.rs accepts.
use pg_grpc.Common.{
  ◌≡◌, ◌≢◌, ◌↔◌, refl, sym, ap, ◌∙◌, subst, inl, inr, String, Option, none, some, false, arith,
  Bool-cases, ok, err,
}
use pg_grpc.Text.{◌⧺◌, trim, is_empty, contains_char, rsplit_once}
use pg_grpc.Text.Trim.{contains_slash-trim}
use pg_grpc.Text.Split.{SplitsAt, rsplit_once-SplitsAt, rsplit_once-append, slash_cons, is_slash}
use pg_grpc.Errors.{GrpcError}
use pg_grpc.Endpoint.Laws.{is_empty_iff}
use pg_grpc.Call.Method.{invalid, check_parts, parse_method}

-- `path` is a service, a slash and a method, each with white space around it at most, and neither
-- blank nor with a slash of its own.
pub record IsMethodPath (path service name : String) : Type 0 where
  pub before : String
  pub after : String
  pub whole : path ≡ before ⧺ "/" ⧺ after
  pub trims_service : trim before ≡ service
  pub trims_name : trim after ≡ name
  pub has_service : service ≢ ""
  pub has_name : name ≢ ""
  pub plain_service : contains_char b'/' service ≡ false
  pub plain_name : contains_char b'/' name ≡ false

not_empty : (s : String) → s ≢ "" → is_empty s ≡ false
not_empty s h = elim (Bool-cases (is_empty s)) [
  | inl e ↦ absurd (h ((is_empty_iff s).0 e))
  | inr e ↦ e
]

check_parts_pass :
    (path service name : String)
    → service ≢ ""
    → name ≢ ""
    → contains_char b'/' service ≡ false
    → check_parts path service name ≡ ok (service, name)
unfolding check_parts
check_parts_pass path service name s n plain = rw (not_empty service s, not_empty name n, plain)

check_parts-eq-ok :
    (path a b service name : String)
    → check_parts path a b ≡ ok (service, name)
    → (a ≡ service) × (b ≡ name) × (a ≢ "") × (b ≢ "") × (contains_char b'/' a ≡ false)
unfolding check_parts
check_parts-eq-ok path a b service name h = ground (arith, is_empty_iff a, is_empty_iff b)

-- Any text with a service and a method in it that `parse_method` can read.
parse_method_complete :
    (path service name : String)
    → IsMethodPath path service name
    → parse_method path ≡ ok (service, name)
unfolding parse_method
parse_method_complete path service name p =
    let clear =
      sym (contains_slash-trim p.after) ∙ ap (contains_char b'/') p.trims_name ∙ p.plain_name in
    let split = rsplit_once-append b'/' p.before "/" p.after refl clear in
    rw (p.whole, slash_cons, split, parse_method, p.trims_service, p.trims_name)
      (check_parts_pass _ service name p.has_service p.has_name p.plain_service)

parse_method_sound :
    (path service name : String)
    → parse_method path ≡ ok (service, name)
    → IsMethodPath path service name
unfolding parse_method
parse_method_sound path service name h = go (rsplit_once b'/' path) refl
  where
    go : (r : Option (String × String)) → rsplit_once b'/' path ≡ r → IsMethodPath path service name
    go none e = let broken = rw (e, parse_method) at h in cc
    go (some (a, b)) e =
        let (s, n, has_s, has_n, plain) =
          check_parts-eq-ok path (trim a) (trim b) service name (rw (e, parse_method) at h) in
        let (c, is_sep, whole, clear) =
          subst (SplitsAt b'/' path) e (rsplit_once-SplitsAt b'/' path) in
        record {
          before = a;
          after = b;
          whole =
              whole
              ∙ ap (λ d. a ⧺ String.◌∷◌ d b) (is_slash c is_sep)
              ∙ ap (λ t. a ⧺ t) (sym (slash_cons b));
          trims_service = s;
          trims_name = n;
          has_service = rw (← s) has_s;
          has_name = rw (← n) has_n;
          plain_service = rw (← s) plain;
          plain_name = rw (← n) (contains_slash-trim b ∙ clear);
        }

-- `parse_method` reads a path as a service and a method exactly if the path is those two with one
-- slash between them, up to white space around each, neither part being blank or holding a slash.
pub parse_method_iff :
    (path service name : String)
    → (parse_method path ≡ ok (service, name)) ↔ IsMethodPath path service name
parse_method_iff path service name =
    (parse_method_sound path service name, parse_method_complete path service name)

-- A service and a method that need no trimming come back from the path that joins them.
parse_method_round_trip :
    (service name : String)
    → trim service ≡ service
    → trim name ≡ name
    → service ≢ ""
    → name ≢ ""
    → contains_char b'/' service ≡ false
    → contains_char b'/' name ≡ false
    → parse_method (service ⧺ "/" ⧺ name) ≡ ok (service, name)
parse_method_round_trip service name s n has_s has_n plain_s plain_n =
    parse_method_complete _ service name (record {
      before = service;
      after = name;
      whole = refl;
      trims_service = s;
      trims_name = n;
      has_service = has_s;
      has_name = has_n;
      plain_service = plain_s;
      plain_name = plain_n;
    })

-- Whatever `parse_method` does not read it refuses by one error, which quotes the whole path.
pub parse_method-err :
    (path : String) (e : GrpcError) → parse_method path ≡ err e → e ≡ invalid path
unfolding parse_method check_parts
parse_method-err path e h = ground arith
