-- ===== src/Endpoint/Laws.antt =====
-- Which endpoints src/endpoint.rs accepts, and what it answers to the others.
use pg_grpc.Common.{
  ◌≡◌, ◌≢◌, ◌↔◌, refl, sym, ap, ◌∙◌, inl, inr, String, true, false, Bool-cases, ok, err,
}
use pg_grpc.Text.{◌⧺◌, trim, is_empty, contains_text, contains_char}
use pg_grpc.Text.Trim.{trim_idem, contains_slash-trim}
use pg_grpc.Text.Split.{contains_scheme-contains_char}
use pg_grpc.Errors.{GrpcResult, connection}
use pg_grpc.Endpoint.{validate_endpoint}

pub is_empty_iff : (s : String) → (is_empty s ≡ true) ↔ (s ≡ "")
is_empty_iff String.[] = (λ _. refl, λ _. refl)
is_empty_iff (String.◌∷◌ c s) =
    (λ e. cc, λ e. let r : is_empty (String.◌∷◌ c s) ≡ true = ap is_empty e in r)

-- The answers to an endpoint, by what it holds apart from the white space around it.
pub data Validates (endpoint : String) : GrpcResult String → Type 0 where
  blank : trim endpoint ≡ "" → Validates endpoint (err (connection "endpoint must not be empty"))
  scheme :
      trim endpoint ≢ ""
      → contains_text "://" (trim endpoint) ≡ true
      → Validates endpoint
          (err (connection ("endpoint must not contain scheme (found '://'): " ⧺ trim endpoint)))
  path :
      trim endpoint ≢ ""
      → contains_text "://" (trim endpoint) ≡ false
      → contains_char b'/' endpoint ≡ true
      → Validates endpoint
          (err (connection ("endpoint must not contain path (found '/'): " ⧺ trim endpoint)))
  accepted :
      trim endpoint ≢ ""
      → contains_char b'/' endpoint ≡ false
      → Validates endpoint (ok (trim endpoint))

-- Every endpoint gets the answer that its text calls for: an error for nothing but white space,
-- then one for a scheme, then one for a path, and otherwise the trimmed text.
pub validate_endpoint-Validates :
    (endpoint : String) → Validates endpoint (validate_endpoint endpoint)
unfolding validate_endpoint
validate_endpoint-Validates endpoint = elim (Bool-cases (is_empty (trim endpoint))) [
  | inl none ↦ rw none (blank ((is_empty_iff _).0 none))
  | inr some ↦
      let filled : trim endpoint ≢ "" = λ e. cc (some, (is_empty_iff _).1 e) in
      elim (Bool-cases (contains_text "://" (trim endpoint))) [
        | inl found ↦ rw (some, found) (scheme filled found)
        | inr plain ↦ elim (Bool-cases (contains_char b'/' (trim endpoint))) [
          | inl found ↦
              rw (some, plain, found)
                (path filled plain (sym (contains_slash-trim endpoint) ∙ found))
          | inr clear ↦
              rw (some, plain, clear) (accepted filled (sym (contains_slash-trim endpoint) ∙ clear))
        ]
      ]
]

module _ {endpoint : String} where
  accepts :
      {r : GrpcResult String} (host : String)
      → Validates endpoint r
      → r ≡ ok host
      → (host ≡ trim endpoint) × (trim endpoint ≢ "") × (contains_char b'/' endpoint ≡ false)
  accepts host (blank _) e = cc
  accepts host (scheme _ _) e = cc
  accepts host (path _ _ _) e = cc
  accepts host (accepted filled clear) e = (cc, filled, clear)

  accepts_clear :
      {r : GrpcResult String}
      → Validates endpoint r
      → trim endpoint ≢ ""
      → contains_char b'/' endpoint ≡ false
      → r ≡ ok (trim endpoint)
  accepts_clear (blank empty) filled clear = absurd (filled empty)
  accepts_clear (scheme _ found) filled clear =
      cc (contains_slash-trim endpoint, contains_scheme-contains_char (trim endpoint) found)
  accepts_clear (path _ _ found) filled clear = cc
  accepts_clear (accepted _ _) filled clear = refl

-- An endpoint is accepted exactly if it holds no slash and something besides white space, and then
-- as the text without the white space around it.
validate_endpoint-eq-ok_iff :
    (endpoint host : String)
    → (validate_endpoint endpoint ≡ ok host)
      ↔ ((host ≡ trim endpoint) × (trim endpoint ≢ "") × (contains_char b'/' endpoint ≡ false))
validate_endpoint-eq-ok_iff endpoint host =
    let answer = validate_endpoint-Validates endpoint in
    (accepts host answer, λ (e, filled, clear). accepts_clear answer filled clear ∙ ap ok (sym e))

-- The host that an accepted endpoint gives is accepted again, as it is.
validate_endpoint_idem :
    (endpoint host : String)
    → validate_endpoint endpoint ≡ ok host
    → validate_endpoint host ≡ ok host
validate_endpoint_idem endpoint host h =
    let (e, filled, clear) = (validate_endpoint-eq-ok_iff endpoint host).0 h in
    let again = trim_idem endpoint in
    (validate_endpoint-eq-ok_iff host host).1
      (rw e (sym again, rw again filled, contains_slash-trim endpoint ∙ clear))
