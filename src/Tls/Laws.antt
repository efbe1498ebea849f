-- ===== src/Tls/Laws.antt =====
-- Which values src/tls.rs accepts, and as which settings.
use mathlib.Core.Option
use pg_grpc.Common.{
  ℕ, ◌≡◌, ◌≢◌, ◌↔◌, ◌⊎◌, refl, ◌∙◌, String, true, arith, Option, none, some, List, [], ◌∷◌,
  >>=-eq-ok, ok, All, contains, string_eq,
}
use text.Mathlib.TextEquality.{eq_iff}
use pg_grpc.Text.{trim, into_bytes}
use pg_grpc.Endpoint.Laws.{is_empty_iff}
use pg_grpc.Json.{Value, null, bool, number, string, array, object, entries, get}
use pg_grpc.Tls.{
  TlsConfig, accepted_fields, string_value, parse_string_field, parse_pem_field, check_fields,
  check_pair, parse_object, parse,
}

-- What an entry of the object says of a text setting: nothing if it is missing or null, and
-- otherwise a text that is not blank.
abbrev pub Gives : {N : Type 0} → Option (Value N) → Option String → Type 0
Gives none r = r ≡ none
Gives (some null) r = r ≡ none
Gives (some (string s)) r = (trim s ≢ "") × (r ≡ some s)
Gives (some (bool b)) r = ⊥
Gives (some (number n)) r = ⊥
Gives (some (array vs)) r = ⊥
Gives (some (object fs)) r = ⊥

abbrev pub IsField : String → Type 0
IsField key =
    (key ≡ "ca_cert") ⊎ (key ≡ "client_cert") ⊎ (key ≡ "client_key") ⊎ (key ≡ "domain_name")

IsField_iff : (key : String) → (contains accepted_fields key ≡ true) ↔ IsField key
unfolding contains
IsField_iff key = ground (
  arith,
  eq_iff "ca_cert" key,
  eq_iff "client_cert" key,
  eq_iff "client_key" key,
  eq_iff "domain_name" key,
)

module _ {N : Type 0} where
  -- The settings that an object stands for: it has no key but the four of TLS settings, each of its
  -- entries gives the setting of its name, and a client certificate comes with its key only.
  pub record IsTls (obj : List (String × Value N)) (cfg : TlsConfig) : Type 0 where
    pub known : All (λ e. IsField e.0) obj
    pub ca_text : Option String
    pub cert_text : Option String
    pub key_text : Option String
    pub gives_ca : Gives (get obj "ca_cert") ca_text
    pub gives_cert : Gives (get obj "client_cert") cert_text
    pub gives_key : Gives (get obj "client_key") key_text
    pub gives_domain : Gives (get obj "domain_name") cfg.domain_name
    pub ca : cfg.ca_cert ≡ Option.map into_bytes ca_text
    pub cert : cfg.client_cert ≡ Option.map into_bytes cert_text
    pub key : cfg.client_key ≡ Option.map into_bytes key_text
    pub paired : (cfg.client_cert ≡ none) ↔ (cfg.client_key ≡ none)

  string_value_iff :
      (name : String) (v : Value N) (r : Option String)
      → (string_value name v ≡ ok r) ↔ Gives (some v) r
  unfolding string_value
  string_value_iff name (string s) r = ground (arith, is_empty_iff (trim s))
  string_value_iff name v r = ground arith

  parse_string_field_iff :
      (obj : List (String × Value N)) (name : String) (r : Option String)
      → (parse_string_field obj name ≡ ok r) ↔ Gives (get obj name) r
  unfolding parse_string_field
  parse_string_field_iff obj name r = go (get obj name) refl
    where
      go :
          (o : Option (Value N))
          → get obj name ≡ o
          → (parse_string_field obj name ≡ ok r) ↔ Gives o r
      go none e = rw (e, parse_string_field) (ground arith)
      go (some v) e = rw (e, parse_string_field) (string_value_iff name v r)

  check_fields_iff :
      (obj : List (String × Value N)) → (check_fields obj ≡ ok tt) ↔ All (λ e. IsField e.0) obj
  unfolding check_fields
  check_fields_iff [] = ground arith
  check_fields_iff ((key, v) ∷ obj) = ground (arith, check_fields_iff obj, IsField_iff key)

  parse_pem_field_iff :
      (obj : List (String × Value N)) (name : String) (r : Option (List ℕ))
      → (parse_pem_field obj name ≡ ok r)
        ↔ ((t : Option String) × Gives (get obj name) t × (r ≡ Option.map into_bytes t))
  unfolding parse_pem_field
  parse_pem_field_iff obj name r = (sound, complete)
    where
      sound :
          parse_pem_field obj name ≡ ok r
          → (t : Option String) × Gives (get obj name) t × (r ≡ Option.map into_bytes t)
      sound h =
          let (t, e, same) = >>=-eq-ok (parse_string_field obj name) _ h in
          (t, (parse_string_field_iff obj name t).0 e, cc)

      complete :
          (t : Option String) × Gives (get obj name) t × (r ≡ Option.map into_bytes t)
          → parse_pem_field obj name ≡ ok r
      complete (t, g, e) = rw ((parse_string_field_iff obj name t).1 g, e)

check_pair_iff :
    (cert key : Option (List ℕ)) → (check_pair cert key ≡ ok tt) ↔ ((cert ≡ none) ↔ (key ≡ none))
unfolding check_pair
check_pair_iff cert key = ground arith

module _ {N : Type 0} (obj : List (String × Value N)) (cfg : TlsConfig) where
  parse_object_sound : parse_object obj ≡ ok cfg → IsTls obj cfg
  unfolding parse_object
  parse_object_sound h =
      let (u, known, h1) = >>=-eq-ok (check_fields obj) _ h in
      let (ca, e1, h2) = >>=-eq-ok (parse_pem_field obj "ca_cert") _ h1 in
      let (cert, e2, h3) = >>=-eq-ok (parse_pem_field obj "client_cert") _ h2 in
      let (key, e3, h4) = >>=-eq-ok (parse_pem_field obj "client_key") _ h3 in
      let (domain, e4, h5) = >>=-eq-ok (parse_string_field obj "domain_name") _ h4 in
      let (v, pair, same) = >>=-eq-ok (check_pair cert key) _ h5 in
      let (t1, g1, b1) = (parse_pem_field_iff obj "ca_cert" ca).0 e1 in
      let (t2, g2, b2) = (parse_pem_field_iff obj "client_cert" cert).0 e2 in
      let (t3, g3, b3) = (parse_pem_field_iff obj "client_key" key).0 e3 in
      let same_ca : cfg.ca_cert ≡ ca = ground arith in
      let same_cert : cfg.client_cert ≡ cert = ground arith in
      let same_key : cfg.client_key ≡ key = ground arith in
      let same_domain : cfg.domain_name ≡ domain = ground arith in
      record {
        known = (check_fields_iff obj).0 known;
        ca_text = t1;
        cert_text = t2;
        key_text = t3;
        gives_ca = g1;
        gives_cert = g2;
        gives_key = g3;
        gives_domain = rw same_domain ((parse_string_field_iff obj "domain_name" domain).0 e4);
        ca = same_ca ∙ b1;
        cert = same_cert ∙ b2;
        key = same_key ∙ b3;
        paired = rw (same_cert, same_key) ((check_pair_iff cert key).0 pair);
      }

  parse_object_complete : IsTls obj cfg → parse_object obj ≡ ok cfg
  unfolding parse_object
  parse_object_complete t = rw (
    (check_fields_iff obj).1 t.known,
    (parse_pem_field_iff obj "ca_cert" _).1 (t.ca_text, t.gives_ca, t.ca),
    (parse_pem_field_iff obj "client_cert" _).1 (t.cert_text, t.gives_cert, t.cert),
    (parse_pem_field_iff obj "client_key" _).1 (t.key_text, t.gives_key, t.key),
    (parse_string_field_iff obj "domain_name" _).1 t.gives_domain,
    (check_pair_iff _ _).1 t.paired,
  )

  pub parse_object_iff : (parse_object obj ≡ ok cfg) ↔ IsTls obj cfg
  parse_object_iff = (parse_object_sound, parse_object_complete)

abbrev pub IsTlsValue : {N : Type 0} → Value N → TlsConfig → Type 0
IsTlsValue (object fs) cfg = IsTls (entries fs) cfg
IsTlsValue null cfg = ⊥
IsTlsValue (bool b) cfg = ⊥
IsTlsValue (number n) cfg = ⊥
IsTlsValue (string s) cfg = ⊥
IsTlsValue (array vs) cfg = ⊥

-- A value is accepted exactly as the settings that it stands for: an object with no key but the
-- four, whose entries are missing, null or texts that are not blank, with a client certificate
-- and its key given together or not at all.
pub parse_tls_iff :
    {N : Type 0} (v : Value N) (cfg : TlsConfig) → (parse v ≡ ok cfg) ↔ IsTlsValue v cfg
unfolding parse
parse_tls_iff (object fs) cfg = parse_object_iff (entries fs) cfg
parse_tls_iff v cfg = (λ e. cc, λ h. absurd h)
