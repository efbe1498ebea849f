-- ===== src/Call/Metadata/Headers.antt =====
-- The headers that `apply_metadata` of src/call.rs is to add, described by themselves: the lower case
-- of a key, the items of a value, and their texts; and that the code's helpers agree.
use text.Mathlib.TextEquality.{Char-path}
use pg_grpc.Common.{
  ℕ, zero, suc, ◌+◌, ◌-◌, ◌≤◌, ◌<◌, ◌≡◌, ◌≢◌, ◌⊎◌, inl, inr, refl, sym, ap, ap₂, ◌∙◌, Char, code,
  String, Bool, true, ◌&&◌, Option, none, some, List, [], ◌∷◌, arith, nat_beq, Bool-cases, leb,
}
use pg_grpc.Json.{Numbers, Value, Items, null, bool, number, string, array, object, items}
use pg_grpc.Call.Metadata.{
  MetadataCodec, char_at, lower_char, to_ascii_lowercase, item_text, value_items,
}

-- A text and its ASCII lower case: the codes from A to Z go up by 32, others stay.
pub data Lowercase : String → String → Type 0 where
  done : Lowercase String.[] String.[]
  upper :
      (c d : Char) (s t : String)
      → 65 ≤ code c
      → code c ≤ 90
      → code d ≡ code c + 32
      → Lowercase s t
      → Lowercase (String.◌∷◌ c s) (String.◌∷◌ d t)
  other :
      (c : Char) (s t : String)
      → (code c < 65) ⊎ (90 < code c)
      → Lowercase s t
      → Lowercase (String.◌∷◌ c s) (String.◌∷◌ c t)

-- The codes of a text are those from a number on.
abbrev consecutive : String → ℕ → Bool
consecutive String.[] k = true
consecutive (String.◌∷◌ c s) k = nat_beq (code c) k && consecutive s (suc k)

abbrev size : String → ℕ
size String.[] = 0
size (String.◌∷◌ c s) = suc (size s)

char_at-code :
    (s : String) (k n : ℕ) (o : Char)
    → consecutive s k ≡ true
    → n < size s
    → code (char_at s n o) ≡ k + n
unfolding char_at
char_at-code String.[] k n o h lt = absurd (omega arith)
char_at-code (String.◌∷◌ c s) k zero o h lt = ground arith
char_at-code (String.◌∷◌ c s) k (suc n) o h lt =
    let later : consecutive s (suc k) ≡ true = ground arith in
    let found = char_at-code s (suc k) n o later (omega arith) in omega arith

lower_char-upper : (c : Char) → 65 ≤ code c → code c ≤ 90 → code (lower_char c) ≡ code c + 32
unfolding lower_char
lower_char-upper c lo hi =
    let letter = char_at-code "abcdefghijklmnopqrstuvwxyz" 97 (code c - 65) c refl (omega arith) in
    ground arith

lower_char-other : (c : Char) → (code c < 65) ⊎ (90 < code c) → lower_char c ≡ c
unfolding lower_char
lower_char-other c h = ground arith

char_cases : (c : Char) → ((65 ≤ code c) × (code c ≤ 90)) ⊎ ((code c < 65) ⊎ (90 < code c))
char_cases c = elim (Bool-cases (leb 65 (code c) && leb (code c) 90)) [
  | inl h ↦ inl (ground arith, ground arith)
  | inr h ↦ inr (elim (Bool-cases (leb 65 (code c))) [
    | inl lo ↦ inr (ground arith)
    | inr lo ↦ inl (ground arith)
  ])
]

pub to_ascii_lowercase-Lowercase : (s : String) → Lowercase s (to_ascii_lowercase s)
unfolding to_ascii_lowercase
to_ascii_lowercase-Lowercase String.[] = done
to_ascii_lowercase-Lowercase (String.◌∷◌ c s) = elim (char_cases c) [
  | inl (lo, hi) ↦
      upper c (lower_char c) s _ lo hi (lower_char-upper c lo hi) (to_ascii_lowercase-Lowercase s)
  | inr h ↦ rw (lower_char-other c h) (other c s _ h (to_ascii_lowercase-Lowercase s))
]

pub Lowercase-eq : (s t : String) → Lowercase s t → t ≡ to_ascii_lowercase s
unfolding to_ascii_lowercase
Lowercase-eq s t done = refl
Lowercase-eq s t (upper c d s1 t1 lo hi e rest) =
    ap₂ String.◌∷◌ (Char-path d (lower_char c) (e ∙ sym (lower_char-upper c lo hi)))
      (Lowercase-eq s1 t1 rest)
Lowercase-eq s t (other c s1 t1 h rest) =
    ap₂ String.◌∷◌ (sym (lower_char-other c h)) (Lowercase-eq s1 t1 rest)

module _ (ns : Numbers) where
  -- The items of a value: those of an array, or the value itself.
  pub data ItemsOf : Value ns.N → List (Value ns.N) → Type 0 where
    of_array : (vs : Items ns.N) → ItemsOf (array vs) (items vs)
    alone : (v : Value ns.N) → ((vs : Items ns.N) → v ≢ array vs) → ItemsOf v (v ∷ [])

  -- The texts of items: none for null, a string's own, and otherwise the printed value.
  pub data Texts : List (Value ns.N) → List String → Type 0 where
    no_items : Texts [] []
    null_item : (vs : List (Value ns.N)) (ss : List String) → Texts vs ss → Texts (null ∷ vs) ss
    string_item :
        (s : String) (vs : List (Value ns.N)) (ss : List String)
        → Texts vs ss
        → Texts (string s ∷ vs) (s ∷ ss)
    printed_item :
        (v : Value ns.N) (vs : List (Value ns.N)) (ss : List String)
        → v ≢ null
        → ((s : String) → v ≢ string s)
        → Texts vs ss
        → Texts (v ∷ vs) (ns.value_to_string v ∷ ss)

module _ (ns : Numbers) (tonic : MetadataCodec) where
  abbrev pub kept : Option String → List String → List String
  kept none ss = ss
  kept (some s) ss = s ∷ ss

  -- The texts that the code finds, those that are null left out.
  unfoldable pub texts : List (Value ns.N) → List String
  texts [] = []
  texts (v ∷ vs) = kept (item_text ns tonic v) (texts vs)

  pub value_items-ItemsOf : (v : Value ns.N) → ItemsOf ns v (value_items ns tonic v)
  unfolding value_items
  value_items-ItemsOf (array vs) = of_array vs
  value_items-ItemsOf null = alone null (λ vs p. cc)
  value_items-ItemsOf (string s) = alone (string s) (λ vs p. cc)
  value_items-ItemsOf (bool b) = alone (bool b) (λ vs p. cc)
  value_items-ItemsOf (number n) = alone (number n) (λ vs p. cc)
  value_items-ItemsOf (object fs) = alone (object fs) (λ vs p. cc)

  value_items-alone :
      (v : Value ns.N) → ((vs : Items ns.N) → v ≢ array vs) → v ∷ [] ≡ value_items ns tonic v
  unfolding value_items
  value_items-alone (array vs) h = absurd (h vs refl)
  value_items-alone null h = refl
  value_items-alone (string s) h = refl
  value_items-alone (bool b) h = refl
  value_items-alone (number n) h = refl
  value_items-alone (object fs) h = refl

  pub ItemsOf-eq :
      (v : Value ns.N) (vs : List (Value ns.N)) → ItemsOf ns v vs → vs ≡ value_items ns tonic v
  unfolding value_items
  ItemsOf-eq v vs (of_array l) = refl
  ItemsOf-eq v vs (alone w h) = value_items-alone w h

  pub texts-Texts : (vs : List (Value ns.N)) → Texts ns vs (texts vs)
  unfolding texts item_text
  texts-Texts [] = no_items
  texts-Texts (null ∷ vs) = null_item vs _ (texts-Texts vs)
  texts-Texts (string s ∷ vs) = string_item s vs _ (texts-Texts vs)
  texts-Texts (bool b ∷ vs) = printed_item (bool b) vs _ (λ p. cc) (λ s p. cc) (texts-Texts vs)
  texts-Texts (number n ∷ vs) = printed_item (number n) vs _ (λ p. cc) (λ s p. cc) (texts-Texts vs)
  texts-Texts (array l ∷ vs) = printed_item (array l) vs _ (λ p. cc) (λ s p. cc) (texts-Texts vs)
  texts-Texts (object fs ∷ vs) =
      printed_item (object fs) vs _ (λ p. cc) (λ s p. cc) (texts-Texts vs)

  item_text-null : item_text ns tonic null ≡ none
  unfolding item_text
  item_text-null = refl

  item_text-string : (s : String) → item_text ns tonic (string s) ≡ some s
  unfolding item_text
  item_text-string s = refl

  item_text-printed :
      (v : Value ns.N)
      → v ≢ null
      → ((s : String) → v ≢ string s)
      → item_text ns tonic v ≡ some (ns.value_to_string v)
  unfolding item_text
  item_text-printed null h g = absurd (h refl)
  item_text-printed (string s) h g = absurd (g s refl)
  item_text-printed (bool b) h g = refl
  item_text-printed (number n) h g = refl
  item_text-printed (array vs) h g = refl
  item_text-printed (object fs) h g = refl

  pub Texts-eq : (vs : List (Value ns.N)) (ss : List String) → Texts ns vs ss → ss ≡ texts vs
  unfolding texts
  Texts-eq vs ss no_items = refl
  Texts-eq vs ss (null_item l t rest) = rw item_text-null (Texts-eq l t rest)
  Texts-eq vs ss (string_item s l t rest) =
      rw (item_text-string s) (ap (λ x. s ∷ x) (Texts-eq l t rest))
  Texts-eq vs ss (printed_item v l t h g rest) =
      rw (item_text-printed v h g) (ap (λ x. ns.value_to_string v ∷ x) (Texts-eq l t rest))
