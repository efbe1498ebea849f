-- ===== src/Text/Split.antt =====
-- `rsplit_once` and `contains`.
use Prim.Native.String.{[], ◌∷◌}
use text.Mathlib.TextEquality.{Char-path}
use text.Mathlib.TextLemmas.{nil-append, cons-append}
use pg_grpc.Common.{
  ℕ, ◌≡◌, refl, sym, ap, ◌∙◌, inl, inr, Char, code, String, true, false, ◌||◌, arith, Bool-cases,
  nat_beq, nat_beq_iff, Option, none, some,
}
use pg_grpc.Text.{◌⧺◌, contains_char, rsplit_once, split_cons, contains_text, starts_with}

pub contains_char-append :
    (sep : ℕ) (a b : String)
    → contains_char sep (a ⧺ b) ≡ (contains_char sep a || contains_char sep b)
unfolding contains_char
contains_char-append sep [] b = rw nil-append
contains_char-append sep (c ∷ a) b = rw cons-append (ground (arith, contains_char-append sep a b))

pub rsplit_once-none :
    (sep : ℕ) (s : String) → contains_char sep s ≡ false → rsplit_once sep s ≡ none
unfolding contains_char rsplit_once
rsplit_once-none sep [] h = refl
rsplit_once-none sep (c ∷ s) h =
    let later : contains_char sep s ≡ false = ground arith in
    let here : nat_beq (code c) sep ≡ false = ground arith in
    rw (rsplit_once-none sep s later, here)

-- What stands before and after a separator that does not occur again.
pub rsplit_once-append :
    (sep : ℕ) (a : String) (c : Char) (b : String)
    → code c ≡ sep
    → contains_char sep b ≡ false
    → rsplit_once sep (a ⧺ (c ∷ b)) ≡ some (a, b)
unfolding rsplit_once
rsplit_once-append sep [] c b e h =
    rw (nil-append, rsplit_once-none sep b h, (nat_beq_iff (code c) sep).1 e)
rsplit_once-append sep (d ∷ a) c b e h = rw (cons-append, rsplit_once-append sep a c b e h)

abbrev pub SplitsAt : ℕ → String → Option (String × String) → Type 0
SplitsAt sep s none = contains_char sep s ≡ false
SplitsAt sep s (some (a, b)) =
    (c : Char) × (code c ≡ sep) × (s ≡ a ⧺ (c ∷ b)) × (contains_char sep b ≡ false)

split_cons-SplitsAt :
    (sep : ℕ) (c : Char) (s : String) (r : Option (String × String))
    → SplitsAt sep s r
    → SplitsAt sep (c ∷ s) (split_cons sep c s r)
unfolding contains_char
split_cons-SplitsAt sep c s none h = elim (Bool-cases (nat_beq (code c) sep)) [
  | inl same ↦ rw same (c, (nat_beq_iff _ _).0 same, sym (nil-append _), h)
  | inr other ↦ rw other (rw other h)
]
split_cons-SplitsAt sep c s (some (a, b)) (d, e, whole, clear) =
    (d, e, ap (λ t. c ∷ t) whole ∙ sym (cons-append c a (d ∷ b)), clear)

-- A result of `rsplit_once` is the split at the last separator, and `none` means that there is none.
pub rsplit_once-SplitsAt : (sep : ℕ) (s : String) → SplitsAt sep s (rsplit_once sep s)
unfolding rsplit_once contains_char
rsplit_once-SplitsAt sep [] = refl
rsplit_once-SplitsAt sep (c ∷ s) =
    split_cons-SplitsAt sep c s (rsplit_once sep s) (rsplit_once-SplitsAt sep s)

pub slash_cons : (b : String) → "/" ⧺ b ≡ "/" ∷ b
slash_cons b = cons-append "/" [] b ∙ ap (λ t. "/" ∷ t) (nil-append b)

pub is_slash : (c : Char) → code c ≡ b'/' → c ≡ "/"
is_slash c e = Char-path c "/" e

-- "://" holds a slash.
starts_scheme-contains_char :
    (s : String) → starts_with "://" s ≡ true → contains_char b'/' s ≡ true
unfolding starts_with contains_char
starts_scheme-contains_char [] h = cc
starts_scheme-contains_char (c ∷ []) h = ground arith
starts_scheme-contains_char (c ∷ d ∷ s) h = ground arith

pub contains_scheme-contains_char :
    (s : String) → contains_text "://" s ≡ true → contains_char b'/' s ≡ true
unfolding contains_text contains_char
contains_scheme-contains_char [] h = cc
contains_scheme-contains_char (c ∷ s) h = elim (Bool-cases (starts_with "://" (c ∷ s))) [
  | inl here ↦ starts_scheme-contains_char (c ∷ s) here
  | inr later ↦ ground (arith, contains_scheme-contains_char s)
]
