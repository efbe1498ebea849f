-- ===== src/Text/Trim.antt =====
-- `trim`: it is idempotent, and loses white space only.
use pg_grpc.Common.{
  ℕ, ◌≡◌, refl, ap, ◌∙◌, inl, inr, Char, code, String, true, false, ◌||◌, Bool-cases, nat_beq,
  nat_beq_iff,
}
use Prim.Native.String.{[], ◌∷◌}
use pg_grpc.Text.{is_whitespace, trim_start, keep_end, trim_end, trim, contains_char}

-- Nothing, or a first character that is no white space.
abbrev StartsSolid : String → Type 0
StartsSolid [] = Unit
StartsSolid (c ∷ s) = is_whitespace c ≡ false

trim_start-StartsSolid : (s : String) → StartsSolid (trim_start s)
unfolding trim_start
trim_start-StartsSolid [] = tt
trim_start-StartsSolid (c ∷ s) = elim (Bool-cases (is_whitespace c)) [
  | inl white ↦ rw white (trim_start-StartsSolid s)
  | inr solid ↦ rw solid solid
]

trim_start_of_StartsSolid : (s : String) → StartsSolid s → trim_start s ≡ s
unfolding trim_start
trim_start_of_StartsSolid [] h = refl
trim_start_of_StartsSolid (c ∷ s) h = rw h

keep_end-StartsSolid :
    (c : Char) (t : String) → is_whitespace c ≡ false → StartsSolid (keep_end c t)
unfolding keep_end
keep_end-StartsSolid c [] h = rw h h
keep_end-StartsSolid c (d ∷ t) h = h

trim_end-StartsSolid : (s : String) → StartsSolid s → StartsSolid (trim_end s)
unfolding trim_end
trim_end-StartsSolid [] h = tt
trim_end-StartsSolid (c ∷ s) h = keep_end-StartsSolid c (trim_end s) h

trim_end-keep_end :
    (c : Char) (t : String) → trim_end t ≡ t → trim_end (keep_end c t) ≡ keep_end c t
unfolding trim_end
trim_end-keep_end c [] h = elim (Bool-cases (is_whitespace c)) [
  | inl white ↦ rw white
  | inr solid ↦ rw solid (rw solid)
]
trim_end-keep_end c (d ∷ t) h = ap (keep_end c) h

trim_end_idem : (s : String) → trim_end (trim_end s) ≡ trim_end s
unfolding trim_end
trim_end_idem [] = refl
trim_end_idem (c ∷ s) = trim_end-keep_end c (trim_end s) (trim_end_idem s)

pub trim_idem : (s : String) → trim (trim s) ≡ trim s
unfolding trim
trim_idem s =
    ap trim_end (trim_start_of_StartsSolid _ (trim_end-StartsSolid _ (trim_start-StartsSolid s)))
    ∙ trim_end_idem (trim_start s)

-- A character that is no white space stands in the trimmed text exactly if it stands in the text.
module _ (sep : ℕ) (solid : (c : Char) → code c ≡ sep → is_whitespace c ≡ false) where
  not_sep_of_white : (c : Char) → is_whitespace c ≡ true → nat_beq (code c) sep ≡ false
  not_sep_of_white c white = elim (Bool-cases (nat_beq (code c) sep)) [
    | inl same ↦ cc (solid c ((nat_beq_iff (code c) sep).0 same), white)
    | inr other ↦ other
  ]

  contains_char-trim_start : (s : String) → contains_char sep (trim_start s) ≡ contains_char sep s
  unfolding trim_start contains_char
  contains_char-trim_start [] = refl
  contains_char-trim_start (c ∷ s) = elim (Bool-cases (is_whitespace c)) [
    | inl white ↦ rw (white, not_sep_of_white c white) (contains_char-trim_start s)
    | inr other ↦ rw other
  ]

  contains_char-keep_end :
      (c : Char) (t : String) → contains_char sep (keep_end c t) ≡ contains_char sep (c ∷ t)
  unfolding keep_end contains_char
  contains_char-keep_end c [] = elim (Bool-cases (is_whitespace c)) [
    | inl white ↦ rw (white, not_sep_of_white c white)
    | inr other ↦ rw other
  ]
  contains_char-keep_end c (d ∷ t) = refl

  contains_char-trim_end : (s : String) → contains_char sep (trim_end s) ≡ contains_char sep s
  unfolding trim_end contains_char
  contains_char-trim_end [] = refl
  contains_char-trim_end (c ∷ s) =
      contains_char-keep_end c (trim_end s)
      ∙ ap (λ b. nat_beq (code c) sep || b) (contains_char-trim_end s)

  pub contains_char-trim : (s : String) → contains_char sep (trim s) ≡ contains_char sep s
  unfolding trim
  contains_char-trim s = contains_char-trim_end (trim_start s) ∙ contains_char-trim_start s

slash_solid : (c : Char) → code c ≡ b'/' → is_whitespace c ≡ false
unfolding is_whitespace
slash_solid c e = rw e

pub contains_slash-trim : (s : String) → contains_char b'/' (trim s) ≡ contains_char b'/' s
contains_slash-trim = contains_char-trim b'/' slash_solid
