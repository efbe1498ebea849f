-- ===== src/Text.antt =====
-- The methods of Rust's `str` that the program calls: `trim`, `is_empty`, `contains`,
-- `rsplit_once`, `into_bytes`, `join`, and `Display` of an integer. A text is a `String`, walked
-- over its code points.
pub mod Trim
pub mod Split
mod Tests
use pg_grpc.Common.{
  ℕ, zero, suc, ◌+◌, ◌++◌, ◌/◌, ◌%◌, Char, code, String, Bool, true, false, ◌||◌, ◌&&◌, Option,
  none, some, List, [], ◌∷◌, ltb, leb, nat_beq, if◌then◌else◌, ℤ, pos, negsuc,
}
use Prim.Native.String

infixr 65 ◌⧺◌
-- Concatenation of texts.
abbrev pub ◌⧺◌ : String → String → String
s ⧺ t = String.◌++◌ s t

-- Unicode's White_Space property.
unfoldable pub is_whitespace : Char → Bool
is_whitespace c =
    (leb 0x09 (code c) && leb (code c) 0x0d)
    || nat_beq (code c) 0x20
    || nat_beq (code c) 0x85
    || nat_beq (code c) 0xa0
    || nat_beq (code c) 0x1680
    || (leb 0x2000 (code c) && leb (code c) 0x200a)
    || nat_beq (code c) 0x2028
    || nat_beq (code c) 0x2029
    || nat_beq (code c) 0x202f
    || nat_beq (code c) 0x205f
    || nat_beq (code c) 0x3000

unfoldable pub trim_start : String → String
trim_start String.[] = String.[]
trim_start (String.◌∷◌ c s) =
    let rest = trim_start s in if is_whitespace c then rest else String.◌∷◌ c s

-- What `trim_end` keeps of a text, from its first character and what it keeps of the others.
unfoldable pub keep_end : Char → String → String
keep_end c String.[] = if is_whitespace c then String.[] else String.◌∷◌ c String.[]
keep_end c (String.◌∷◌ d s) = String.◌∷◌ c (String.◌∷◌ d s)

unfoldable pub trim_end : String → String
unfolding keep_end
trim_end String.[] = String.[]
trim_end (String.◌∷◌ c s) = keep_end c (trim_end s)

unfoldable pub trim : String → String
unfolding trim_start trim_end is_whitespace
trim s = trim_end (trim_start s)

abbrev pub is_empty : String → Bool
is_empty String.[] = true
is_empty (String.◌∷◌ c s) = false

unfoldable pub contains_char : ℕ → String → Bool
contains_char sep String.[] = false
contains_char sep (String.◌∷◌ c s) = nat_beq (code c) sep || contains_char sep s

unfoldable pub starts_with : String → String → Bool
starts_with String.[] s = true
starts_with (String.◌∷◌ p pat) String.[] = false
starts_with (String.◌∷◌ p pat) (String.◌∷◌ c s) = nat_beq (code p) (code c) && starts_with pat s

unfoldable pub contains_text : String → String → Bool
unfolding starts_with
contains_text pat String.[] = starts_with pat String.[]
contains_text pat (String.◌∷◌ c s) = starts_with pat (String.◌∷◌ c s) || contains_text pat s

-- The part before and the part after the last `sep`, one character further to the left.
abbrev pub split_cons : ℕ → Char → String → Option (String × String) → Option (String × String)
split_cons sep c s (some (before, after)) = some (String.◌∷◌ c before, after)
split_cons sep c s none = if nat_beq (code c) sep then some (String.[], s) else none

-- `rsplit_once`: split at the last occurrence of a character.
unfoldable pub rsplit_once : ℕ → String → Option (String × String)
rsplit_once sep String.[] = none
rsplit_once sep (String.◌∷◌ c s) = split_cons sep c s (rsplit_once sep s)

unfoldable pub join : String → List String → String
join sep [] = ""
join sep (s ∷ []) = s
join sep (s ∷ t ∷ ts) = s ⧺ sep ⧺ join sep (t ∷ ts)

-- A decimal digit; the caller passes a number below ten.
unfoldable pub digit : ℕ → Char
digit n =
    if nat_beq n 0
    then "0"
    else if nat_beq n 1
    then "1"
    else if nat_beq n 2
    then "2"
    else if nat_beq n 3
    then "3"
    else if nat_beq n 4
    then "4"
    else if nat_beq n 5
    then "5"
    else if nat_beq n 6
    then "6"
    else if nat_beq n 7
    then "7"
    else if nat_beq n 8
    then "8"
    else "9"

-- The digits of `n` before `acc`. A number has fewer digits than its value plus one.
unfoldable pub display_from : ℕ → ℕ → String → String
unfolding digit
display_from zero n acc = acc
display_from (suc fuel) n acc =
    let rest = display_from fuel (n / 10) (String.◌∷◌ (digit (n % 10)) acc) in
    if ltb n 10 then String.◌∷◌ (digit n) acc else rest

-- `format!("{n}")`.
unfoldable pub display : ℕ → String
unfolding display_from
display n = display_from (suc n) n ""

unfoldable pub display_int : ℤ → String
unfolding display
display_int (pos n) = display n
display_int (negsuc n) = "-" ⧺ display (suc n)

-- The UTF-8 encoding of a code point.
unfoldable pub utf8 : ℕ → List ℕ
utf8 n =
    if ltb n 0x80
    then n ∷ []
    else if ltb n 0x800
    then (0xc0 + n / 0x40) ∷ (0x80 + n % 0x40) ∷ []
    else if ltb n 0x10000
    then (0xe0 + n / 0x1000) ∷ (0x80 + n / 0x40 % 0x40) ∷ (0x80 + n % 0x40) ∷ []
    else (0xf0 + n / 0x40000)
      ∷ (0x80 + n / 0x1000 % 0x40)
      ∷ (0x80 + n / 0x40 % 0x40)
      ∷ (0x80 + n % 0x40)
      ∷ []

-- `String::into_bytes`.
unfoldable pub into_bytes : String → List ℕ
unfolding utf8
into_bytes String.[] = []
into_bytes (String.◌∷◌ c s) = utf8 (code c) ++ into_bytes s
