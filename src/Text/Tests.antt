-- ===== src/Text/Tests.antt =====
-- Runs of the text functions.
use pg_grpc.Common.{◌≡◌, refl, some, negsuc}
use pg_grpc.Text.{trim, rsplit_once, contains_text, display, display_int, join}
use pg_grpc.Common.{true, [], ◌∷◌}

trim_both : trim "  a b\n" ≡ "a b"
unfolding trim
trim_both = refl

rsplit_last : rsplit_once b'/' "a/b/c" ≡ some ("a/b", "c")
unfolding rsplit_once
rsplit_last = refl

scheme_found : contains_text "://" "http://x" ≡ true
unfolding contains_text
scheme_found = refl

display_max : display 4294967295 ≡ "4294967295"
unfolding display
display_max = refl

display_negative : display_int (negsuc 11) ≡ "-12"
unfolding display_int
display_negative = refl

join_three : join ", " ("a" ∷ "b" ∷ "c" ∷ []) ≡ "a, b, c"
unfolding join
join_three = refl
