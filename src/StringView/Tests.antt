-- ===== src/StringView/Tests.antt =====
-- Runs of the view functions, and the theorems about them at concrete texts.
use ceasy.Prelude.{
  ℕ, ◌<◌, ◌≤◌, ◌≡◌, ◌↔◌, refl, none, some, List, ◌∷◌, arith, length, codes, size_max,
}
use ceasy.Prelude.Int.{pos, neg}
use Prim.Native.Nat.{◌^◌, ◌-◌, Ordering}
use ceasy.StringView.{
  view, compare_views, find, split_once_char, slice, find_char, from, trim, trim_left, trim_right,
  trimmed_length,
}
use ceasy.StringView.Bytes.{same, ascii_space, skip_spaces}
use ceasy.StringView.Search.{FindsFirst, find-FindsFirst}
use ceasy.StringView.Trim.{Trims, trim-Trims}
use ceasy.StringView.Order.{lexicographic, flip, compare_views_lem}
use ceasy.StringView.Parse.{parse_size, parse_int64, parse_unsigned}
use ceasy.StringView.Parse.Decimal.{Digits, decimal, within, parse_size_iff, parse_int64_lem}

split_once_char_runs :
    split_once_char (view (codes "id=7=8")) b'=' ≡ some (view (codes "id"), view (codes "7=8"))
unfolding split_once_char find_char slice from
split_once_char_runs = refl

find_runs : find (view (codes "a\r\n\r\nb")) (view (codes "\r\n")) ≡ some 1
unfolding find same
find_runs = refl

trim_runs : trim (view (codes " \t ok go \n")) ≡ view (codes "ok go")
unfolding trim trim_left trim_right skip_spaces ascii_space from slice trimmed_length
trim_runs = refl

parse_size_runs :
    (parse_size (view (codes "0018446744073709551615")) ≡ some size_max)
    × (parse_size (view (codes "18446744073709551616")) ≡ none)
    × (parse_size (view (codes "-1")) ≡ none)
unfolding parse_size parse_unsigned
parse_size_runs = (refl, refl, refl)

find-FindsFirst_example :
    FindsFirst (codes "aXbX") (codes "X") (find (view (codes "aXbX")) (view (codes "X")))
find-FindsFirst_example = find-FindsFirst (codes "aXbX") (codes "X")

trim-Trims_example : (start : ℕ) × (len : ℕ) × Trims (codes " ok ") start len
trim-Trims_example = trim-Trims (codes " ok ")

compare_views_lem_example :
    (compare_views (view (codes "ab")) (view (codes "abc"))
      ≡ lexicographic (codes "ab") (codes "abc"))
    × (compare_views (view (codes "abc")) (view (codes "ab"))
        ≡ flip (compare_views (view (codes "ab")) (view (codes "abc"))))
    × (compare_views (view (codes "ab")) (view (codes "abc")) ≡ Ordering.eq
        → codes "ab" ≡ codes "abc")
compare_views_lem_example = compare_views_lem (codes "ab") (codes "abc")

parse_size_iff_example : (parse_size (view (codes "42")) ≡ some 42) ↔ (
    (0 < length (codes "42"))
    × Digits (codes "42")
    × (42 ≡ decimal 0 (codes "42"))
    × (42 ≤ size_max))
parse_size_iff_example = parse_size_iff (codes "42") 42

abbrev lowest : List ℕ
lowest = codes "9223372036854775808"

parse_int64_lem_example :
    (parse_int64 (view (b'-' ∷ lowest)) ≡ within neg (2 ^ 63) (decimal 0 lowest))
    × (parse_int64 (view (b'+' ∷ lowest)) ≡ within pos (2 ^ 63 - 1) (decimal 0 lowest))
    × (parse_int64 (view lowest) ≡ within pos (2 ^ 63 - 1) (decimal 0 lowest))
parse_int64_lem_example = parse_int64_lem lowest (omega arith) (omega arith)
