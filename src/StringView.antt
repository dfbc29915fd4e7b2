-- ===== src/StringView.antt =====
-- src/string/string.c, the functions on `StringView`.
-- A view is a non-NULL pointer with the bytes that it covers, or a NULL pointer with a length:
-- `bytes_of v` are the bytes `[data, data + length)`, and `null 0` is `(StringView){0}`.
-- Bytes are `unsigned char` values. An `index` or `left`/`right` that is written through a pointer
-- on success is the value of an option; callers pass such a pointer, never NULL.
pub mod Bytes
pub mod Text
pub mod Search
pub mod Trim
pub mod Order
pub mod Parse
mod Tests
use Bytes.{same, memcmp, skip_spaces, ascii_space}
use Bytes.{same_ignore_case}
use ceasy.Prelude.{
  ℕ, zero, suc, ◌+◌, ◌-◌, ◌*◌, ◌%◌, ◌^◌, Bool, true, false, not, ◌&&◌, ◌||◌, Option, none, some,
  List, [], ◌∷◌, ltb, leb, ◌==◌, if◌then◌else◌, length, get_elem?, take, drop,
}
use Prim.Native.Nat.{bit_xor, Ordering}

pub data StringView : Type 0 where
  null : ℕ → StringView
  view : List ℕ → StringView

abbrev pub size : StringView → ℕ
size (null n) = n
size (view bs) = length bs

abbrev pub bytes_of : StringView → List ℕ
bytes_of (null n) = []
bytes_of (view bs) = bs

abbrev pub zeroed : StringView
zeroed = null 0

-- stringv_valid
abbrev pub valid : StringView → Bool
valid (null n) = n == 0
valid (view bs) = true

-- stringv_from_cstr; `none` is NULL, and a C string is its bytes before the NUL.
unfoldable pub from_cstr : Option (List ℕ) → StringView
from_cstr none = zeroed
from_cstr (some bs) = view bs

unfoldable pub equal : StringView → StringView → Bool
equal a b =
    if not (valid a) || not (valid b) || not (size a == size b)
    then false
    else size a == 0 || same (bytes_of a) (bytes_of b)

unfoldable pub equal_ignore_case : StringView → StringView → Bool
equal_ignore_case a b =
    if not (valid a) || not (valid b) || not (size a == size b)
    then false
    else same_ignore_case (bytes_of a) (bytes_of b)

-- The result of stringv_compare when a view is invalid.
order_of_invalid : Bool → Bool → Ordering
order_of_invalid true false = Ordering.lt
order_of_invalid false true = Ordering.gt
order_of_invalid _ _ = Ordering.eq

-- The result of stringv_compare from the sign of `memcmp` and the two lengths.
order_then_size : Ordering → ℕ → ℕ → Ordering
order_then_size Ordering.lt n m = Ordering.lt
order_then_size Ordering.gt n m = Ordering.gt
order_then_size Ordering.eq n m =
    if n == m then Ordering.eq else if ltb n m then Ordering.lt else Ordering.gt

-- stringv_compare: `lt`, `eq`, `gt` are -1, 0, 1.
unfoldable pub compare_views : StringView → StringView → Ordering
unfolding order_of_invalid order_then_size
compare_views a b =
    let common = (if ltb (size a) (size b) then size a else size b) in
    if not (valid a) || not (valid b)
    then order_of_invalid (valid a) (valid b)
    else order_then_size (memcmp (take common (bytes_of a)) (take common (bytes_of b))) (size a)
        (size b)

unfoldable pub starts_with : StringView → StringView → Bool
starts_with value prefix =
    if not (valid value) || not (valid prefix) || ltb (size value) (size prefix)
    then false
    else size prefix == 0 || same (take (size prefix) (bytes_of value)) (bytes_of prefix)

unfoldable pub ends_with : StringView → StringView → Bool
ends_with value suffix =
    if not (valid value) || not (valid suffix) || ltb (size value) (size suffix)
    then false
    else size suffix == 0
      || same (drop (size value - size suffix) (bytes_of value)) (bytes_of suffix)

-- The loop of stringv_find, with the rounds that it has left.
pub find_from : List ℕ → List ℕ → ℕ → ℕ → Option ℕ
find_from bs search position zero = none
find_from bs search position (suc rounds) =
    let rest = find_from bs search (position + 1) rounds in
    if same (take (length search) (drop position bs)) search then some position else rest

unfoldable pub find : StringView → StringView → Option ℕ
unfolding find_from
find value search =
    if not (valid value) || not (valid search) || ltb (size value) (size search)
    then none
    else if size search == 0
    then some 0
    else find_from (bytes_of value) (bytes_of search) 0 (size value - size search + 1)

unfoldable pub contains : StringView → StringView → Bool
contains value search = elim (find value search) [ none ↦ false | some i ↦ true ]

-- The loop of stringv_find_char over the bytes from `position` on.
pub find_char_from : List ℕ → ℕ → ℕ → Option ℕ
find_char_from [] search position = none
find_char_from (c ∷ cs) search position =
    let rest = find_char_from cs search (position + 1) in
    if c == search then some position else rest

unfoldable pub find_char : StringView → ℕ → Option ℕ
unfolding find_char_from
find_char value search =
    if not (valid value) then none else find_char_from (bytes_of value) search 0

-- The loop of stringv_rfind_char, downwards from `position`.
pub rfind_char_from : List ℕ → ℕ → ℕ → Option ℕ
rfind_char_from bs search zero = none
rfind_char_from bs search (suc position) =
    let rest = rfind_char_from bs search position in
    elim (get_elem? bs position) [
      | none ↦ none
      | some c ↦ if c == search then some position else rest
    ]

unfoldable pub rfind_char : StringView → ℕ → Option ℕ
unfolding rfind_char_from
rfind_char value search =
    if not (valid value) then none else rfind_char_from (bytes_of value) search (size value)

unfoldable pub slice : StringView → ℕ → ℕ → StringView
slice value start len =
    if not (valid value) || ltb (size value) start
    then zeroed
    else let len' = (if ltb (size value - start) len then size value - start else len) in
      elim value [ null n ↦ null len' | view bs ↦ view (take len' (drop start bs)) ]

unfoldable pub from : StringView → ℕ → StringView
from value start = if ltb (size value) start then zeroed else slice value start (size value - start)

unfoldable pub trim_left : StringView → StringView
trim_left value = if not (valid value) then zeroed else from value (skip_spaces (bytes_of value))

-- The loop of stringv_trim_right: the length left of the trailing spaces of the first `len` bytes.
pub trimmed_length : List ℕ → ℕ → ℕ
trimmed_length bs zero = 0
trimmed_length bs (suc len) =
    let rest = trimmed_length bs len in
    elim (get_elem? bs len) [ none ↦ suc len | some c ↦ if ascii_space c then rest else suc len ]

unfoldable pub trim_right : StringView → StringView
trim_right value =
    if not (valid value)
    then zeroed
    else slice value 0 (trimmed_length (bytes_of value) (size value))

unfoldable pub trim : StringView → StringView
trim value = trim_right (trim_left value)

unfoldable pub split_once : StringView → StringView → Option (StringView × StringView)
split_once value separator = if size separator == 0 then none else elim (find value separator) [
  | none ↦ none
  | some i ↦ some (slice value 0 i, from value (i + size separator))
]

unfoldable pub split_once_char : StringView → ℕ → Option (StringView × StringView)
split_once_char value separator = elim (find_char value separator) [
  | none ↦ none
  | some i ↦ some (slice value 0 i, from value (i + 1))
]

unfoldable pub remove_prefix : StringView → StringView → StringView
remove_prefix value prefix = if starts_with value prefix then from value (size prefix) else value

unfoldable pub remove_suffix : StringView → StringView → StringView
remove_suffix value suffix =
    if ends_with value suffix then slice value 0 (size value - size suffix) else value

-- The loop of stringv_hash: FNV-1a, on 64-bit words.
unfoldable pub hash_from : ℕ → List ℕ → ℕ
hash_from h [] = h
hash_from h (c ∷ cs) = hash_from (bit_xor h c * 1099511628211 % 2 ^ 64) cs

unfoldable pub hash : StringView → ℕ
unfolding hash_from
hash value = if not (valid value) then 0 else hash_from 14695981039346656037 (bytes_of value)
