-- ===== src/StringView/Parse.antt =====
-- Numbers and Booleans in text, of src/string/string.c. `none` is a refusal.
pub mod Decimal
use ceasy.Prelude.{
  ℕ, zero, suc, ◌+◌, ◌-◌, ◌*◌, ◌/◌, ◌%◌, ◌^◌, Bool, true, false, not, ◌&&◌, ◌||◌, Option, none,
  some, List, [], ◌∷◌, ltb, ◌==◌, if◌then◌else◌, length, size_max, codes,
}
use ceasy.Prelude.Int.{ℤ, pos, neg, lebℤ, int64_min, int_min, int_max}
use ceasy.StringView.{StringView, view, size, bytes_of, valid, equal}

-- The loop of stringv_parse_unsigned; `limit - digit` and the new value are `uint64_t`.
pub parse_digits : ℕ → List ℕ → ℕ → Option ℕ
parse_digits limit [] parsed = some parsed
parse_digits limit (c ∷ cs) parsed =
    let digit = c - b'0' in
    let rest = parse_digits limit cs ((parsed * 10 + digit) % 2 ^ 64) in
    if ltb c b'0' || ltb b'9' c
    then none
    else if ltb ((limit + 2 ^ 64 - digit) % 2 ^ 64 / 10) parsed
    then none
    else rest

-- stringv_parse_unsigned on the bytes of a valid view: whether there is a minus, and the value.
pub parse_unsigned_bytes : List ℕ → ℕ → Bool → Option (Bool × ℕ)
unfolding parse_digits
parse_unsigned_bytes [] limit allow_sign = none
parse_unsigned_bytes (c ∷ cs) limit allow_sign =
    let is_negative = allow_sign && c == b'-' in
    let digits = (if allow_sign && (c == b'-' || c == b'+') then cs else c ∷ cs) in
    if length digits == 0 || is_negative && not allow_sign
    then none
    else elim (parse_digits limit digits 0) [ none ↦ none | some n ↦ some (is_negative, n) ]

unfoldable pub parse_unsigned : StringView → ℕ → Bool → Option (Bool × ℕ)
unfolding parse_unsigned_bytes
parse_unsigned value limit allow_sign =
    if not (valid value) || size value == 0
    then none
    else parse_unsigned_bytes (bytes_of value) limit allow_sign

-- `value.data[0] == '-'`, read only where the view has a first byte.
pub starts_negative : List ℕ → Bool
starts_negative [] = false
starts_negative (c ∷ cs) = c == b'-'

unfoldable pub parse_int64 : StringView → Option ℤ
unfolding starts_negative
parse_int64 value =
    let limit = (if starts_negative (bytes_of value) then 2 ^ 63 - 1 + 1 else 2 ^ 63 - 1) in
    if not (valid value) || size value == 0 then none else elim (parse_unsigned value limit true) [
      | none ↦ none
      | some (negative, n) ↦
          if negative
          then (if n == 2 ^ 63 - 1 + 1 then some int64_min else some (neg n))
          else some (pos n)
    ]

unfoldable pub parse_int : StringView → Option ℤ
unfolding parse_int64
parse_int value = elim (parse_int64 value) [
  | none ↦ none
  | some n ↦ if not (lebℤ int_min n) || not (lebℤ n int_max) then none else some n
]

unfoldable pub parse_size : StringView → Option ℕ
parse_size value = elim (parse_unsigned value size_max false) [ none ↦ none | some (s, n) ↦ some n ]

unfoldable pub parse_bool : StringView → Option Bool
parse_bool value =
    if equal value (view (codes "true")) || equal value (view (codes "1"))
    then some true
    else if equal value (view (codes "false")) || equal value (view (codes "0"))
    then some false
    else none
