-- ===== src/Validation.antt =====
-- src/validation/validation.c: the validators of a value. `isspace` is the C library's, for the locale.
pub mod Email
mod Tests
use ceasy.Prelude.{
  ℕ, zero, suc, ◌+◌, Bool, true, false, not, ◌||◌, ◌&&◌, Option, none, some, List, [], ◌∷◌, ltb,
  leb, ◌==◌, if◌then◌else◌, size_max, length,
}
use ceasy.StringView.{StringView, null, view, size, equal, trim}

unfoldable pub present : StringView → Bool
present value = ltb 0 (size (trim value))

unfoldable pub length_between : StringView → ℕ → ℕ → Bool
length_between value minimum maximum = leb minimum (size value) && leb (size value) maximum

unfoldable pub length_at_most : StringView → ℕ → Bool
length_at_most value maximum = leb (size value) maximum

unfoldable pub equal_values : StringView → StringView → Bool
equal_values first second = equal first second

-- The loop of validation_email_like from `index` on: `none` is `return false`, and otherwise `at`.
unfoldable pub email_scan : (ℕ → Bool) → List ℕ → ℕ → ℕ → Option ℕ
email_scan isspace [] index at = some at
email_scan isspace (c ∷ cs) index at =
    let found = email_scan isspace cs (index + 1) index in
    let rest = email_scan isspace cs (index + 1) at in
    if isspace c
    then none
    else if c == b'@'
    then (if not (at == size_max) then none else found)
    else rest

-- validation_email_like
unfoldable pub email_like : (ℕ → Bool) → StringView → Bool
unfolding email_scan
email_like isspace (null n) = false
email_like isspace (view bs) =
    if length bs == 0 || ltb 254 (length bs)
    then false
    else elim (email_scan isspace bs 0 size_max) [
      | none ↦ false
      | some at ↦ not (at == size_max) && ltb 0 at && ltb (at + 1) (length bs)
    ]
