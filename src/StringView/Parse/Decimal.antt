-- ===== src/StringView/Parse/Decimal.antt =====
-- The parsers of src/string/string.c accept exactly the decimal numerals that fit.
use ceasy.Prelude.{
  ℕ, ◌+◌, ◌-◌, ◌*◌, ◌%◌, ◌≤◌, ◌<◌, ◌^◌, ◌≡◌, ◌↔◌, refl, List, [], ◌∷◌, Option, none, some, arith,
  size_max, length, leb, Option-cases, inl, inr, if◌then◌else◌,
}
use ceasy.Prelude.Int.{ℤ, pos, neg, int64_min}
use mathlib.Core.Path.{subst}
use ceasy.StringView.{view}
use ceasy.StringView.Parse.{
  parse_digits, parse_unsigned, parse_unsigned_bytes, parse_size, parse_int64,
}

-- Every byte is a decimal digit.
abbrev pub Digits : List ℕ → Type 0
Digits [] = Unit
Digits (c ∷ cs) = (b'0' ≤ c) × (c ≤ b'9') × Digits cs

-- The number that digits denote, behind digits of value `acc`.
pub decimal : ℕ → List ℕ → ℕ
decimal acc [] = acc
decimal acc (c ∷ cs) = decimal (acc * 10 + (c - b'0')) cs

le-decimal : (acc : ℕ) (cs : List ℕ) → acc ≤ decimal acc cs
unfolding decimal
le-decimal acc [] = omega arith
le-decimal acc (c ∷ cs) = omega (arith, le-decimal (acc * 10 + (c - b'0')) cs)

module _ (limit : ℕ) (low : 9 ≤ limit) (fits : limit < 2 ^ 64) where
  parse_digits-step :
      (c : ℕ) (cs : List ℕ) (p n : ℕ)
      → p ≤ limit
      → parse_digits limit (c ∷ cs) p ≡ some n
      → (b'0' ≤ c)
        × (c ≤ b'9')
        × (p * 10 + (c - b'0') ≤ limit)
        × (parse_digits limit cs ((p * 10 + (c - b'0')) % 2 ^ 64) ≡ some n)
  unfolding parse_digits
  parse_digits-step c cs p n b h = ground arith

  parse_digits_sound :
      (cs : List ℕ) (p n : ℕ)
      → p ≤ limit
      → parse_digits limit cs p ≡ some n
      → Digits cs × (n ≡ decimal p cs) × (n ≤ limit)
  unfolding parse_digits decimal
  parse_digits_sound [] p n b h = ground arith
  parse_digits_sound (c ∷ cs) p n b h =
      let (lo, hi, room, rest) = parse_digits-step c cs p n b h in
      let q : ℕ = p * 10 + (c - b'0') in
      let e : q % 2 ^ 64 ≡ q = omega arith in
      let (d, v, l) =
        parse_digits_sound cs q n room (subst (λ k. parse_digits limit cs k ≡ some n) e rest) in
      ((lo, hi, d), v, l)

  parse_digits_complete :
      (cs : List ℕ) (p : ℕ)
      → Digits cs
      → decimal p cs ≤ limit
      → parse_digits limit cs p ≡ some (decimal p cs)
  unfolding parse_digits decimal
  parse_digits_complete [] p d h = refl
  parse_digits_complete (c ∷ cs) p d h = ground (
    arith,
    parse_digits_complete cs (p * 10 + (c - b'0')) d.2 h,
    le-decimal (p * 10 + (c - b'0')) cs,
  )

parse_digits-Digits :
    (limit : ℕ) (cs : List ℕ)
    → 9 ≤ limit
    → limit < 2 ^ 64
    → Digits cs
    → parse_digits limit cs 0 ≡ (if leb (decimal 0 cs) limit then some (decimal 0 cs) else none)
parse_digits-Digits limit cs low fits d = elim (Option-cases (parse_digits limit cs 0)) [
  | inl e ↦ ground (arith, parse_digits_complete limit low fits cs 0 d)
  | inr (n, e) ↦ ground (arith, parse_digits_sound limit low fits cs 0 n)
]

-- `stringv_parse_size` on a non-NULL view accepts exactly the non-empty texts of decimal digits whose value is at most
-- SIZE_MAX, and returns that value.
pub parse_size_iff :
    (xs : List ℕ) (n : ℕ)
    → (parse_size (view xs) ≡ some n)
      ↔ ((0 < length xs) × Digits xs × (n ≡ decimal 0 xs) × (n ≤ size_max))
unfolding parse_size parse_unsigned parse_unsigned_bytes
parse_size_iff [] n = ground arith
parse_size_iff (c ∷ cs) n = (
  λ h. ground (arith, parse_digits_sound size_max (omega arith) (omega arith) (c ∷ cs) 0 n),
  λ h. ground (arith, parse_digits_complete size_max (omega arith) (omega arith) (c ∷ cs) 0 h.1),
)

neg-min : (n : ℕ) → n ≡ 2 ^ 63 → neg n ≡ int64_min
neg-min n e = ground arith

-- The value with a sign, if it is at most a limit.
abbrev pub within : (ℕ → ℤ) → ℕ → ℕ → Option ℤ
within sign limit n = if leb n limit then some (sign n) else none

parse_int64-minus :
    (ds : List ℕ)
    → 0 < length ds
    → Digits ds
    → parse_int64 (view (b'-' ∷ ds)) ≡ within neg (2 ^ 63) (decimal 0 ds)
unfolding parse_int64 parse_unsigned parse_unsigned_bytes
parse_int64-minus ds nonempty d =
    ground
      (arith, parse_digits-Digits (2 ^ 63) ds (omega arith) (omega arith) d, neg-min (decimal 0 ds))

parse_int64-plus :
    (ds : List ℕ)
    → 0 < length ds
    → Digits ds
    → parse_int64 (view (b'+' ∷ ds)) ≡ within pos (2 ^ 63 - 1) (decimal 0 ds)
unfolding parse_int64 parse_unsigned parse_unsigned_bytes
parse_int64-plus ds nonempty d =
    ground (arith, parse_digits-Digits (2 ^ 63 - 1) ds (omega arith) (omega arith) d)

parse_int64-plain :
    (ds : List ℕ)
    → 0 < length ds
    → Digits ds
    → parse_int64 (view ds) ≡ within pos (2 ^ 63 - 1) (decimal 0 ds)
unfolding parse_int64 parse_unsigned parse_unsigned_bytes
parse_int64-plain [] nonempty d = absurd (omega arith)
parse_int64-plain (c ∷ cs) nonempty d =
    ground (arith, parse_digits-Digits (2 ^ 63 - 1) (c ∷ cs) (omega arith) (omega arith) d)

-- `stringv_parse_int64` on one or more digits behind a minus, a plus or nothing: it returns the signed
-- value where that is an `int64_t`, from -2^63 to 2^63 - 1, and refuses otherwise.
pub parse_int64_lem :
    (ds : List ℕ)
    → 0 < length ds
    → Digits ds
    → (parse_int64 (view (b'-' ∷ ds)) ≡ within neg (2 ^ 63) (decimal 0 ds))
      × (parse_int64 (view (b'+' ∷ ds)) ≡ within pos (2 ^ 63 - 1) (decimal 0 ds))
      × (parse_int64 (view ds) ≡ within pos (2 ^ 63 - 1) (decimal 0 ds))
parse_int64_lem ds nonempty d = (
  parse_int64-minus ds nonempty d,
  parse_int64-plus ds nonempty d,
  parse_int64-plain ds nonempty d,
)
