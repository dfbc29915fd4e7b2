-- ===== src/StringView/Trim.antt =====
-- Trimming, of src/string/string.c: which bytes are taken off.
use ceasy.Prelude.{
  ℕ, zero, suc, ◌+◌, ◌-◌, ◌≤◌, ◌<◌, ◌≡◌, refl, ap, sym, ◌∙◌, Bool, true, false, List, [], ◌∷◌, none,
  some, arith, Bool-cases, ◌==◌, ==_iff, length, length-drop, take, drop, get_elem?, inl, inr,
  Option-cases,
}
use mathlib.Core.Path.{subst}
use ceasy.StringView.Bytes.{ascii_space, skip_spaces}
use ceasy.StringView.Text.{slice-view, from-view}
use ceasy.StringView.{view, trim_left, trim_right, trim, trimmed_length}

abbrev pub space_at : List ℕ → ℕ → Bool
space_at [] i = false
space_at (c ∷ cs) zero = ascii_space c
space_at (c ∷ cs) (suc i) = space_at cs i

abbrev pub AllSpaces : List ℕ → ℕ → ℕ → Type 0
AllSpaces xs lo hi = (i : ℕ) → lo ≤ i → i < hi → space_at xs i ≡ true

pub space_at-drop : (s : ℕ) (xs : List ℕ) (i : ℕ) → space_at (drop s xs) i ≡ space_at xs (s + i)
space_at-drop zero xs i = ap (space_at xs) (omega arith)
space_at-drop (suc s) [] i = refl
space_at-drop (suc s) (c ∷ cs) i =
    space_at-drop s cs i
    ∙ ap (space_at (c ∷ cs)) (let e : suc (s + i) ≡ suc s + i = omega arith in e)

record Skipped (xs : List ℕ) (k : ℕ) : Type 0 where
  inside : k ≤ length xs
  spaces : AllSpaces xs 0 k
  stops : k < length xs → space_at xs k ≡ false

skip_spaces-Skipped : (xs : List ℕ) → Skipped xs (skip_spaces xs)
unfolding skip_spaces
skip_spaces-Skipped [] = record {
  inside = omega arith;
  spaces = λ i lo hi. absurd (omega arith);
  stops = λ h. absurd (omega arith);
}
skip_spaces-Skipped (c ∷ cs) = elim (Bool-cases (ascii_space c)) [
  | inl e ↦ rw e (Skipped-cons c cs (skip_spaces cs) e (skip_spaces-Skipped cs))
  | inr e ↦
      rw e
        (record { inside = omega arith; spaces = λ i lo hi. absurd (omega arith); stops = λ h. e })
]
  where
    Skipped-cons :
        (c : ℕ) (cs : List ℕ) (k : ℕ)
        → ascii_space c ≡ true
        → Skipped cs k
        → Skipped (c ∷ cs) (suc k)
    Skipped-cons c cs k e s = record {
      inside = omega arith;
      spaces = elim [ zero ↦ λ lo hi. e | suc i ↦ λ lo hi. s.spaces i (omega arith) (omega arith) ];
      stops = λ h. s.stops (omega arith);
    }

record Kept (xs : List ℕ) (len k : ℕ) : Type 0 where
  inside : k ≤ len
  spaces : AllSpaces xs k len
  stops : 0 < k → space_at xs (k - 1) ≡ false

space_at-get : (xs : List ℕ) (i c : ℕ) → get_elem? xs i ≡ some c → space_at xs i ≡ ascii_space c
space_at-get [] i c h = ground arith
space_at-get (x ∷ xs) zero c h = ground arith
space_at-get (x ∷ xs) (suc i) c h = space_at-get xs i c h

get_elem?-none : (xs : List ℕ) (i : ℕ) → get_elem? xs i ≡ none → length xs ≤ i
get_elem?-none [] i h = omega arith
get_elem?-none (x ∷ xs) zero h = ground arith
get_elem?-none (x ∷ xs) (suc i) h = omega (arith, get_elem?-none xs i h)

Kept-suc : (xs : List ℕ) (len k : ℕ) → space_at xs len ≡ true → Kept xs len k → Kept xs (suc len) k
Kept-suc xs len k e kept = record {
  inside = omega (arith, kept.inside);
  spaces = λ i lo hi. elim (Bool-cases (i == len)) [
    | inl p ↦ rw ((==_iff i len).0 p) e
    | inr p ↦ kept.spaces i lo (ground arith)
  ];
  stops = kept.stops;
}

Kept-stop : (xs : List ℕ) (len : ℕ) → space_at xs len ≡ false → Kept xs (suc len) (suc len)
Kept-stop xs len e = record {
  inside = omega arith;
  spaces = λ i lo hi. absurd (omega arith);
  stops = λ h. let p : suc len - 1 ≡ len = omega arith in rw p e;
}

trimmed_length-Kept :
    (xs : List ℕ) (len : ℕ) → len ≤ length xs → Kept xs len (trimmed_length xs len)
unfolding trimmed_length
trimmed_length-Kept xs zero h = record {
  inside = omega arith;
  spaces = λ i lo hi. absurd (omega arith);
  stops = λ h. absurd (omega arith);
}
trimmed_length-Kept xs (suc len) h = elim (Option-cases (get_elem? xs len)) [
  | inl e ↦ absurd (omega (arith, get_elem?-none xs len e))
  | inr (c, e) ↦ elim (Bool-cases (ascii_space c)) [
    | inl sp ↦ subst (Kept xs (suc len)) (ground arith) (
        Kept-suc xs len (trimmed_length xs len) (space_at-get xs len c e ∙ sp)
          (trimmed_length-Kept xs len (omega arith)))
    | inr sp ↦
        subst (Kept xs (suc len)) (ground arith) (Kept-stop xs len (space_at-get xs len c e ∙ sp))
  ]
]

trim_left-view : (xs : List ℕ) → trim_left (view xs) ≡ view (drop (skip_spaces xs) xs)
unfolding trim_left
trim_left-view xs = from-view xs (skip_spaces xs) (skip_spaces-Skipped xs).inside

trim_right-view :
    (xs : List ℕ) → trim_right (view xs) ≡ view (take (trimmed_length xs (length xs)) xs)
unfolding trim_right
trim_right-view xs =
    slice-view xs 0 (trimmed_length xs (length xs))
      (omega (arith, (trimmed_length-Kept xs (length xs) (omega arith)).inside))

-- What trimming promises: the bytes from `start` on, `len` of them, with only spaces outside and no
-- space at either end.
pub record Trims (xs : List ℕ) (start len : ℕ) : Type 0 where
  pub inside : start + len ≤ length xs
  pub result : trim (view xs) ≡ view (take len (drop start xs))
  pub before : AllSpaces xs 0 start
  pub after : AllSpaces xs (start + len) (length xs)
  pub ends : 0 < len → (space_at xs start ≡ false) × (space_at xs (start + (len - 1)) ≡ false)

-- `stringv_trim` on a non-NULL view takes off only spaces, at both ends, and what is left neither
-- begins nor ends in a space.
pub trim-Trims : (xs : List ℕ) → (start : ℕ) × (len : ℕ) × Trims xs start len
trim-Trims xs =
    let start = skip_spaces xs in
    let ys = drop start xs in
    let len = trimmed_length ys (length ys) in
    let left = skip_spaces-Skipped xs in
    let right = trimmed_length-Kept ys (length ys) (omega arith) in
    let lengths = length-drop start xs in
    (
      start,
      len,
      record {
        inside = omega (arith, left.inside, right.inside);
        result = unfold trim in rw (trim_left-view xs) (trim_right-view ys);
        before = left.spaces;
        after = λ i lo hi.
            let e : start + (i - start) ≡ i = omega arith in
            let p : space_at ys (i - start) ≡ true =
              right.spaces (i - start) (omega arith) (omega (arith, lengths)) in
            ap (space_at xs) (sym e) ∙ sym (space_at-drop start xs (i - start)) ∙ p;
        ends = λ h. (
          left.stops (omega (arith, right.inside, lengths, left.inside)),
          sym (space_at-drop start xs (len - 1)) ∙ right.stops h,
        );
      },
    )
