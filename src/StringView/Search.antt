-- ===== src/StringView/Search.antt =====
-- Searching and splitting, of src/string/string.c, against where bytes stand in the view.
use ceasy.Prelude.{
  ◌⊎◌, ltb, ltb→lt, ℕ, zero, suc, ◌+◌, ◌-◌, ◌≤◌, ◌<◌, ◌≡◌, ◌≢◌, refl, ap, sym, ◌∙◌, false, List, [],
  ◌∷◌, ◌++◌, Option, none, some, arith, ◌==◌, ==_iff, Bool-cases, length, length-append,
  length-drop, take, drop, take-append, inl, inr,
}
use mathlib.Core.Path.{subst}
use native.Mathlib.Numerals.{add-one}
use ceasy.StringView.Bytes.{same}
use ceasy.StringView.Text.{same_iff, slice-view, from-view}
use ceasy.StringView.{view, find_char_from, find_char, split_once_char, find_from, find}

-- No byte of the list is `c`.
abbrev pub Absent : ℕ → List ℕ → Type 0
Absent c [] = Unit
Absent c (x ∷ xs) = (x ≢ c) × Absent c xs

find_char_from-Absent : (xs : List ℕ) (c pos : ℕ) → Absent c xs → find_char_from xs c pos ≡ none
unfolding find_char_from
find_char_from-Absent [] c pos h = refl
find_char_from-Absent (x ∷ xs) c pos h =
    ground (arith, find_char_from-Absent xs c (pos + 1) h.1, ==_iff x c)

find_char_from-first :
    (l r : List ℕ) (c pos : ℕ)
    → Absent c l
    → find_char_from (l ++ c ∷ r) c pos ≡ some (pos + length l)
unfolding find_char_from
find_char_from-first [] r c pos h = ground (arith, ==_iff c c)
find_char_from-first (x ∷ l) r c pos h =
    ground (arith, find_char_from-first l r c (pos + 1) h.1, ==_iff x c)

-- A list either lacks a byte, or splits at its first occurrence.
pub data Split (c : ℕ) (xs : List ℕ) : Type 0 where
  absent : Absent c xs → Split c xs
  at : (l r : List ℕ) → Absent c l → xs ≡ l ++ c ∷ r → Split c xs

pub Split-at : (c : ℕ) (xs : List ℕ) → Split c xs
Split-at c [] = absent tt
Split-at c (x ∷ xs) = elim (Bool-cases (x == c)) [
  | inl e ↦ at [] xs tt (ap (λ t. t ∷ xs) ((==_iff x c).0 e))
  | inr e ↦ elim (Split-at c xs) [
    | absent h ↦ absent (ground (arith, ==_iff x c), h)
    | at l r h p ↦ at (x ∷ l) r (ground (arith, ==_iff x c), h) (ap (λ t. x ∷ t) p)
  ]
]

pub find_char-Absent : (xs : List ℕ) (c : ℕ) → Absent c xs → find_char (view xs) c ≡ none
unfolding find_char
find_char-Absent xs c h = find_char_from-Absent xs c 0 h

pub find_char-first :
    (l r : List ℕ) (c : ℕ) → Absent c l → find_char (view (l ++ c ∷ r)) c ≡ some (length l)
unfolding find_char
find_char-first l r c h = find_char_from-first l r c 0 h ∙ ap some (omega arith)

drop-suc {ℓ} :
    {A : Type ℓ} (l : List A) (c : A) (r : List A) → drop (suc (length l)) (l ++ c ∷ r) ≡ r
drop-suc [] c r = refl
drop-suc (x ∷ l) c r = drop-suc l c r

-- `stringv_split_once_char` cuts at the first separator.
pub split_once_char-first :
    (l r : List ℕ) (c : ℕ)
    → Absent c l
    → split_once_char (view (l ++ c ∷ r)) c ≡ some (view l, view r)
unfolding split_once_char
split_once_char-first l r c h = ground (
  arith,
  find_char-first l r c h,
  slice-view (l ++ c ∷ r) 0 (length l) (omega (arith, length-append l (c ∷ r))),
  from-view (l ++ c ∷ r) (length l + 1) (omega (arith, length-append l (c ∷ r))),
  take-append l (c ∷ r),
  drop-suc l c r,
  add-one (length l),
)

pub split_once_char-Absent :
    (xs : List ℕ) (c : ℕ) → Absent c xs → split_once_char (view xs) c ≡ none
unfolding split_once_char
split_once_char-Absent xs c h = ground (arith, find_char-Absent xs c h)

-- `stringv_split_once_char` on a non-NULL view: it fails where the separator is absent, and cuts at the
-- first one, which it drops, where there is one.
pub split_once_char_cases :
    (xs : List ℕ) (c : ℕ)
    → Absent c xs × (split_once_char (view xs) c ≡ none)
      ⊎ ((l r : List ℕ) × Absent c l
          × (xs ≡ l ++ c ∷ r)
          × (split_once_char (view xs) c ≡ some (view l, view r)))
split_once_char_cases xs c = elim (Split-at c xs) [
  | absent h ↦ inl (h, split_once_char-Absent xs c h)
  | at l r h p ↦ inr (l, r, h, p, rw p (split_once_char-first l r c h))
]

-- The bytes `search` stand at position `i`.
abbrev pub Occurs : List ℕ → List ℕ → ℕ → Type 0
Occurs bs search i = take (length search) (drop i bs) ≡ search

-- What the loop of `stringv_find` has found, from `pos` with `rounds` rounds.
abbrev Found : List ℕ → List ℕ → ℕ → ℕ → Option ℕ → Type 0
Found bs search pos rounds none = (j : ℕ) → pos ≤ j → j < pos + rounds → ¬ (Occurs bs search j)
Found bs search pos rounds (some i) =
    (pos ≤ i)
    × (i < pos + rounds)
    × Occurs bs search i
    × ((j : ℕ) → pos ≤ j → j < i → ¬ (Occurs bs search j))

-- A position that holds nothing may be put before a search.
not_before :
    (bs search : List ℕ) (pos k : ℕ)
    → ¬ (Occurs bs search pos)
    → ((j : ℕ) → pos + 1 ≤ j → j < k → ¬ (Occurs bs search j))
    → (j : ℕ) → pos ≤ j
    → j < k
    → ¬ (Occurs bs search j)
not_before bs search pos k n later j lo hi o = elim (Bool-cases (pos == j)) [
  | inl e ↦ n (subst (λ i. Occurs bs search i) (sym ((==_iff pos j).0 e)) o)
  | inr e ↦ later j (ground arith) hi o
]

Found-later :
    (bs search : List ℕ) (pos rounds : ℕ) (o : Option ℕ)
    → ¬ (Occurs bs search pos)
    → Found bs search (pos + 1) rounds o
    → Found bs search pos (suc rounds) o
Found-later bs search pos rounds none n f =
    not_before bs search pos (pos + suc rounds) n (λ j lo hi. f j lo (omega arith))
Found-later bs search pos rounds (some i) n f =
    (omega arith, omega arith, f.2, not_before bs search pos i n f.3)

find_from-Found :
    (bs search : List ℕ) (pos rounds : ℕ)
    → Found bs search pos rounds (find_from bs search pos rounds)
unfolding find_from
find_from-Found bs search pos zero = λ j lo hi o. absurd (omega arith)
find_from-Found bs search pos (suc rounds) =
    let here = take (length search) (drop pos bs) in
    elim (Bool-cases (same here search)) [
      | inl e ↦
          rw e (
            omega arith,
            omega arith,
            (same_iff here search).0 e,
            λ j lo hi o. absurd (omega arith),
          )
      | inr e ↦ rw e (
          Found-later bs search pos rounds (find_from bs search (pos + 1) rounds)
            (λ o. cc ((same_iff here search).1 o)) (find_from-Found bs search (pos + 1) rounds))
    ]

if_ltb_zero : (n : ℕ) → ltb n 0 ≡ false
if_ltb_zero n = ground arith

if_suc_zero : (n : ℕ) → (suc n == 0) ≡ false
if_suc_zero n = ground arith

-- What `stringv_find` promises: the first position at which the searched bytes stand, and nothing
-- only where they stand nowhere.
abbrev pub FindsFirst : List ℕ → List ℕ → Option ℕ → Type 0
FindsFirst bs search none = (j : ℕ) → ¬ (Occurs bs search j)
FindsFirst bs search (some i) =
    (i + length search ≤ length bs)
    × Occurs bs search i
    × ((j : ℕ) → j < i → ¬ (Occurs bs search j))

length-take-le : (n : ℕ) (xs : List ℕ) → length (take n xs) ≤ length xs
length-take-le zero xs = omega arith
length-take-le (suc n) [] = omega arith
length-take-le (suc n) (x ∷ xs) = omega (arith, length-take-le n xs)

Occurs-inside :
    (bs search : List ℕ) (j : ℕ)
    → Occurs bs search j
    → 0 < length search
    → j + length search ≤ length bs
Occurs-inside bs search j o h =
    omega (arith, ap length o, length-take-le (length search) (drop j bs), length-drop j bs)

FindsFirst-Found :
    (bs search : List ℕ) (o : Option ℕ)
    → 0 < length search
    → length search ≤ length bs
    → Found bs search 0 (length bs - length search + 1) o
    → FindsFirst bs search o
FindsFirst-Found bs search none p q f =
    λ j o. f j (omega arith) (omega (arith, Occurs-inside bs search j o p)) o
FindsFirst-Found bs search (some i) p q f = (omega arith, f.2, λ j lt. f.3 j (omega arith) lt)

-- The result of `stringv_find` on non-NULL views is the first position at which the searched bytes
-- stand, inside the value; it fails only where they stand nowhere.
pub find-FindsFirst : (bs search : List ℕ) → FindsFirst bs search (find (view bs) (view search))
unfolding find
find-FindsFirst bs [] =
    rw (if_ltb_zero (length bs)) (omega arith, refl, λ j h. absurd (omega arith))
find-FindsFirst bs (s ∷ search) = elim (Bool-cases (ltb (length bs) (suc (length search)))) [
  | inl e ↦
      rw e (λ j o. omega (arith, Occurs-inside bs (s ∷ search) j o (omega arith), ltb→lt _ _ e))
  | inr e ↦
      rw (e, if_suc_zero (length search))
        (FindsFirst-Found bs (s ∷ search) _ (omega arith) (ground arith)
          (find_from-Found bs (s ∷ search) 0 (length bs - suc (length search) + 1)))
]
