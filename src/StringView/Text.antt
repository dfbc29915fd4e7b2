-- ===== src/StringView/Text.antt =====
-- Comparison of views, of src/string/string.c, against the lists of bytes that they cover.
use ceasy.Prelude.{
  ℕ, suc, ◌+◌, ◌-◌, ◌≤◌, ◌≡◌, refl, ap, sym, ◌∙◌, ◌↔◌, true, List, [], ◌∷◌, ◌++◌, map, arith,
  ==_iff, length, length-append, take, drop, take-append-drop, take-append, drop-append,
  take-length, length-drop,
}
use ceasy.StringView.Bytes.{same, ascii_lower, same_ignore_case}
use ceasy.StringView.{
  StringView, null, view, bytes_of, valid, equal, equal_ignore_case, starts_with, remove_prefix,
  from, slice,
}

pub same_sound : (xs ys : List ℕ) → same xs ys ≡ true → xs ≡ ys
unfolding same
same_sound [] [] h = refl
same_sound [] (y ∷ ys) h = ground arith
same_sound (x ∷ xs) [] h = ground arith
same_sound (x ∷ xs) (y ∷ ys) h = ground (arith, same_sound xs ys, ==_iff x y)

pub same_self : (xs : List ℕ) → same xs xs ≡ true
unfolding same
same_self [] = refl
same_self (x ∷ xs) = ground (arith, same_self xs, ==_iff x x)

pub same_iff : (xs ys : List ℕ) → (same xs ys ≡ true) ↔ (xs ≡ ys)
same_iff xs ys = (same_sound xs ys, λ e. rw (← e) (same_self xs))

same-length : (xs ys : List ℕ) → same xs ys ≡ true → length xs ≡ length ys
same-length xs ys h = ap length (same_sound xs ys h)

-- On non-NULL views the comparison of lengths only shortens the work.
pub equal-view : (xs ys : List ℕ) → equal (view xs) (view ys) ≡ same xs ys
unfolding equal same
equal-view [] [] = refl
equal-view [] (y ∷ ys) = ground arith
equal-view (x ∷ xs) [] = ground arith
equal-view (x ∷ xs) (y ∷ ys) = ground (arith, same-length xs ys)

-- `stringv_equal` holds exactly when both views are valid and cover the same bytes.
pub equal_iff :
    (a b : StringView)
    → (equal a b ≡ true) ↔ ((valid a ≡ true) × (valid b ≡ true) × (bytes_of a ≡ bytes_of b))
equal_iff (null n) (null m) = unfold equal in ground arith
equal_iff (null n) (view []) = unfold equal in ground arith
equal_iff (null n) (view (y ∷ ys)) = unfold equal in ground arith
equal_iff (view []) (null n) = unfold equal in ground arith
equal_iff (view (x ∷ xs)) (null n) = unfold equal in ground arith
equal_iff (view xs) (view ys) = (
  λ h. (refl, refl, same_sound xs ys (rw (← equal-view xs ys) h)),
  λ h. rw (equal-view xs ys, ← h.2) (same_self xs),
)

same_ignore_case_sound :
    (xs ys : List ℕ) → same_ignore_case xs ys ≡ true → map ascii_lower xs ≡ map ascii_lower ys
unfolding same_ignore_case
same_ignore_case_sound [] [] h = refl
same_ignore_case_sound [] (y ∷ ys) h = ground arith
same_ignore_case_sound (x ∷ xs) [] h = ground arith
same_ignore_case_sound (x ∷ xs) (y ∷ ys) h =
    ground (arith, same_ignore_case_sound xs ys, ==_iff (ascii_lower x) (ascii_lower y))

same_ignore_case_complete :
    (xs ys : List ℕ) → map ascii_lower xs ≡ map ascii_lower ys → same_ignore_case xs ys ≡ true
unfolding same_ignore_case
same_ignore_case_complete [] [] h = refl
same_ignore_case_complete [] (y ∷ ys) h = ground arith
same_ignore_case_complete (x ∷ xs) [] h = ground arith
same_ignore_case_complete (x ∷ xs) (y ∷ ys) h =
    ground (arith, same_ignore_case_complete xs ys, ==_iff (ascii_lower x) (ascii_lower y))

same_of_take :
    (xs ys : List ℕ) → same (take (length ys) xs) ys ≡ true → (r : List ℕ) × (xs ≡ ys ++ r)
same_of_take xs ys h = (
  drop (length ys) xs,
  sym (take-append-drop (length ys) xs)
      ∙ ap (λ t. t ++ drop (length ys) xs) (same_sound (take (length ys) xs) ys h),
)

length-map {ℓ κ} :
    {A : Type ℓ} {B : Type κ} (f : A → B) (xs : List A) → length (map f xs) ≡ length xs
length-map f [] = refl
length-map f (x ∷ xs) = ap suc (length-map f xs)

length_of_lowered :
    (xs ys : List ℕ) → map ascii_lower xs ≡ map ascii_lower ys → length xs ≡ length ys
length_of_lowered xs ys h =
    sym (length-map ascii_lower xs) ∙ ap length h ∙ length-map ascii_lower ys

-- `stringv_equal_ignore_case` on non-NULL views holds exactly when their bytes, with the ASCII letters
-- lowered, are equal.
pub equal_ignore_case-view :
    (xs ys : List ℕ)
    → (equal_ignore_case (view xs) (view ys) ≡ true) ↔ (map ascii_lower xs ≡ map ascii_lower ys)
unfolding equal_ignore_case
equal_ignore_case-view xs ys = (
  λ h. same_ignore_case_sound xs ys (ground arith),
  λ h. ground (arith, same_ignore_case_complete xs ys h, length_of_lowered xs ys h),
)

-- A slice that lies inside a non-NULL view.
pub slice-view :
    (xs : List ℕ) (start len : ℕ)
    → start + len ≤ length xs
    → slice (view xs) start len ≡ view (take len (drop start xs))
unfolding slice
slice-view xs start len h = ground arith

pub from-view :
    (xs : List ℕ) (start : ℕ) → start ≤ length xs → from (view xs) start ≡ view (drop start xs)
unfolding from slice
from-view xs start h =
    ground (arith, take-length (length xs - start) (drop start xs), length-drop start xs)

starts_with_sound :
    (xs ys : List ℕ) → starts_with (view xs) (view ys) ≡ true → (r : List ℕ) × (xs ≡ ys ++ r)
starts_with_sound xs [] h = (xs, refl)
starts_with_sound xs (y ∷ ys) h = same_of_take xs (y ∷ ys) (unfold starts_with in ground arith)

starts_with-append : (ys r : List ℕ) → starts_with (view (ys ++ r)) (view ys) ≡ true
unfolding starts_with
starts_with-append ys r = ground (arith, length-append ys r, take-append ys r, same_self ys)

-- `stringv_starts_with` on non-NULL views holds exactly when the value is the prefix with some bytes
-- behind it.
pub starts_with_iff :
    (xs ys : List ℕ) → (starts_with (view xs) (view ys) ≡ true) ↔ ((r : List ℕ) × (xs ≡ ys ++ r))
starts_with_iff xs ys = (starts_with_sound xs ys, λ p. rw p.1 (starts_with-append ys p.0))

-- `stringv_remove_prefix` takes the prefix off a non-NULL value that begins with it.
pub remove_prefix-append : (ys r : List ℕ) → remove_prefix (view (ys ++ r)) (view ys) ≡ view r
remove_prefix-append ys r =
    unfold remove_prefix in
    rw (starts_with-append ys r) (
      from-view (ys ++ r) (length ys) (omega (arith, length-append ys r))
      ∙ ap view (drop-append ys r))
