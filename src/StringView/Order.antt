-- ===== src/StringView/Order.antt =====
-- stringv_compare of src/string/string.c is the lexicographic order of bytes.
use ceasy.Prelude.{ℕ, suc, ◌≡◌, refl, List, [], ◌∷◌, arith, length, take, ltb, if◌then◌else◌}
use Prim.Native.Nat.{Ordering, compare}
use ceasy.StringView.Bytes.{memcmp}
use ceasy.StringView.{view, compare_views, order_then_size}

-- Dictionary order: a proper prefix comes first.
pub lexicographic : List ℕ → List ℕ → Ordering
lexicographic [] [] = Ordering.eq
lexicographic [] (y ∷ ys) = Ordering.lt
lexicographic (x ∷ xs) [] = Ordering.gt
lexicographic (x ∷ xs) (y ∷ ys) =
    let rest = lexicographic xs ys in
    elim (compare x y) [
      | Ordering.lt ↦ Ordering.lt
      | Ordering.eq ↦ rest
      | Ordering.gt ↦ Ordering.gt
    ]

abbrev shorter : ℕ → ℕ → ℕ
shorter n m = if ltb n m then n else m

shorter-suc : (n m : ℕ) → shorter (suc n) (suc m) ≡ suc (shorter n m)
shorter-suc n m = ground arith

shorter-zero_left : (n : ℕ) → shorter 0 n ≡ 0
shorter-zero_left n = ground arith

shorter-zero_right : (n : ℕ) → shorter n 0 ≡ 0
shorter-zero_right n = ground arith

memcmp-lexicographic :
    (xs ys : List ℕ)
    → order_then_size
        (memcmp
          (take (shorter (length xs) (length ys)) xs)
          (take (shorter (length xs) (length ys)) ys))
        (length xs)
        (length ys)
      ≡ lexicographic xs ys
unfolding memcmp lexicographic order_then_size
memcmp-lexicographic [] [] = refl
memcmp-lexicographic [] (y ∷ ys) = rw (shorter-zero_left (suc (length ys))) (ground arith)
memcmp-lexicographic (x ∷ xs) [] = rw (shorter-zero_right (suc (length xs))) (ground arith)
memcmp-lexicographic (x ∷ xs) (y ∷ ys) =
    rw (shorter-suc (length xs) (length ys)) (ground (arith, memcmp-lexicographic xs ys))

-- The other way round.
abbrev pub flip : Ordering → Ordering
flip Ordering.lt = Ordering.gt
flip Ordering.eq = Ordering.eq
flip Ordering.gt = Ordering.lt

lexicographic-flip : (xs ys : List ℕ) → lexicographic ys xs ≡ flip (lexicographic xs ys)
unfolding lexicographic
lexicographic-flip [] [] = refl
lexicographic-flip [] (y ∷ ys) = refl
lexicographic-flip (x ∷ xs) [] = refl
lexicographic-flip (x ∷ xs) (y ∷ ys) = ground (arith, lexicographic-flip xs ys)

lexicographic-eq : (xs ys : List ℕ) → lexicographic xs ys ≡ Ordering.eq → xs ≡ ys
unfolding lexicographic
lexicographic-eq [] [] h = refl
lexicographic-eq [] (y ∷ ys) h = ground arith
lexicographic-eq (x ∷ xs) [] h = ground arith
lexicographic-eq (x ∷ xs) (y ∷ ys) h = ground (arith, lexicographic-eq xs ys)

compare-lexicographic : (xs ys : List ℕ) → compare_views (view xs) (view ys) ≡ lexicographic xs ys
unfolding compare_views
compare-lexicographic xs ys = memcmp-lexicographic xs ys

-- `stringv_compare` on non-NULL views is the dictionary order of their bytes, it changes sign when
-- its arguments are exchanged, and it returns 0 only for equal bytes.
pub compare_views_lem :
    (xs ys : List ℕ)
    → (compare_views (view xs) (view ys) ≡ lexicographic xs ys)
      × (compare_views (view ys) (view xs) ≡ flip (compare_views (view xs) (view ys)))
      × (compare_views (view xs) (view ys) ≡ Ordering.eq → xs ≡ ys)
compare_views_lem xs ys = (
  compare-lexicographic xs ys,
  rw (compare-lexicographic xs ys, compare-lexicographic ys xs) (lexicographic-flip xs ys),
  λ h. lexicographic-eq xs ys (rw (compare-lexicographic xs ys) at h),
)
