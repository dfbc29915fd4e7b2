-- ===== src/StringView/Bytes.antt =====
-- src/string/string.c: what it does byte by byte, and the C library's `memcmp`.
use ceasy.Prelude.{
  ℕ, suc, ◌+◌, ◌-◌, Bool, true, false, ◌&&◌, ◌||◌, List, [], ◌∷◌, leb, ◌==◌, if◌then◌else◌,
}
use Prim.Native.Nat.{Ordering, compare}

-- `memcmp(a, b, n) == 0` on two blocks of n bytes.
unfoldable pub same : List ℕ → List ℕ → Bool
same [] [] = true
same (x ∷ xs) (y ∷ ys) = x == y && same xs ys
same _ _ = false

-- The sign of `memcmp(a, b, n)`.
unfoldable pub memcmp : List ℕ → List ℕ → Ordering
memcmp (x ∷ xs) (y ∷ ys) =
    let rest = memcmp xs ys in
    elim (compare x y) [
      | Ordering.eq ↦ rest
      | Ordering.lt ↦ Ordering.lt
      | Ordering.gt ↦ Ordering.gt
    ]
memcmp _ _ = Ordering.eq

-- stringv_ascii_space
unfoldable pub ascii_space : ℕ → Bool
ascii_space c = c == 32 || c == 9 || c == 13 || c == 10 || c == 12 || c == 11

-- stringv_ascii_lower
unfoldable pub ascii_lower : ℕ → ℕ
ascii_lower c = if leb b'A' c && leb c b'Z' then c + (b'a' - b'A') else c

-- The loop of stringv_equal_ignore_case, on two views of one length.
unfoldable pub same_ignore_case : List ℕ → List ℕ → Bool
unfolding ascii_lower
same_ignore_case [] [] = true
same_ignore_case (x ∷ xs) (y ∷ ys) =
    let rest = same_ignore_case xs ys in if ascii_lower x == ascii_lower y then rest else false
same_ignore_case _ _ = false

-- The loop of stringv_trim_left: how many leading bytes are spaces.
unfoldable pub skip_spaces : List ℕ → ℕ
unfolding ascii_space
skip_spaces [] = 0
skip_spaces (c ∷ cs) = let rest = skip_spaces cs in if ascii_space c then suc rest else 0
