-- ===== src/RoutePath/Segment.antt =====
-- router_next_segment of src/routing/router.c: it walks through the segments of a path.
use ceasy.Prelude.{
  ℕ, ◌+◌, ◌<◌, ◌≡◌, refl, ap, sym, ◌∙◌, true, none, some, List, [], ◌∷◌, ◌++◌, append-nil, arith,
  length, length-append, take, drop, take-append, drop-append, drop-add, get_elem?-drop, get_elem?,
}
use ceasy.StringView.{view, from, slice}
use ceasy.StringView.Text.{from-view, slice-view}
use ceasy.StringView.Search.{Absent, find_char-Absent, find_char-first}
use ceasy.RoutePath.{next_segment, segment_start, segment_length, byte_is}

-- The text of a path with the given segments: `/a/b` for `a` and `b`.
abbrev pub render : List (List ℕ) → List ℕ
render [] = []
render (s ∷ ss) = b'/' ∷ s ++ render ss

-- Segments that a path can hold: none contains a slash, and the last one is not empty.
abbrev pub AreSegments : List (List ℕ) → Type 0
AreSegments [] = Unit
AreSegments (s ∷ []) = Absent b'/' s × (0 < length s)
AreSegments (s ∷ t ∷ ss) = Absent b'/' s × AreSegments (t ∷ ss)

pub AreSegments-tail : (s : List ℕ) (ss : List (List ℕ)) → AreSegments (s ∷ ss) → AreSegments ss
AreSegments-tail s [] h = tt
AreSegments-tail s (t ∷ ss) h = h.1

pub AreSegments-head : (s : List ℕ) (ss : List (List ℕ)) → AreSegments (s ∷ ss) → Absent b'/' s
AreSegments-head s [] h = h.0
AreSegments-head s (t ∷ ss) h = h.0

-- Something follows the slash in front of a segment.
pub render-pos :
    (s : List ℕ) (ss : List (List ℕ)) → AreSegments (s ∷ ss) → 0 < length (s ++ render ss)
render-pos s [] h = rw append-nil h.1
render-pos s (t ∷ ss) h = omega (arith, length-append s (render (t ∷ ss)))

-- A position in a path: the bytes from `c` on are `rest`.
pub record At (xs : List ℕ) (c : ℕ) (rest : List ℕ) : Type 0 where
  pub inside : c + length rest ≡ length xs
  pub bytes : drop c xs ≡ rest

pub At-start : (xs : List ℕ) → At xs 0 xs
At-start xs = record { inside = omega arith; bytes = refl }

pub At-move : (xs : List ℕ) (c : ℕ) (l r : List ℕ) → At xs c (l ++ r) → At xs (c + length l) r
At-move xs c l r a = record {
  inside = omega (arith, a.inside, length-append l r);
  bytes = sym (drop-add c (length l) xs) ∙ ap (drop (length l)) a.bytes ∙ drop-append l r;
}

At-slash : (xs : List ℕ) (c : ℕ) (r : List ℕ) → At xs c (b'/' ∷ r) → byte_is (view xs) c b'/' ≡ true
At-slash xs c r a =
    ground (arith, get_elem?-drop c xs 0, ap (λ (ys : List ℕ). get_elem? ys 0) a.bytes)

At-suc : (xs : List ℕ) (c x : ℕ) (r : List ℕ) → At xs c (x ∷ r) → At xs (c + 1) r
At-suc xs c x r a = At-move xs c (x ∷ []) r a

segment_start-slash :
    (xs : List ℕ) (c : ℕ) (r : List ℕ) → At xs c (b'/' ∷ r) → segment_start (view xs) c ≡ c + 1
unfolding segment_start
segment_start-slash xs c r a = ground (arith, At-slash xs c r a, a.inside)

At-from : (xs : List ℕ) (c : ℕ) (r : List ℕ) → At xs c r → from (view xs) c ≡ view r
At-from xs c r a = from-view xs c (omega (arith, a.inside)) ∙ ap view a.bytes

-- A segment goes up to the next slash, or to the end.
segment_length-At :
    (xs : List ℕ) (c : ℕ) (s : List ℕ) (ss : List (List ℕ))
    → Absent b'/' s
    → At xs c (s ++ render ss)
    → segment_length (view xs) c ≡ length s
unfolding segment_length
segment_length-At xs c s [] h a = ground (
  arith,
  At-from xs c (s ++ []) a,
  append-nil s,
  find_char-Absent s b'/' h,
  a.inside,
  ap length (append-nil s),
)
segment_length-At xs c s (t ∷ ss) h a = ground (
  arith,
  At-from xs c (s ++ (b'/' ∷ (t ++ render ss))) a,
  find_char-first s (t ++ render ss) b'/' h,
)

slice-At :
    (xs : List ℕ) (c : ℕ) (l r : List ℕ) → At xs c (l ++ r) → slice (view xs) c (length l) ≡ view l
slice-At xs c l r a =
    slice-view xs c (length l) (omega (arith, a.inside, length-append l r))
    ∙ ap (λ ys. view (take (length l) ys)) a.bytes
    ∙ ap view (take-append l r)

-- At a segment, `router_next_segment` returns it and moves the cursor behind it.
pub next_segment-At :
    (xs : List ℕ) (c : ℕ) (s : List ℕ) (ss : List (List ℕ))
    → AreSegments (s ∷ ss)
    → At xs c (render (s ∷ ss))
    → next_segment (view xs) c ≡ some (view s, c + 1 + length s)
unfolding next_segment
next_segment-At xs c s ss h a =
    let b : At xs (c + 1) (s ++ render ss) = At-suc xs c b'/' (s ++ render ss) a in
    ground (
      arith,
      segment_start-slash xs c (s ++ render ss) a,
      segment_length-At xs (c + 1) s ss (AreSegments-head s ss h) b,
      slice-At xs (c + 1) s (render ss) b,
      render-pos s ss h,
      b.inside,
    )

pub At-next :
    (xs : List ℕ) (c : ℕ) (s : List ℕ) (ss : List (List ℕ))
    → At xs c (render (s ∷ ss))
    → At xs (c + 1 + length s) (render ss)
At-next xs c s ss a = At-move xs (c + 1) s (render ss) (At-suc xs c b'/' (s ++ render ss) a)

pub next_segment-end : (xs : List ℕ) (c : ℕ) → At xs c [] → next_segment (view xs) c ≡ none
unfolding next_segment segment_start
next_segment-end xs c a = let e : c ≡ length xs = omega (arith, a.inside) in ground (arith, e)
