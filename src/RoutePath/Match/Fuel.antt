-- ===== src/RoutePath/Match/Fuel.antt =====
-- The loop of router_path_matches in src/routing/router.c ends on every pattern and path.
use ceasy.Prelude.{
  ℕ, zero, suc, ◌+◌, ◌-◌, ◌≤◌, ◌<◌, ◌≡◌, ◌≢◌, ap, false, some, List, [], ◌∷◌, ◌++◌, arith,
  Bool-cases, Option-cases, inl, inr, ltb, ◌&&◌, length, length-append, length-drop, drop,
  get_elem?, get_elem?-drop,
}
use ceasy.StringView.{StringView, view}
use ceasy.StringView.Text.{from-view}
use ceasy.StringView.Search.{Absent, absent, at, Split-at, find_char-Absent, find_char-first}
use ceasy.RoutePath.{
  RouteParam, unfinished, walk, next_segment, segment_start, segment_length, byte_is, match_segment,
}
use ceasy.RoutePath.Match.{refuses, binds, literals, Step-cases}

-- A segment stays inside the path, and is empty only in front of a slash.
record Bounded (xs : List ℕ) (start len : ℕ) : Type 0 where
  inside : start + len ≤ length xs
  moves : start < length xs → byte_is (view xs) start b'/' ≡ false → 0 < len

head_of_drop :
    (xs : List ℕ) (start c : ℕ) (r : List ℕ) → drop start xs ≡ c ∷ r → get_elem? xs start ≡ some c
head_of_drop xs start c r h =
    ground (arith, get_elem?-drop start xs 0, ap (λ (ys : List ℕ). get_elem? ys 0) h)

segment_length-Absent :
    (xs : List ℕ) (start : ℕ)
    → start ≤ length xs
    → Absent b'/' (drop start xs)
    → segment_length (view xs) start ≡ length xs - start
unfolding segment_length
segment_length-Absent xs start h a =
    ground (arith, from-view xs start h, find_char-Absent (drop start xs) b'/' a)

segment_length-at :
    (xs : List ℕ) (start : ℕ) (l r : List ℕ)
    → start ≤ length xs
    → Absent b'/' l
    → drop start xs ≡ l ++ b'/' ∷ r
    → segment_length (view xs) start ≡ length l
unfolding segment_length
segment_length-at xs start l r h a e =
    ground (arith, from-view xs start h, find_char-first l r b'/' a, e)

slash_is_byte :
    (xs : List ℕ) (start : ℕ) (l r : List ℕ)
    → drop start xs ≡ l ++ b'/' ∷ r
    → byte_is (view xs) start b'/' ≡ false
    → 0 < length l
slash_is_byte xs start [] r e h = ground (arith, head_of_drop xs start b'/' r e)
slash_is_byte xs start (c ∷ l) r e h = omega arith

segment_length-Bounded :
    (xs : List ℕ) (start : ℕ)
    → start ≤ length xs
    → Bounded xs start (segment_length (view xs) start)
segment_length-Bounded xs start h = elim (Split-at b'/' (drop start xs)) [
  | absent a ↦
      rw (segment_length-Absent xs start h a)
        (record { inside = omega arith; moves = λ lt nb. omega arith })
  | at l r a e ↦ rw (segment_length-at xs start l r h a e) (record {
    inside = omega (arith, ap length e, length-drop start xs, length-append l (b'/' ∷ r));
    moves = λ lt nb. slash_is_byte xs start l r e nb;
  })
]

-- Every segment moves the cursor on, and not beyond the end.
next_segment_moves :
    (xs : List ℕ) (c : ℕ) (s : StringView) (c' : ℕ)
    → c ≤ length xs
    → next_segment (view xs) c ≡ some (s, c')
    → (c < c') × (c' ≤ length xs)
unfolding next_segment segment_start
next_segment_moves xs c s c' h e =
    elim (Bool-cases (ltb c (length xs) && byte_is (view xs) c b'/')) [
      | inl slash ↦
          let b = segment_length-Bounded xs (c + 1) (ground arith) in
          let i = b.inside in ground (arith, slash, i)
      | inr plain ↦
          let b = segment_length-Bounded xs c h in
          let i = b.inside in ground (arith, plain, i, b.moves)
    ]

-- With more fuel than the pattern has bytes behind its cursor the loop of `router_path_matches` ends,
-- whatever the pattern and the path.
pub walk_finishes :
    (fuel : ℕ) (xs : List ℕ) (path : StringView) (c d n : ℕ) (params : List RouteParam)
    → c ≤ length xs
    → length xs < c + fuel
    → walk fuel (view xs) path c d n params ≢ unfinished
unfolding walk
walk_finishes zero xs path c d n params h f = absurd (omega arith)
walk_finishes (suc fuel) xs path c d n params h f = elim (Option-cases (next_segment (view xs) c)) [
  | inl e ↦ ground (arith, e)
  | inr ((s, c'), e) ↦ elim (Option-cases (next_segment path d)) [
    | inl k ↦ ground (arith, e, k)
    | inr ((t, d'), k) ↦
        let (lt, le) = next_segment_moves xs c s c' h e in
        elim (Step-cases (match_segment s t (length params))) [
          | refuses m ↦ ground (arith, e, k, m)
          | binds x m ↦ ground (
            arith,
            e,
            k,
            m,
            walk_finishes fuel xs path c' d' n (params ++ x ∷ []) le (omega arith),
          )
          | literals m ↦
              ground
                (arith, e, k, m, walk_finishes fuel xs path c' d' (n + 1) params le (omega arith))
        ]
  ]
]
