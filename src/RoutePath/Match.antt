-- ===== src/RoutePath/Match.antt =====
-- router_path_matches of src/routing/router.c, on paths that are given by their segments.
pub mod Pairs
pub mod Lengths
pub mod Fuel
use ceasy.Prelude.{
  ℕ, zero, suc, ◌+◌, ◌-◌, ◌≤◌, ◌<◌, ◌≡◌, refl, ap, sym, ◌∙◌, Bool, true, false, Option, none, some,
  List, [], ◌∷◌, ◌++◌, arith, Bool-cases, ltb, leb, length, length-append, if◌then◌else◌, ◌==◌,
  ◌&&◌, inl, inr, codes,
}
use ceasy.StringView.{StringView, view, size, equal, from_cstr}
use ceasy.StringView.Text.{equal-view}
use ceasy.StringView.Bytes.{same}
use ceasy.RoutePath.{
  RouteParam, Walk, refused, ended, unfinished, walk, conclude, path_matches, valid_path,
  next_segment, match_segment, Step, refuse, bind, literal,
}
use ceasy.RoutePath.Segment.{
  render, AreSegments, AreSegments-tail, render-pos, At, At-start, At-next, next_segment-At,
  next_segment-end,
}

-- The rounds of the loop on the segments themselves, from a count of literals and the parameters.
-- A last pattern segment with no path segment left goes unseen.
pub agree : List (List ℕ) → List (List ℕ) → ℕ → List RouteParam → Option (ℕ × List RouteParam)
agree [] [] n params = some (n, params)
agree [] (q ∷ qs) n params = none
agree (p ∷ ps) [] n params = if length ps == 0 then some (n, params) else none
agree (p ∷ ps) (q ∷ qs) n params = elim (match_segment (view p) (view q) (length params)) [
  | refuse ↦ none
  | bind x ↦ agree ps qs n (params ++ x ∷ [])
  | literal ↦ agree ps qs (n + 1) params
]

conclude-ended :
    (xs ys r t : List ℕ) (c d n : ℕ) (params : List RouteParam)
    → At xs c r
    → At ys d t
    → conclude (ended c d n params) (length xs) (length ys)
      ≡ (if length r == 0 && length t == 0 then some (n, params) else none)
unfolding conclude
conclude-ended xs ys r t c d n params a b =
    let e = a.inside in let f = b.inside in ground (arith, e, f)

data StepCases (s : Step) : Type 0 where
  refuses : s ≡ refuse → StepCases s
  binds : (x : RouteParam) → s ≡ bind x → StepCases s
  literals : s ≡ literal → StepCases s

Step-cases : (s : Step) → StepCases s
Step-cases refuse = refuses refl
Step-cases (bind x) = binds x refl
Step-cases literal = literals refl

render-cons_pos : (s : List ℕ) (ss : List (List ℕ)) → 0 < length (render (s ∷ ss))
render-cons_pos s ss = omega arith

length-render_zero : (ss : List (List ℕ)) → (length (render ss) == 0) ≡ (length ss == 0)
length-render_zero [] = refl
length-render_zero (s ∷ ss) = ground arith

conclude-refused : (n m : ℕ) → conclude refused n m ≡ none
unfolding conclude
conclude-refused n m = refl

walk-agree :
    (fuel : ℕ) (xs ys : List ℕ) (ps qs : List (List ℕ)) (c d n : ℕ) (params : List RouteParam)
    → length ps < fuel
    → AreSegments ps
    → AreSegments qs
    → At xs c (render ps)
    → At ys d (render qs)
    → conclude (walk fuel (view xs) (view ys) c d n params) (length xs) (length ys)
      ≡ agree ps qs n params
unfolding walk agree
walk-agree zero xs ys ps qs c d n params f hp hq a b = absurd (omega arith)
walk-agree (suc fuel) xs ys [] [] c d n params f hp hq a b =
    ground (arith, next_segment-end xs c a, conclude-ended xs ys [] [] c d n params a b)
walk-agree (suc fuel) xs ys [] (q ∷ qs) c d n params f hp hq a b = ground (
  arith,
  next_segment-end xs c a,
  conclude-ended xs ys [] (render (q ∷ qs)) c d n params a b,
  render-cons_pos q qs,
)
walk-agree (suc fuel) xs ys (p ∷ ps) [] c d n params f hp hq a b = ground (
  arith,
  next_segment-At xs c p ps hp a,
  next_segment-end ys d b,
  conclude-ended xs ys (render ps) [] (c + 1 + length p) d n params (At-next xs c p ps a) b,
  length-render_zero ps,
)
walk-agree (suc fuel) xs ys (p ∷ ps) (q ∷ qs) c d n params f hp hq a b =
    let hp' = AreSegments-tail p ps hp in
    let hq' = AreSegments-tail q qs hq in
    let a' = At-next xs c p ps a in
    let b' = At-next ys d q qs b in
    let ih = λ (m : ℕ) (prs : List RouteParam).
      walk-agree fuel xs ys ps qs (c + 1 + length p) (d + 1 + length q) m prs (omega arith) hp' hq'
        a' b' in
    elim (Step-cases (match_segment (view p) (view q) (length params))) [
      | refuses e ↦ ground (
        arith,
        next_segment-At xs c p ps hp a,
        next_segment-At ys d q qs hq b,
        e,
        conclude-refused (length xs) (length ys),
      )
      | binds x e ↦ ground (
        arith,
        next_segment-At xs c p ps hp a,
        next_segment-At ys d q qs hq b,
        e,
        ih n (params ++ x ∷ []),
      )
      | literals e ↦ ground (
        arith,
        next_segment-At xs c p ps hp a,
        next_segment-At ys d q qs hq b,
        e,
        ih (n + 1) params,
      )
    ]

length-le-render : (ss : List (List ℕ)) → length ss ≤ length (render ss)
length-le-render [] = omega arith
length-le-render (s ∷ ss) = omega (arith, length-le-render ss, length-append s (render ss))

same-root : (t : List ℕ) → 0 < length t → same (b'/' ∷ t) (codes "/") ≡ false
unfolding same
same-root [] h = absurd (omega arith)
same-root (c ∷ t) h = refl

-- A path with a segment is not the root.
not_root :
    (s : List ℕ) (ss : List (List ℕ))
    → AreSegments (s ∷ ss)
    → equal (view (render (s ∷ ss))) (view (codes "/")) ≡ false
not_root s ss h =
    equal-view (b'/' ∷ (s ++ render ss)) (codes "/")
    ∙ same-root (s ++ render ss) (render-pos s ss h)

valid_path-slash : (t : List ℕ) → valid_path (some (b'/' ∷ t)) ≡ true
unfolding valid_path
valid_path-slash t = refl

-- `router_path_matches` on two paths that have segments is the run over those segments: the fuel is enough.
pub path_matches-agree :
    (p : List ℕ) (ps : List (List ℕ)) (q : List ℕ) (qs : List (List ℕ))
    → AreSegments (p ∷ ps)
    → AreSegments (q ∷ qs)
    → path_matches (some (render (p ∷ ps))) (some (render (q ∷ qs))) ≡ agree (p ∷ ps) (q ∷ qs) 0 []
unfolding path_matches from_cstr
path_matches-agree p ps q qs hp hq =
    let xs = render (p ∷ ps) in
    let ys = render (q ∷ qs) in
    ground (
      arith,
      not_root p ps hp,
      not_root q qs hq,
      valid_path-slash (p ++ render ps),
      valid_path-slash (q ++ render qs),
      walk-agree (suc (length xs)) xs ys (p ∷ ps) (q ∷ qs) 0 0 0 []
          (omega (arith, length-le-render (p ∷ ps))) hp hq (At-start xs) (At-start ys),
    )
