-- ===== src/RoutePath/Match/Lengths.antt =====
-- router_path_matches of src/routing/router.c, where the pattern and the path differ in their number
-- of segments.
use ceasy.Prelude.{
  ℕ, ◌+◌, ◌<◌, ◌≡◌, refl, sym, ◌∙◌, ◌⊎◌, none, some, List, [], ◌∷◌, ◌++◌, arith, length,
}
use ceasy.StringView.{view}
use ceasy.RoutePath.{RouteParam, match_segment, path_matches}
use ceasy.RoutePath.Segment.{render, AreSegments}
use ceasy.RoutePath.Match.{agree, path_matches-agree, refuses, binds, literals, Step-cases}

agree-extra :
    (ps qs : List (List ℕ)) (x : List ℕ) (n : ℕ) (before : List RouteParam)
    → length ps ≡ length qs
    → agree (ps ++ x ∷ []) qs n before ≡ agree ps qs n before
unfolding agree
agree-extra [] [] x n before l = refl
agree-extra [] (q ∷ qs) x n before l = absurd (omega arith)
agree-extra (p ∷ ps) [] x n before l = absurd (omega arith)
agree-extra (p ∷ ps) (q ∷ qs) x n before l =
    elim (Step-cases (match_segment (view p) (view q) (length before))) [
      | refuses e ↦ ground (arith, e)
      | binds y e ↦ ground (arith, e, agree-extra ps qs x n (before ++ y ∷ []) (omega arith))
      | literals e ↦ ground (arith, e, agree-extra ps qs x (n + 1) before (omega arith))
    ]

agree-none :
    (ps qs : List (List ℕ)) (n : ℕ) (before : List RouteParam)
    → (length ps < length qs) ⊎ (length qs + 1 < length ps)
    → agree ps qs n before ≡ none
unfolding agree
agree-none [] [] n before l = absurd (omega arith)
agree-none [] (q ∷ qs) n before l = refl
agree-none (p ∷ ps) [] n before l = ground arith
agree-none (p ∷ ps) (q ∷ qs) n before l =
    elim (Step-cases (match_segment (view p) (view q) (length before))) [
      | refuses e ↦ ground (arith, e)
      | binds y e ↦ ground (arith, e, agree-none ps qs n (before ++ y ∷ []) (omega arith))
      | literals e ↦ ground (arith, e, agree-none ps qs (n + 1) before (omega arith))
    ]

-- A pattern with one segment more than the path matches it exactly as the pattern without that
-- segment does, with the same count and parameters: the last segment is read and never compared. The
-- path and the shorter pattern have at least one segment each, as many as each other, and neither of
-- the two patterns nor the path ends in a slash.
pub path_matches-extra :
    (p : List ℕ) (ps : List (List ℕ)) (q : List ℕ) (qs : List (List ℕ)) (x : List ℕ)
    → AreSegments (p ∷ ps)
    → AreSegments (p ∷ ps ++ x ∷ [])
    → AreSegments (q ∷ qs)
    → length ps ≡ length qs
    → path_matches (some (render (p ∷ ps ++ x ∷ []))) (some (render (q ∷ qs)))
      ≡ path_matches (some (render (p ∷ ps))) (some (render (q ∷ qs)))
path_matches-extra p ps q qs x hp hpx hq l =
    path_matches-agree p (ps ++ x ∷ []) q qs hpx hq
    ∙ agree-extra (p ∷ ps) (q ∷ qs) x 0 [] (omega arith)
    ∙ sym (path_matches-agree p ps q qs hp hq)

-- A pattern with fewer segments than the path, or with at least two more, does not match it, where
-- both have at least one segment and neither ends in a slash.
pub path_matches-none :
    (p : List ℕ) (ps : List (List ℕ)) (q : List ℕ) (qs : List (List ℕ))
    → AreSegments (p ∷ ps)
    → AreSegments (q ∷ qs)
    → (length ps < length qs) ⊎ (length qs + 1 < length ps)
    → path_matches (some (render (p ∷ ps))) (some (render (q ∷ qs))) ≡ none
path_matches-none p ps q qs hp hq l =
    path_matches-agree p ps q qs hp hq ∙ agree-none (p ∷ ps) (q ∷ qs) 0 [] (omega arith)
