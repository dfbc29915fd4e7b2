-- ===== src/RoutePath/Match/Pairs.antt =====
-- What router_path_matches of src/routing/router.c decides: which patterns match which paths.
use ceasy.Prelude.{
  ℕ, zero, suc, ◌+◌, ◌≤◌, ◌<◌, ◌≡◌, ◌↔◌, refl, ap, sym, ◌∙◌, Bool, false, none, some, List, [], ◌∷◌,
  ◌++◌, append-nil, append_assoc, arith, Bool-cases, leb, length, length-append, if◌then◌else◌,
  ◌==◌, ◌||◌, ==_iff, inl, inr,
}
use mathlib.Core.Path.{subst}
use ceasy.StringView.{view}
use ceasy.StringView.Bytes.{same}
use ceasy.StringView.Text.{equal-view, from-view, same_sound, same_self}
use ceasy.RoutePath.{
  RouteParam, match_segment, refuse, bind, literal, max_route_params, path_matches,
}
use ceasy.RoutePath.Segment.{render, AreSegments}
use ceasy.RoutePath.Match.{agree, path_matches-agree}

-- The segment is a parameter.
abbrev pub starts_colon : List ℕ → Bool
starts_colon [] = false
starts_colon (c ∷ cs) = c == b':'

-- The pattern's segments match the path's one by one, with `n` equal segments and the parameters: a
-- segment `:name` takes any segment that is not empty, any other only itself.
pub data Pairs : List (List ℕ) → List (List ℕ) → ℕ → List RouteParam → Type 0 where
  done : Pairs [] [] zero []
  param :
      {ps qs : List (List ℕ)} {n : ℕ} {params : List RouteParam} (p q name : List ℕ)
      (x : RouteParam)
      → p ≡ b':' ∷ name
      → x ≡ record { name = view name; value = view q }
      → 0 < length name
      → 0 < length q
      → Pairs ps qs n params
      → Pairs (p ∷ ps) (q ∷ qs) n (x ∷ params)
  equal_to :
      {ps qs : List (List ℕ)} {n : ℕ} {params : List RouteParam} (p q : List ℕ)
      → starts_colon p ≡ false
      → p ≡ q
      → Pairs ps qs n params
      → Pairs (p ∷ ps) (q ∷ qs) (suc n) params

match_segment-param :
    (name q : List ℕ) (k : ℕ)
    → match_segment (view (b':' ∷ name)) (view q) k ≡ (
        if length q == 0 || length name == 0 || leb max_route_params k
        then refuse
        else bind (record { name = view name; value = view q }))
unfolding match_segment
match_segment-param name q k = ground (arith, from-view (b':' ∷ name) 1 (omega arith))

match_segment-literal :
    (p q : List ℕ) (k : ℕ)
    → starts_colon p ≡ false
    → match_segment (view p) (view q) k ≡ (if same p q then literal else refuse)
unfolding match_segment
match_segment-literal [] q k h = ground (arith, equal-view [] q)
match_segment-literal (c ∷ cs) q k h = ground (arith, equal-view (c ∷ cs) q)

-- A segment is a parameter with a name, or it is not a parameter.
data Kind (p : List ℕ) : Type 0 where
  parameter : (name : List ℕ) → p ≡ b':' ∷ name → Kind p
  plain : starts_colon p ≡ false → Kind p

kind : (p : List ℕ) → Kind p
kind [] = plain refl
kind (c ∷ cs) = elim (Bool-cases (c == b':')) [
  | inl e ↦ parameter cs (ap (λ t. t ∷ cs) ((==_iff c b':').0 e))
  | inr e ↦ plain e
]

-- What a match has found behind what was collected before.
record Extends (ps qs : List (List ℕ)) (n : ℕ) (before : List RouteParam) (m : ℕ)
    (params : List RouteParam) : Type 0 where
  count : ℕ
  added : List RouteParam
  pairs : Pairs ps qs count added
  total : m ≡ n + count
  all : params ≡ before ++ added
  room : length params ≤ max_route_params

abbrev taken : List ℕ → List ℕ → RouteParam
taken name q = record { name = view name; value = view q }

agree-param :
    (ps qs : List (List ℕ)) (name q : List ℕ) (n : ℕ) (before : List RouteParam)
    → agree ((b':' ∷ name) ∷ ps) (q ∷ qs) n before ≡ (
        if length q == 0 || length name == 0 || leb max_route_params (length before)
        then none
        else agree ps qs n (before ++ taken name q ∷ []))
unfolding agree
agree-param ps qs name q n before = ground (arith, match_segment-param name q (length before))

agree-plain :
    (ps qs : List (List ℕ)) (p q : List ℕ) (n : ℕ) (before : List RouteParam)
    → starts_colon p ≡ false
    → agree (p ∷ ps) (q ∷ qs) n before ≡ (if same p q then agree ps qs (n + 1) before else none)
unfolding agree
agree-plain ps qs p q n before h = ground (arith, match_segment-literal p q (length before) h)

Extends-param :
    {ps qs : List (List ℕ)} {n : ℕ} {before : List RouteParam} {m : ℕ} {params : List RouteParam}
    (name q : List ℕ)
    → 0 < length name
    → 0 < length q
    → Extends ps qs n (before ++ taken name q ∷ []) m params
    → Extends ((b':' ∷ name) ∷ ps) (q ∷ qs) n before m params
Extends-param {before = before} name q hn hq e = record {
  count = e.count;
  added = taken name q ∷ e.added;
  pairs = param (b':' ∷ name) q name (taken name q) refl refl hn hq e.pairs;
  total = e.total;
  all = e.all ∙ append_assoc before (taken name q ∷ []) e.added;
  room = e.room;
}

Extends-plain :
    {ps qs : List (List ℕ)} {n : ℕ} {before : List RouteParam} {m : ℕ} {params : List RouteParam}
    (p q : List ℕ)
    → starts_colon p ≡ false
    → p ≡ q
    → Extends ps qs (n + 1) before m params
    → Extends (p ∷ ps) (q ∷ qs) n before m params
Extends-plain p q h pq e = record {
  count = suc e.count;
  added = e.added;
  pairs = equal_to p q h pq e.pairs;
  total = omega (arith, e.total);
  all = e.all;
  room = e.room;
}

agree_sound :
    (ps qs : List (List ℕ)) (n : ℕ) (before : List RouteParam) (m : ℕ) (params : List RouteParam)
    → length ps ≡ length qs
    → length before ≤ max_route_params
    → agree ps qs n before ≡ some (m, params)
    → Extends ps qs n before m params
agree_sound [] [] n before m params l b h =
    unfold agree in
    record {
      count = 0;
      added = [];
      pairs = done;
      total = ground arith;
      all = rw append-nil (ground arith);
      room = ground arith;
    }
agree_sound [] (q ∷ qs) n before m params l b h = absurd (omega arith)
agree_sound (p ∷ ps) [] n before m params l b h = absurd (omega arith)
agree_sound (p ∷ ps) (q ∷ qs) n before m params l b h = elim (kind p) [
  | plain e ↦ elim (Bool-cases (same p q)) [
    | inl eq ↦ Extends-plain p q e (same_sound p q eq) (
        agree_sound ps qs (n + 1) before m params (omega arith) b
          (ground (arith, agree-plain ps qs p q n before e)))
    | inr ne ↦ absurd (ground (arith, agree-plain ps qs p q n before e))
  ]
  | parameter name e ↦
      elim (Bool-cases
        (length q == 0 || length name == 0 || leb max_route_params (length before))) [
          | inl full ↦ absurd (ground (arith, agree-param ps qs name q n before))
          | inr free ↦ rw e (
              Extends-param name q (ground arith) (ground arith) (
                agree_sound ps qs n (before ++ taken name q ∷ []) m params (omega arith)
                  (ground (arith, length-append before (taken name q ∷ [])))
                  (ground (arith, agree-param ps qs name q n before))))
        ]
]

agree_complete :
    {ps qs : List (List ℕ)} {k : ℕ} {added : List RouteParam} (n : ℕ) (before : List RouteParam)
    → Pairs ps qs k added
    → length before + length added ≤ max_route_params
    → agree ps qs n before ≡ some (n + k, before ++ added)
agree_complete n before done h =
    unfold agree in rw append-nil (ap (λ k. some (k, before)) (omega arith))
agree_complete n before (param {ps} {qs} {n = k} {params = prs} p q name x ep ex hn hq r) h =
    rw (ep, ex)
      (ground (
        arith,
        agree-param ps qs name q n before,
        agree_complete n (before ++ taken name q ∷ []) r
            (omega (arith, h, length-append before (taken name q ∷ []))),
        append_assoc before (taken name q ∷ []) prs,
      ))
agree_complete n before (equal_to {ps} {qs} {n = k} {params = prs} p q hp pq r) h =
    ground
      (arith, agree-plain ps qs p q n before hp, same_self p, pq, agree_complete (n + 1) before r h)

-- On a pattern and a path that have equally many segments, at least one, and neither of which ends in
-- a slash, `router_path_matches` returns a count and parameters exactly when the segments match one by
-- one with these, and the parameters are at most CEASY_MAX_ROUTE_PARAMS.
pub path_matches_iff :
    (p : List ℕ) (ps : List (List ℕ)) (q : List ℕ) (qs : List (List ℕ)) (n : ℕ)
    (params : List RouteParam)
    → AreSegments (p ∷ ps)
    → AreSegments (q ∷ qs)
    → length ps ≡ length qs
    → (path_matches (some (render (p ∷ ps))) (some (render (q ∷ qs))) ≡ some (n, params))
      ↔ (Pairs (p ∷ ps) (q ∷ qs) n params × (length params ≤ max_route_params))
path_matches_iff p ps q qs n params hp hq l = (
  λ h. of_extends (
      agree_sound (p ∷ ps) (q ∷ qs) 0 [] n params (omega arith) (omega arith)
        (sym (path_matches-agree p ps q qs hp hq) ∙ h)),
  λ h.
      path_matches-agree p ps q qs hp hq
      ∙ agree_complete 0 [] h.0 (omega (arith, h.1))
      ∙ ap (λ k. some (k, params)) (omega arith),
)
  where
    of_extends :
        Extends (p ∷ ps) (q ∷ qs) 0 [] n params
        → Pairs (p ∷ ps) (q ∷ qs) n params × (length params ≤ max_route_params)
    of_extends e =
        let c : e.count ≡ n = omega (arith, e.total) in
        (
          subst (λ k. Pairs (p ∷ ps) (q ∷ qs) k params) c
              (subst (Pairs (p ∷ ps) (q ∷ qs) e.count) (sym e.all) e.pairs),
          e.room,
        )
