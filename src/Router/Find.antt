-- ===== src/Router/Find.antt =====
-- router_find of src/routing/router.c: the route that it chooses.
use ceasy.Prelude.{
  All, All-append, All-map, ℕ, ◌≤◌, ◌<◌, ◌≡◌, refl, Option, none, some, List, [], ◌∷◌, ◌++◌,
  append-nil, append_assoc, arith, ltb, if◌then◌else◌, Option-cases, Bool-cases, ltb→lt, inl, inr,
}
use ceasy.HttpMethod.{HttpMethod, method_eq}
use ceasy.RoutePath.{RouteParam, path_matches}
use ceasy.Router.{RouterRoute, Router, Best, consider, find_from, find}
use mathlib.Core.Path.{subst}

module _ {S : Type 0} (method : HttpMethod) (path : Option (List ℕ)) where
  -- What a route offers for this request: its literal segments and parameters, if it fits.
  abbrev pub candidate : RouterRoute S → Option (ℕ × List RouteParam)
  candidate route = if method_eq route.method method then path_matches route.path path else none

  -- The route does not fit, or has fewer than `n` literal segments, or at most `n`.
  abbrev pub Below : ℕ → RouterRoute S → Type 0
  Below n route = (m : ℕ) (ps : List RouteParam) → candidate route ≡ some (m, ps) → m < n

  abbrev pub AtMost : ℕ → RouterRoute S → Type 0
  AtMost n route = (m : ℕ) (ps : List RouteParam) → candidate route ≡ some (m, ps) → m ≤ n

  -- `best` is the right choice among `routes`: the first route with the most literal segments, or
  -- nothing where no route fits.
  abbrev pub IsBest : List (RouterRoute S) → Best S → Type 0
  IsBest routes none = All (λ route. candidate route ≡ none) routes
  IsBest routes (some (route, n, params)) =
      (before : List (RouterRoute S)) × (after : List (RouterRoute S)) × (routes
        ≡ before ++ route ∷ after)
      × (candidate route ≡ some (n, params))
      × All (Below n) before
      × All (AtMost n) after

  pub consider-none :
      (best : Best S) (r : RouterRoute S) → candidate r ≡ none → consider method path best r ≡ best
  unfolding consider
  consider-none best r h = ground arith

  pub consider-first :
      (r : RouterRoute S) (n : ℕ) (ps : List RouteParam)
      → candidate r ≡ some (n, ps)
      → consider method path none r ≡ some (r, n, ps)
  unfolding consider
  consider-first r n ps h = ground arith

  pub consider-next :
      (b : RouterRoute S) (m : ℕ) (bs : List RouteParam) (r : RouterRoute S) (n : ℕ)
      (ps : List RouteParam)
      → candidate r ≡ some (n, ps)
      → consider method path (some (b, m, bs)) r
        ≡ (if ltb m n then some (r, n, ps) else some (b, m, bs))
  unfolding consider
  consider-next b m bs r n ps h = ground arith

  IsBest-after_none :
      (seen : List (RouterRoute S)) (r : RouterRoute S)
      → IsBest seen none
      → IsBest (seen ++ r ∷ []) (consider method path none r)
  IsBest-after_none seen r h = elim (Option-cases (candidate r)) [
    | inl e ↦
        rw (consider-none none r e) (All-append (λ q. candidate q ≡ none) seen (r ∷ []) h (e, tt))
    | inr ((n, ps), e) ↦ rw (consider-first r n ps e) (
      seen,
      [],
      refl,
      e,
      All-map (λ q. candidate q ≡ none) (Below n) seen (λ q c m qs d. cc) h,
      tt,
    )
  ]

  -- A better route comes behind all that were seen.
  Below-All :
      (before after : List (RouterRoute S)) (b : RouterRoute S) (m n : ℕ) (bs : List RouteParam)
      → m < n
      → candidate b ≡ some (m, bs)
      → All (Below m) before
      → All (AtMost m) after
      → All (Below n) (before ++ b ∷ after)
  Below-All before after b m n bs lt c hb ha =
      All-append (Below n) before (b ∷ after)
        (All-map (Below m) (Below n) before (λ q h k qs e. omega (arith, h k qs e)) hb)
        (
          λ k qs e. ground (arith, e, c, lt),
          All-map (AtMost m) (Below n) after (λ q h k qs e. omega (arith, h k qs e)) ha,
        )

  IsBest-after_some :
      (seen : List (RouterRoute S)) (b : RouterRoute S) (m : ℕ) (bs : List RouteParam)
      (r : RouterRoute S)
      → IsBest seen (some (b, m, bs))
      → IsBest (seen ++ r ∷ []) (consider method path (some (b, m, bs)) r)
  IsBest-after_some seen b m bs r (before, after, split, c, hb, ha) =
      elim (Option-cases (candidate r)) [
        | inl e ↦ rw (consider-none (some (b, m, bs)) r e) (
          before,
          after ++ r ∷ [],
          longer,
          c,
          hb,
          All-append (AtMost m) after (r ∷ []) ha (λ k qs d. absurd (cc), tt),
        )
        | inr ((n, ps), e) ↦ rw (consider-next b m bs r n ps e) (elim (Bool-cases (ltb m n)) [
          | inl lt ↦ rw lt (
            seen,
            [],
            refl,
            e,
            rw split (Below-All before after b m n bs (ltb→lt m n lt) c hb ha),
            tt,
          )
          | inr ge ↦ rw ge (
            before,
            after ++ r ∷ [],
            longer,
            c,
            hb,
            All-append (AtMost m) after (r ∷ []) ha (λ k qs d. ground arith, tt),
          )
        ])
      ]
    where
      longer : seen ++ r ∷ [] ≡ before ++ (b ∷ (after ++ r ∷ []))
      longer = rw split (append_assoc before (b ∷ after) (r ∷ []))

  find_from-IsBest :
      (routes seen : List (RouterRoute S)) (best : Best S)
      → IsBest seen best
      → IsBest (seen ++ routes) (find_from method path best routes)
  unfolding find_from
  find_from-IsBest [] seen best h = rw append-nil h
  find_from-IsBest (r ∷ routes) seen best h =
      subst (λ l. IsBest l (find_from method path (consider method path best r) routes))
        (append_assoc seen (r ∷ []) routes)
        (find_from-IsBest routes (seen ++ r ∷ []) (consider method path best r)
          (IsBest-after seen best r h))
    where
      IsBest-after :
          (seen : List (RouterRoute S)) (best : Best S) (r : RouterRoute S)
          → IsBest seen best
          → IsBest (seen ++ r ∷ []) (consider method path best r)
      IsBest-after seen none r h = IsBest-after_none seen r h
      IsBest-after seen (some (b, m, bs)) r h = IsBest-after_some seen b m bs r h

  -- `router_find` returns the first of the routes with the request's method and a matching path that
  -- have the most literal segments, with its parameters, and nothing exactly where no route fits.
  pub find-IsBest : (router : Router S) → IsBest router.routes (find router method path)
  unfolding find
  find-IsBest router = find_from-IsBest router.routes [] none tt
