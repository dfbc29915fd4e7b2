-- ===== src/Router/Dispatch.antt =====
-- router_dispatch of src/routing/router.c.
use ceasy.Prelude.{
  All, ℕ, ◌≡◌, ◌≢◌, ◌⊎◌, refl, ap, sym, true, false, Option, none, some, List, [], ◌∷◌, ◌++◌, arith,
  if◌then◌else◌, Option-cases, Bool-cases, inl, inr,
}
use mathlib.Core.Path.{subst}
use ceasy.HttpMethod.{HttpMethod, parse_cstr}
use ceasy.StringView.{from_cstr}
use ceasy.RoutePath.{RouteParam, path_matches}
use ceasy.Router.{
  RouterRoute, Router, Context, Best, RouterResult, not_found, method_not_allowed, dispatched, find,
  any_matches, path_exists, run_route, dispatch,
}
use ceasy.Router.Find.{candidate, IsBest, find-IsBest}

abbrev pub AnyOf : {A : Type 0} → (A → Type 0) → List A → Type 0
AnyOf P [] = ⊥
AnyOf P (x ∷ xs) = P x ⊎ AnyOf P xs

AnyOf-append :
    {A : Type 0} (P : A → Type 0) (xs : List A) (y : A) (ys : List A) → P y → AnyOf P (xs ++ y ∷ ys)
AnyOf-append P [] y ys p = inl p
AnyOf-append P (x ∷ xs) y ys p = inr (AnyOf-append P xs y ys p)

module _ {S : Type 0} where
  -- The route's pattern matches the path, for whatever method.
  abbrev pub MatchesPath : Option (List ℕ) → RouterRoute S → Type 0
  MatchesPath path route = path_matches route.path path ≢ none

  any_matches-AnyOf :
      (path : Option (List ℕ)) (routes : List (RouterRoute S))
      → any_matches path routes ≡ true
      → AnyOf (MatchesPath path) routes
  unfolding any_matches
  any_matches-AnyOf path [] h = ground arith
  any_matches-AnyOf path (r ∷ routes) h = elim (Option-cases (path_matches r.path path)) [
    | inl e ↦ inr (any_matches-AnyOf path routes (ground (arith, e)))
    | inr (m, e) ↦ inl (λ n. cc)
  ]

  any_matches-All :
      (path : Option (List ℕ)) (routes : List (RouterRoute S))
      → any_matches path routes ≡ false
      → All (λ (r : RouterRoute S). path_matches r.path path ≡ none) routes
  unfolding any_matches
  any_matches-All path [] h = tt
  any_matches-All path (r ∷ routes) h = elim (Option-cases (path_matches r.path path)) [
    | inl e ↦ (e, any_matches-All path routes (ground (arith, e)))
    | inr (m, e) ↦ absurd (ground (arith, e))
  ]

  -- What each result of a dispatch says of the routes.
  abbrev pub Meaning : List (RouterRoute S) → HttpMethod → Option (List ℕ) → RouterResult → Type 0
  Meaning routes method path dispatched = AnyOf (λ r. candidate method path r ≢ none) routes
  Meaning routes method path method_not_allowed =
      All (λ r. candidate method path r ≡ none) routes × AnyOf (MatchesPath path) routes
  Meaning routes method path not_found =
      All (λ (r : RouterRoute S). path_matches r.path path ≡ none) routes

  -- The test behind a search that found nothing.
  missed-Meaning :
      (router : Router S) (method : HttpMethod) (path : List ℕ)
      → All (λ r. candidate method (some path) r ≡ none) router.routes
      → Meaning router.routes method
          (some path)
          (if path_exists router (some path) then method_not_allowed else not_found)
  unfolding path_exists
  missed-Meaning router method path h = elim (Bool-cases (any_matches (some path) router.routes)) [
    | inl e ↦ rw e (h, any_matches-AnyOf (some path) router.routes e)
    | inr e ↦ rw e (any_matches-All (some path) router.routes e)
  ]

  -- The context that a route gets.
  abbrev pub routed : Context S → List ℕ → List RouteParam → Context S
  routed context path params = record context {
    route_params = params;
    path = from_cstr (some path);
  }

  pub dispatch-some :
      (router : Router S) (method path : List ℕ) (context : Context S) (r : RouterRoute S) (n : ℕ)
      (ps : List RouteParam)
      → find router (parse_cstr (some method)) (some path) ≡ some (r, n, ps)
      → dispatch router (some method) (some path) context
        ≡ (dispatched, run_route r (routed context path ps))
  unfolding dispatch
  dispatch-some router method path context r n ps e = ground (arith, e)

  dispatch-none :
      (router : Router S) (method path : List ℕ) (context : Context S)
      → find router (parse_cstr (some method)) (some path) ≡ none
      → (dispatch router (some method) (some path) context).0
        ≡ (if path_exists router (some path) then method_not_allowed else not_found)
  unfolding dispatch
  dispatch-none router method path context e = ground (arith, e)

  dispatch_found :
      (router : Router S) (method path : List ℕ) (context : Context S) (best : Best S)
      → IsBest (parse_cstr (some method)) (some path) router.routes best
      → find router (parse_cstr (some method)) (some path) ≡ best
      → Meaning router.routes
          (parse_cstr (some method))
          (some path)
          (dispatch router (some method) (some path) context).0
  dispatch_found router method path context none h e =
      subst (Meaning router.routes (parse_cstr (some method)) (some path))
        (sym (dispatch-none router method path context e))
        (missed-Meaning router (parse_cstr (some method)) path h)
  dispatch_found router method path context (some (r, n, ps)) (before, after, split, c, hb, ha) e =
      subst (Meaning router.routes (parse_cstr (some method)) (some path))
        (sym (ap (λ p. p.0) (dispatch-some router method path context r n ps e)))
        (rw split (
          AnyOf-append (λ q. candidate (parse_cstr (some method)) (some path) q ≢ none) before r
            after (λ z. cc)))

  -- For a method and a path that are not NULL the result of `router_dispatch` is ROUTER_DISPATCHED only if a route with the request's method
  -- matches, ROUTER_METHOD_NOT_ALLOWED only if none does while one of another method matches the
  -- path, and ROUTER_NOT_FOUND only if no route matches the path.
  pub dispatch-Meaning :
      (router : Router S) (method path : List ℕ) (context : Context S)
      → Meaning router.routes
          (parse_cstr (some method))
          (some path)
          (dispatch router (some method) (some path) context).0
  dispatch-Meaning router method path context =
      dispatch_found router method path context (find router (parse_cstr (some method)) (some path))
        (find-IsBest (parse_cstr (some method)) (some path) router) refl
