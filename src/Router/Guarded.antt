-- ===== src/Router/Guarded.antt =====
-- router_dispatch of src/routing/router.c: what the guards of the routes decide.
use ceasy.Prelude.{
  ℕ, ◌≡◌, ◌⊎◌, refl, ap, sym, ◌∙◌, Bool, true, false, none, some, List, [], ◌∷◌, arith, ltb,
  if◌then◌else◌, Option-cases, Bool-cases, inl, inr,
}
use ceasy.HttpMethod.{HttpMethod, parse_cstr}
use ceasy.RoutePath.{RouteParam}
use ceasy.Router.{
  RouterRoute, Router, Context, Best, not_found, method_not_allowed, dispatched, consider,
  find_from, find, any_matches, path_exists, run_route, dispatch,
}
use ceasy.Router.Find.{candidate, consider-none, consider-first, consider-next}
use ceasy.Router.Dispatch.{routed, dispatch-some}

module _ {S : Type 0} (context : Context S) (path : List ℕ) where
  -- The guard of the route refuses the request, whatever the parameters are.
  abbrev pub Refuses : RouterRoute S → Type 0
  Refuses route =
      (g : Context S → Bool × Context S) × (route.guard ≡ some g)
      × ((ps : List RouteParam) → (g (routed context path ps)).0 ≡ false)

  -- It lets the request pass, and leaves the context as it is.
  abbrev pub Passes : RouterRoute S → Type 0
  Passes route =
      (g : Context S → Bool × Context S) × (route.guard ≡ some g)
      × ((ps : List RouteParam) → g (routed context path ps) ≡ (true, routed context path ps))

  -- The guards of two routes with the same method and the same pattern, and their handlers: both are
  -- the same; or the guards are the same and refuse, with any two handlers; or the handlers are the
  -- same, one guard lets the request pass, and the other route has no guard.
  abbrev pub Guarded : RouterRoute S → RouterRoute S → Type 0
  Guarded r q =
      ((r.guard ≡ q.guard) × (r.handler ≡ q.handler))
      ⊎ ((Refuses r × (r.guard ≡ q.guard))
          ⊎ (Passes r × (q.guard ≡ none) × (r.handler ≡ q.handler)))

  abbrev pub Twin : RouterRoute S → RouterRoute S → Type 0
  Twin r q = (r.path ≡ q.path) × (r.method ≡ q.method) × Guarded r q

  abbrev pub Twins : List (RouterRoute S) → List (RouterRoute S) → Type 0
  Twins [] [] = Unit
  Twins (r ∷ rs) (q ∷ qs) = Twin r q × Twins rs qs
  Twins [] (q ∷ qs) = ⊥
  Twins (r ∷ rs) [] = ⊥

  run_route-Guarded :
      (r q : RouterRoute S) (ps : List RouteParam)
      → Guarded r q
      → run_route r (routed context path ps) ≡ run_route q (routed context path ps)
  unfolding run_route
  run_route-Guarded r q ps (inl (guards, handlers)) = ground (arith, guards, handlers)
  run_route-Guarded r q ps (inr (inl ((g, e, refuses), guards))) =
      ground (arith, guards, e, refuses ps)
  run_route-Guarded r q ps (inr (inr ((g, e, passes), free, handlers))) =
      ground (arith, handlers, e, passes ps, free)

  -- The same choice, up to the twin of the route.
  abbrev TwinBest : Best S → Best S → Type 0
  TwinBest none none = Unit
  TwinBest (some (r, n, ps)) (some (q, m, qs)) = Twin r q × (n ≡ m) × (ps ≡ qs)
  TwinBest none (some b) = ⊥
  TwinBest (some b) none = ⊥

  module _ (method : HttpMethod) where
    candidate-Twin :
        (r q : RouterRoute S)
        → Twin r q
        → candidate method (some path) r ≡ candidate method (some path) q
    candidate-Twin r q (p, m, g) = rw (p, m)

    consider-TwinBest :
        (best other : Best S) (r q : RouterRoute S)
        → TwinBest best other
        → Twin r q
        → TwinBest (consider method (some path) best r) (consider method (some path) other q)
    consider-TwinBest best other r q b t = elim (Option-cases (candidate method (some path) r)) [
      | inl e ↦
          rw
            (
              consider-none method (some path) best r e,
              consider-none method (some path) other q (sym (candidate-Twin r q t) ∙ e),
            )
            b
      | inr ((n, ps), e) ↦ fitting best other b n ps e (sym (candidate-Twin r q t) ∙ e)
    ]
      where
        fitting :
            (best other : Best S)
            → TwinBest best other
            → (n : ℕ) (ps : List RouteParam) → candidate method (some path) r ≡ some (n, ps)
            → candidate method (some path) q ≡ some (n, ps)
            → TwinBest (consider method (some path) best r) (consider method (some path) other q)
        fitting none none b n ps e f =
            rw
              (
                consider-first method (some path) r n ps e,
                consider-first method (some path) q n ps f,
              )
              (t, refl, refl)
        fitting (some (r', k, ks)) (some (q', j, js)) (t', counts, params) n ps e f =
            rw
              (
                consider-next method (some path) r' k ks r n ps e,
                consider-next method (some path) q' j js q n ps f,
                sym counts,
              )
              (elim (Bool-cases (ltb k n)) [
                | inl more ↦ rw more (t, refl, refl)
                | inr less ↦ rw less (t', refl, params)
              ])
        fitting none (some x) b n ps e f = absurd b
        fitting (some x) none b n ps e f = absurd b

    find_from-TwinBest :
        (best other : Best S) (rs qs : List (RouterRoute S))
        → TwinBest best other
        → Twins rs qs
        → TwinBest (find_from method (some path) best rs) (find_from method (some path) other qs)
    unfolding find_from
    find_from-TwinBest best other [] [] b ts = b
    find_from-TwinBest best other (r ∷ rs) (q ∷ qs) b (t, ts) =
        find_from-TwinBest (consider method (some path) best r)
          (consider method (some path) other q) rs qs (consider-TwinBest best other r q b t) ts
    find_from-TwinBest best other [] (q ∷ qs) b ts = absurd ts
    find_from-TwinBest best other (r ∷ rs) [] b ts = absurd ts

  any_matches-Twins :
      (rs qs : List (RouterRoute S))
      → Twins rs qs
      → any_matches (some path) rs ≡ any_matches (some path) qs
  unfolding any_matches
  any_matches-Twins [] [] ts = refl
  any_matches-Twins (r ∷ rs) (q ∷ qs) ((p, m, g), ts) =
      ground (arith, p, any_matches-Twins rs qs ts)
  any_matches-Twins [] (q ∷ qs) ts = absurd ts
  any_matches-Twins (r ∷ rs) [] ts = absurd ts

  pub dispatch-missed :
      (router : Router S) (method : List ℕ)
      → find router (parse_cstr (some method)) (some path) ≡ none
      → dispatch router (some method) (some path) context ≡ (
        (if any_matches (some path) router.routes then method_not_allowed else not_found),
        routed context path [],
      )
  unfolding dispatch path_exists
  dispatch-missed router method e = ground (arith, e)

  dispatch-TwinBest :
      (router other : Router S) (method : List ℕ) (best best' : Best S)
      → Twins router.routes other.routes
      → TwinBest best best'
      → find router (parse_cstr (some method)) (some path) ≡ best
      → find other (parse_cstr (some method)) (some path) ≡ best'
      → dispatch router (some method) (some path) context
        ≡ dispatch other (some method) (some path) context
  dispatch-TwinBest router other method none none ts b e f =
      dispatch-missed router method e
      ∙ ap
          (λ (found : Bool).
            ((if found then method_not_allowed else not_found), routed context path []))
          (any_matches-Twins router.routes other.routes ts)
      ∙ sym (dispatch-missed other method f)
  dispatch-TwinBest router other method (some (r, n, ps)) (some (q, m, qs)) ts
        ((p, k, g), counts, params) e f =
      dispatch-some router method path context r n ps e
      ∙ ap (λ (c : Context S). (dispatched, c))
          (run_route-Guarded r q ps g ∙ ap (λ xs. run_route q (routed context path xs)) params)
      ∙ sym (dispatch-some other method path context q m qs f)
  dispatch-TwinBest router other method none (some x) ts b e f = absurd b
  dispatch-TwinBest router other method (some x) none ts b e f = absurd b

  -- Two such tables give the same.
  pub dispatch-Twins :
      (router other : Router S) (method : List ℕ)
      → Twins router.routes other.routes
      → dispatch router (some method) (some path) context
        ≡ dispatch other (some method) (some path) context
  unfolding find
  dispatch-Twins router other method ts =
      dispatch-TwinBest router other method (find router (parse_cstr (some method)) (some path))
        (find other (parse_cstr (some method)) (some path)) ts
        (find_from-TwinBest (parse_cstr (some method)) none none router.routes other.routes tt ts)
        refl refl
