-- ===== src/Router/Effect.antt =====
-- router_dispatch of src/routing/router.c: what it does to the context.
use ceasy.Prelude.{
  ℕ, ◌≡◌, ◌⊎◌, refl, ap, sym, Bool, true, false, none, some, List, [], arith, Option-cases,
  Bool-cases, inl, inr,
}
use mathlib.Core.Path.{subst}
use ceasy.HttpMethod.{parse_cstr}
use ceasy.Router.{
  RouterRoute, Router, Context, Best, RouterResult, dispatched, find, run_route, dispatch,
}
use ceasy.Router.Find.{IsBest, find-IsBest}
use ceasy.Router.Dispatch.{routed, dispatch-some}
use ceasy.Router.Guarded.{Twins, dispatch-missed, dispatch-Twins}

module _ {S : Type 0} where
  -- The handler of the route has run.
  abbrev pub Handled : RouterRoute S → Context S → Context S → Type 0
  Handled route before after =
      ((h : Context S → Context S) × (route.handler ≡ some h) × (after ≡ h before))
      ⊎ ((route.handler ≡ none) × (after ≡ before))

  -- What a route does: without a guard the handler runs; behind a guard that lets the request pass it
  -- runs on the context that the guard leaves; a guard that refuses leaves its context.
  abbrev pub Runs : RouterRoute S → Context S → Context S → Type 0
  Runs route before after =
      ((route.guard ≡ none) × Handled route before after)
      ⊎ ((g : Context S → Bool × Context S) × (route.guard ≡ some g)
          × ((((g before).0 ≡ true) × Handled route (g before).1 after)
              ⊎ (((g before).0 ≡ false) × (after ≡ (g before).1))))

  -- The result and the context that a choice of a route leads to.
  abbrev pub Leads : Context S → List ℕ → Best S → RouterResult × Context S → Type 0
  Leads context path none (result, after) = after ≡ routed context path []
  Leads context path (some (route, n, params)) (result, after) =
      (result ≡ dispatched) × Runs route (routed context path params) after

  Handled-handler :
      (route : RouterRoute S) (before : Context S)
      → Handled route before (elim route.handler [ none ↦ before | some h ↦ h before ])
  Handled-handler route before = elim (Option-cases route.handler) [
    | inl e ↦ inr (e, ground (arith, e))
    | inr (h, e) ↦ inl (h, e, ground (arith, e))
  ]

  run_route-Runs :
      (route : RouterRoute S) (before : Context S) → Runs route before (run_route route before)
  unfolding run_route
  run_route-Runs route before = elim (Option-cases route.guard) [
    | inl e ↦
        inl (e, subst (Handled route before) (ground (arith, e)) (Handled-handler route before))
    | inr (g, e) ↦ inr (
      g,
      e,
      elim (Bool-cases (g before).0) [
        | inl passed ↦ inl (
          passed,
          subst (Handled route (g before).1) (ground (arith, e, passed))
              (Handled-handler route (g before).1),
        )
        | inr refused ↦ inr (refused, ground (arith, e, refused))
      ],
    )
  ]

  dispatch-Leads :
      (router : Router S) (method path : List ℕ) (context : Context S) (best : Best S)
      → find router (parse_cstr (some method)) (some path) ≡ best
      → Leads context path best (dispatch router (some method) (some path) context)
  dispatch-Leads router method path context none e =
      ap (λ (p : RouterResult × Context S). p.1) (dispatch-missed context path router method e)
  dispatch-Leads router method path context (some (r, n, ps)) e =
      subst (Leads context path (some (r, n, ps)))
        (sym (dispatch-some router method path context r n ps e))
        (refl, run_route-Runs r (routed context path ps))

  -- router_dispatch, for a method and a path that are not NULL. Where a route with the method matches,
  -- it runs the first of those with the most literal segments, with the parameters of the match in the
  -- context: without a guard the handler runs; behind a guard that lets the request pass it runs on the
  -- context that the guard leaves; a guard that refuses leaves its context, and no handler runs. Where
  -- no route fits, the context gets the path and no parameters. And a table whose routes have the same
  -- methods and patterns gives the same, result and context, if its guards and handlers are the same,
  -- but for the handlers of routes whose guards refuse, and but for guards, left out, that let the
  -- request pass and leave the context as it is.
  pub dispatch-Effect :
      (router other : Router S) (method path : List ℕ) (context : Context S)
      → Twins context path router.routes other.routes
      → ((best : Best S) × IsBest (parse_cstr (some method)) (some path) router.routes best
          × Leads context path best (dispatch router (some method) (some path) context))
        × (dispatch other (some method) (some path) context
            ≡ dispatch router (some method) (some path) context)
  dispatch-Effect router other method path context twins =
      let best = find router (parse_cstr (some method)) (some path) in
      (
        (
          best,
          find-IsBest (parse_cstr (some method)) (some path) router,
          dispatch-Leads router method path context best refl,
        ),
        sym (dispatch-Twins context path router other method twins),
      )
