-- ===== src/Router/Table.antt =====
-- router_add_guarded of src/routing/router.c, and the functions that call it: what the table holds.
use ceasy.Prelude.{
  All, All-append, ℕ, ◌≤◌, ◌<◌, ◌≡◌, ◌≢◌, ◌↔◌, refl, Bool, true, false, not, Option, none, some,
  List, [], ◌∷◌, ◌++◌, arith, leb, if◌then◌else◌, Bool-cases, inl, inr, length, length-append, ◌||◌,
}
use ceasy.HttpMethod.{HttpMethod, unknown, method_eq}
use ceasy.RoutePath.{valid_path}
use ceasy.Router.{RouterRoute, Router, Context, max_routes, init, add_guarded}

module _ {S : Type 0} where
  -- What the table holds: at most ROUTER_MAX_ROUTES routes, each with a path that begins with a
  -- slash, a known method and a handler.
  pub record IsRoute (route : RouterRoute S) : Type 0 where
    pub has_path : valid_path route.path ≡ true
    pub has_method : method_eq route.method unknown ≡ false
    pub has_handler : route.handler ≢ none

  pub record IsValid (router : Router S) : Type 0 where
    pub fits : length router.routes ≤ max_routes
    pub each : All IsRoute router.routes

  pub init-IsValid : IsValid init
  unfolding init
  init-IsValid = record { fits = omega arith; each = tt }

  abbrev pub entry :
      HttpMethod
      → Option (List ℕ)
      → Option (Context S → Bool × Context S)
      → Option (Context S → Context S)
      → RouterRoute S
  entry method path guard handler = record {
    path = path;
    method = method;
    handler = handler;
    guard = guard;
  }

  -- What a call that returns `done` has done to the table.
  abbrev pub Added : Router S → RouterRoute S → Bool × Router S → Type 0
  Added router route (done, router') =
      ((done ≡ true) ↔ (IsRoute route × (length router.routes < max_routes)))
      × (router'.routes ≡ (if done then router.routes ++ route ∷ [] else router.routes))
      × IsValid router'

  rejected :
      (router : Router S) (route : RouterRoute S)
      → IsValid router
      → ¬ (IsRoute route × (length router.routes < max_routes))
      → Added router route (false, router)
  rejected router route v n = ((λ h. cc, λ h. absurd (n h)), refl, v)

  accepted :
      (router : Router S) (route : RouterRoute S)
      → IsValid router
      → IsRoute route
      → length router.routes < max_routes
      → Added router route (true, record { routes = router.routes ++ route ∷ [] })
  accepted router route v r room = (
    (λ h. (r, room), λ h. refl),
    refl,
    record {
      fits = omega (arith, length-append router.routes (route ∷ []));
      each = All-append IsRoute router.routes (route ∷ []) v.each (r, tt);
    },
  )

  -- On a valid table `router_add_guarded` succeeds exactly for a path that begins with a slash, a
  -- known method, a handler, and room in the table. It then appends exactly that route; otherwise
  -- the table stays as it was. Either way the table stays valid.
  pub add_guarded_lem :
      (router : Router S) (method : HttpMethod) (path : Option (List ℕ))
      (guard : Option (Context S → Bool × Context S)) (handler : Option (Context S → Context S))
      → IsValid router
      → Added router
          (entry method path guard handler)
          (add_guarded router method path guard handler)
  unfolding add_guarded
  add_guarded_lem router method path guard none v =
      rejected router (entry method path guard none) v (λ p. p.0.has_handler refl)
  add_guarded_lem router method path guard (some h) v =
      elim (Bool-cases (
        method_eq method unknown
        || not (valid_path path)
        || leb max_routes (length router.routes))) [
          | inl e ↦ rw e (
              rejected router (entry method path guard (some h)) v (λ p.
                let a = p.0.has_path in let b = p.0.has_method in let c = p.1 in ground arith))
          | inr e ↦ rw e (
              accepted router (entry method path guard (some h)) v
                (record {
                  has_path = ground arith;
                  has_method = ground arith;
                  has_handler = λ z. cc;
                })
                (ground arith))
        ]
