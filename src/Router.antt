-- ===== src/Router.antt =====
-- src/routing/router.c: the route table, the choice of a route, and dispatch.
-- A handler and a guard are functions on the context, of which the router itself reads and writes the
-- route parameters and the request's path; the rest of it is the type `S`. A NULL handler or guard is
-- `none`, and so is a NULL C string.
pub mod Find
pub mod Dispatch
pub mod Guarded
pub mod Effect
pub mod Table
mod Tests
use ceasy.Prelude.{
  ℕ, zero, suc, ◌+◌, ◌-◌, Bool, true, false, not, ◌&&◌, ◌||◌, Option, none, some, List, [], ◌∷◌,
  ◌++◌, ltb, leb, ◌==◌, if◌then◌else◌, length, get_elem?, codes,
}
use ceasy.StringView.{
  StringView, view, size, bytes_of, zeroed, equal, from_cstr, find_char, from, slice,
}
use ceasy.HttpMethod.{HttpMethod, unknown, get, post, patch, delete, method_eq, parse_cstr}
use ceasy.RoutePath.{RouteParam, valid_path, path_matches}

abbrev pub max_routes : ℕ
max_routes = 128

pub record Context (S : Type 0) : Type 0 where
  pub route_params : List RouteParam
  pub path : StringView
  pub rest : S

pub record RouterRoute (S : Type 0) : Type 0 where
  pub path : Option (List ℕ)
  pub method : HttpMethod
  pub handler : Option (Context S → Context S)
  pub guard : Option (Context S → Bool × Context S)

-- `routes[0 .. route_count)`.
pub record Router (S : Type 0) : Type 0 where
  pub routes : List (RouterRoute S)

pub data RouterResult : Type 0 where
  not_found method_not_allowed dispatched : RouterResult

-- The best match so far in router_find: the route, its literal segments, its parameters.
abbrev pub Best : Type 0 → Type 0
Best S = Option (RouterRoute S × ℕ × List RouteParam)

module _ {S : Type 0} where
  -- router_init, and router_reset, which calls it.
  pub init : Router S
  init = record { routes = [] }

  -- router_add_guarded; router_add passes no guard.
  pub add_guarded :
      Router S
      → HttpMethod
      → Option (List ℕ)
      → Option (Context S → Bool × Context S)
      → Option (Context S → Context S)
      → Bool × Router S
  add_guarded router method path guard handler = elim handler [
    | none ↦ (false, router)
    | some h ↦
        if method_eq method unknown
          || not (valid_path path)
          || leb max_routes (length router.routes)
        then (false, router)
        else (
          true,
          record {
            routes =
                router.routes
                ++ record { path = path; method = method; handler = some h; guard = guard } ∷ [];
          },
        )
  ]

  pub add :
      Router S → HttpMethod → Option (List ℕ) → Option (Context S → Context S) → Bool × Router S
  unfolding add_guarded
  add router method path handler = add_guarded router method path none handler

  pub route_get : Router S → Option (List ℕ) → Option (Context S → Context S) → Bool × Router S
  unfolding add
  route_get router path handler = add router get path handler

  pub route_post : Router S → Option (List ℕ) → Option (Context S → Context S) → Bool × Router S
  unfolding add
  route_post router path handler = add router post path handler

  pub route_patch : Router S → Option (List ℕ) → Option (Context S → Context S) → Bool × Router S
  unfolding add
  route_patch router path handler = add router patch path handler

  pub route_delete : Router S → Option (List ℕ) → Option (Context S → Context S) → Bool × Router S
  unfolding add
  route_delete router path handler = add router delete path handler

  -- One round of the loop of router_find.
  pub consider : HttpMethod → Option (List ℕ) → Best S → RouterRoute S → Best S
  consider method path best route =
      if not (method_eq route.method method) then best else elim (path_matches route.path path) [
        | none ↦ best
        | some (static_count, params) ↦ elim best [
          | none ↦ some (route, static_count, params)
          | some (best_route, best_static_count, best_params) ↦
              if ltb best_static_count static_count
              then some (route, static_count, params)
              else some (best_route, best_static_count, best_params)
        ]
      ]

  pub find_from : HttpMethod → Option (List ℕ) → Best S → List (RouterRoute S) → Best S
  unfolding consider
  find_from method path best [] = best
  find_from method path best (route ∷ routes) =
      find_from method path (consider method path best route) routes

  -- router_find
  pub find : Router S → HttpMethod → Option (List ℕ) → Best S
  find router method path = find_from method path none router.routes

  -- The loop of router_path_exists.
  pub any_matches : Option (List ℕ) → List (RouterRoute S) → Bool
  any_matches path [] = false
  any_matches path (route ∷ routes) =
      let rest = any_matches path routes in
      elim (path_matches route.path path) [ none ↦ rest | some m ↦ true ]

  pub path_exists : Router S → Option (List ℕ) → Bool
  path_exists router none = false
  path_exists router (some path) = any_matches (some path) router.routes

  -- `route->guard == NULL || route->guard(context)`, then the handler.
  pub run_route : RouterRoute S → Context S → Context S
  run_route route context =
      let (allowed, context') : Bool × Context S = elim route.guard [
        | none ↦ (true, context)
        | some g ↦ g context
      ] in
      if allowed then elim route.handler [ none ↦ context' | some h ↦ h context' ] else context'

  -- router_dispatch, on a router and a context that are not NULL.
  pub dispatch : Router S → Option (List ℕ) → Option (List ℕ) → Context S → RouterResult × Context S
  unfolding run_route
  dispatch router none path context = (not_found, context)
  dispatch router (some method) none context = (not_found, context)
  dispatch router (some method) (some path) context =
      let context' = record context { route_params = []; path = from_cstr (some path) } in
      elim (find router (parse_cstr (some method)) (some path)) [
        | some (route, static_count, params) ↦
            (dispatched, run_route route (record context' { route_params = params }))
        | none ↦
            (if path_exists router (some path) then method_not_allowed else not_found, context')
      ]
