-- ===== src/Router/Tests.antt =====
-- Runs of the router, and the theorems about it at concrete routes.
use ceasy.Prelude.{
  ℕ, suc, ◌≤◌, ◌≡◌, ◌≢◌, ◌↔◌, refl, Bool, true, false, inl, inr, none, some, [], ◌∷◌, arith, codes,
}
use ceasy.HttpMethod.{get, post, parse_cstr}
use ceasy.StringView.{null, view, equal, from_cstr, find_char, from, slice}
use ceasy.StringView.Bytes.{same}
use ceasy.RoutePath.{
  RouteParam, path_matches, valid_path, next_segment, match_segment, segment_start, segment_length,
  walk, unfinished, max_route_params,
}
use ceasy.Router.{
  RouterRoute, Router, Context, Best, find, dispatch, init, add_guarded, consider, find_from,
}
use ceasy.RoutePath.Match.Pairs.{Pairs, path_matches_iff}
use ceasy.RoutePath.Match.Lengths.{path_matches-extra}
use ceasy.RoutePath.Match.Fuel.{walk_finishes}
use ceasy.Router.Find.{IsBest, find-IsBest}
use ceasy.Router.Dispatch.{Meaning, dispatch-Meaning}
use ceasy.Router.Guarded.{Twins}
use ceasy.Router.Effect.{Leads, dispatch-Effect}
use ceasy.Router.Table.{init-IsValid, Added, entry, add_guarded_lem}

matches_param :
    path_matches (some (codes "/posts/:id")) (some (codes "/posts/42"))
    ≡ some (1, record { name = view (codes "id"); value = view (codes "42") } ∷ [])
unfolding path_matches walk valid_path next_segment match_segment segment_start segment_length equal
    same from_cstr find_char from slice
matches_param = refl

-- `/posts` matches the pattern `/posts/:id`, with no parameter.
matches_shorter : path_matches (some (codes "/posts/:id")) (some (codes "/posts")) ≡ some (1, [])
unfolding path_matches walk valid_path next_segment match_segment segment_start segment_length equal
    same from_cstr find_char from slice
matches_shorter = refl

walk_finishes_example : walk 6 (view (codes "/a//b")) (view (codes "/a")) 0 0 0 [] ≢ unfinished
walk_finishes_example =
    walk_finishes 6 (codes "/a//b") (view (codes "/a")) 0 0 0 [] (omega arith) (omega arith)

abbrev id_param : RouteParam
id_param = record { name = view (codes "id"); value = view (codes "42") }

path_matches_iff_example :
    (path_matches (some (codes "/posts/:id")) (some (codes "/posts/42")) ≡ some (1, id_param ∷ []))
    ↔ (Pairs (codes "posts" ∷ codes ":id" ∷ []) (codes "posts" ∷ codes "42" ∷ []) 1 (id_param ∷ [])
        × (1 ≤ max_route_params))
path_matches_iff_example =
    path_matches_iff (codes "posts") (codes ":id" ∷ []) (codes "posts") (codes "42" ∷ []) 1
      (id_param ∷ []) (omega arith) (omega arith) (omega arith)

path_matches-extra_example :
    path_matches (some (codes "/posts/:id")) (some (codes "/posts"))
    ≡ path_matches (some (codes "/posts")) (some (codes "/posts"))
path_matches-extra_example =
    path_matches-extra (codes "posts") [] (codes "posts") [] (codes ":id") (omega arith)
      (omega arith) (omega arith) (omega arith)

-- A handler that counts its calls in the rest of the context, and a guard that refuses.
abbrev count : Context ℕ → Context ℕ
count c = record c { rest = suc c.rest }

abbrev deny : Context ℕ → Bool × Context ℕ
deny c = (false, c)

abbrev show : RouterRoute ℕ
show = record {
  path = some (codes "/posts/:id");
  method = get;
  handler = some count;
  guard = some deny;
}

abbrev new : RouterRoute ℕ
new = record { path = some (codes "/posts/new"); method = get; handler = some count; guard = none }

abbrev table : Router ℕ
table = record { routes = show ∷ new ∷ [] }

abbrev idle : Context ℕ
idle = record { route_params = []; path = null 0; rest = 0 }

find-IsBest_example :
    IsBest get (some (codes "/posts/new")) table.routes (find table get (some (codes "/posts/new")))
find-IsBest_example = find-IsBest get (some (codes "/posts/new")) table

dispatch-Meaning_example :
    Meaning table.routes
      (parse_cstr (some (codes "PUT")))
      (some (codes "/posts/7"))
      (dispatch table (some (codes "PUT")) (some (codes "/posts/7")) idle).0
dispatch-Meaning_example = dispatch-Meaning table (codes "PUT") (codes "/posts/7") idle

-- As `table`, with another handler behind the guard that refuses, and a guard that lets all pass.
abbrev wipe : Context ℕ → Context ℕ
wipe c = record c { rest = 0 }

abbrev allow : Context ℕ → Bool × Context ℕ
allow c = (true, c)

abbrev other_table : Router ℕ
other_table = record {
  routes = (record show { handler = some wipe }) ∷ (record new { guard = some allow }) ∷ [];
}

table-Twins : Twins idle (codes "/posts/42") other_table.routes table.routes
table-Twins = (
  (refl, refl, inr (inl ((deny, refl, λ ps. refl), refl))),
  ((refl, refl, inr (inr ((allow, refl, λ ps. refl), refl, refl))), tt),
)

show_found :
    find table (parse_cstr (some (codes "GET"))) (some (codes "/posts/42"))
    ≡ some (show, 1, id_param ∷ [])
unfolding find consider path_matches walk valid_path next_segment match_segment segment_start
    segment_length equal same from_cstr find_char from slice parse_cstr find_from
show_found = refl

dispatch-Effect_example :
    ((best : Best ℕ) × IsBest
        (parse_cstr (some (codes "GET")))
        (some (codes "/posts/42"))
        other_table.routes
        best
      × Leads idle
          (codes "/posts/42")
          best
          (dispatch other_table (some (codes "GET")) (some (codes "/posts/42")) idle))
    × (dispatch table (some (codes "GET")) (some (codes "/posts/42")) idle
        ≡ dispatch other_table (some (codes "GET")) (some (codes "/posts/42")) idle)
dispatch-Effect_example =
    dispatch-Effect other_table table (codes "GET") (codes "/posts/42") idle table-Twins

add_guarded_lem_example :
    Added init
      (entry post (some (codes "/posts")) none (some count))
      (add_guarded init post (some (codes "/posts")) none (some count))
add_guarded_lem_example =
    add_guarded_lem init post (some (codes "/posts")) none (some count) init-IsValid
