-- ===== src/RoutePath.antt =====
-- src/routing/router.c: matching of a path against a route's pattern.
-- A C string is `Option (List ℕ)`: NULL, or its bytes before the NUL.
pub mod Segment
pub mod Match
use ceasy.Prelude.{
  ℕ, zero, suc, ◌+◌, ◌-◌, Bool, true, false, not, ◌&&◌, ◌||◌, Option, none, some, List, [], ◌∷◌,
  ◌++◌, ltb, leb, ◌==◌, if◌then◌else◌, length, get_elem?, codes,
}
use ceasy.StringView.{
  StringView, view, size, bytes_of, zeroed, equal, from_cstr, find_char, from, slice,
}
use ceasy.HttpMethod.{HttpMethod, unknown, get, post, patch, delete, method_eq, parse_cstr}

pub record RouteParam : Type 0 where
  pub name : StringView
  pub value : StringView

abbrev pub max_route_params : ℕ
max_route_params = 16

-- `value.data[i] == c`, where the byte is in range.
abbrev pub byte_is : StringView → ℕ → ℕ → Bool
byte_is value i c = elim (get_elem? (bytes_of value) i) [ none ↦ false | some d ↦ d == c ]

-- router_valid_path
unfoldable pub valid_path : Option (List ℕ) → Bool
valid_path none = false
valid_path (some []) = false
valid_path (some (c ∷ cs)) = c == b'/'

-- Where the segment behind `cursor` starts: a slash there is passed over.
unfoldable pub segment_start : StringView → ℕ → ℕ
segment_start path cursor =
    if ltb cursor (size path) && byte_is path cursor b'/' then cursor + 1 else cursor

-- How far the segment goes: to the next slash, or to the end.
unfoldable pub segment_length : StringView → ℕ → ℕ
segment_length path start = elim (find_char (from path start) b'/') [
  | none ↦ size path - start
  | some relative_end ↦ relative_end
]

-- router_next_segment: the segment and the new cursor; `none` leaves the cursor alone.
unfoldable pub next_segment : StringView → ℕ → Option (StringView × ℕ)
next_segment path cursor =
    let start = segment_start path cursor in
    let relative_end = segment_length path start in
    if leb (size path) start
    then none
    else some (slice path start relative_end, start + relative_end)

-- What one round of the loop of router_path_matches does with two segments.
pub data Step : Type 0 where
  refuse : Step
  bind : RouteParam → Step
  literal : Step

unfoldable pub match_segment : StringView → StringView → ℕ → Step
match_segment pattern_segment path_segment count =
    if ltb 0 (size pattern_segment) && byte_is pattern_segment 0 b':'
    then (if size path_segment == 0 || size pattern_segment == 1 || leb max_route_params count
        then refuse
        else bind (record { name = from pattern_segment 1; value = path_segment }))
    else if not (equal pattern_segment path_segment)
    then refuse
    else literal

-- How the loop of router_path_matches ends: by `return false`, or with both cursors, the number of
-- literal segments and the parameters; `unfinished` is fuel that ran out.
pub data Walk : Type 0 where
  refused : Walk
  ended : ℕ → ℕ → ℕ → List RouteParam → Walk
  unfinished : Walk

unfoldable pub walk : ℕ → StringView → StringView → ℕ → ℕ → ℕ → List RouteParam → Walk
walk zero pattern path pattern_cursor path_cursor static_count params = unfinished
walk (suc fuel) pattern path pattern_cursor path_cursor static_count params =
    elim (next_segment pattern pattern_cursor) [
      | none ↦ ended pattern_cursor path_cursor static_count params
      | some (pattern_segment, pattern_cursor') ↦ elim (next_segment path path_cursor) [
        | none ↦ ended pattern_cursor' path_cursor static_count params
        | some (path_segment, path_cursor') ↦
            elim (match_segment pattern_segment path_segment (length params)) [
              | refuse ↦ refused
              | bind p ↦
                  walk fuel pattern path pattern_cursor' path_cursor' static_count
                    (params ++ p ∷ [])
              | literal ↦
                  walk fuel pattern path pattern_cursor' path_cursor' (static_count + 1) params
            ]
      ]
    ]

-- The test of the cursors behind the loop.
unfoldable pub conclude : Walk → ℕ → ℕ → Option (ℕ × List RouteParam)
conclude (ended pattern_cursor path_cursor static_count params) pattern_length path_length =
    if not (pattern_cursor == pattern_length) || not (path_cursor == path_length)
    then none
    else some (static_count, params)
conclude _ pattern_length path_length = none

-- router_path_matches: the literal segments and the parameters of a match. Every round moves the
-- pattern's cursor on, so one more than its length is fuel enough.
unfoldable pub path_matches : Option (List ℕ) → Option (List ℕ) → Option (ℕ × List RouteParam)
unfolding conclude
path_matches pattern_cstr path_cstr =
    let pattern = from_cstr pattern_cstr in
    let path = from_cstr path_cstr in
    let root = view (codes "/") in
    if not (valid_path pattern_cstr) || not (valid_path path_cstr)
    then none
    else if equal pattern root || equal path root
    then (if equal pattern root && equal path root then some (0, []) else none)
    else conclude (walk (suc (size pattern)) pattern path 0 0 0 []) (size pattern) (size path)
