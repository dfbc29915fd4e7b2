-- ===== src/Mime.antt =====
-- src/asset/mime.c: the content type that an asset is served with, from its path.
pub mod Positions
pub mod Extension
mod Tests
use ceasy.Prelude.{
  ℕ, zero, suc, ◌+◌, ◌-◌, Bool, true, false, not, ◌||◌, ◌&&◌, Option, none, some, List, [], ◌∷◌,
  ltb, leb, ◌==◌, if◌then◌else◌, get_elem?, codes,
}
use ceasy.StringView.{StringView, null, view, size, bytes_of, valid, equal_ignore_case, from}

abbrev pub is_at : List ℕ → ℕ → ℕ → Bool
is_at bs i c = elim (get_elem? bs i) [ none ↦ false | some d ↦ d == c ]

-- The first loop, downwards from `index`: the position behind the last slash, or 0.
unfoldable pub after_slash : List ℕ → ℕ → ℕ
after_slash bs zero = 0
after_slash bs (suc index) =
    let rest = after_slash bs index in if is_at bs index b'/' then index + 1 else rest

-- The second loop, downwards from `slash + rounds`: the position of the last dot, or `length`.
unfoldable pub last_dot : List ℕ → ℕ → ℕ → ℕ → ℕ
last_dot bs length slash zero = length
last_dot bs length slash (suc rounds) =
    let rest = last_dot bs length slash rounds in
    if is_at bs (slash + rounds) b'.' then slash + rounds else rest

abbrev pub octet_stream : StringView
octet_stream = view (codes "application/octet-stream")

-- The tests of the extension.
unfoldable pub type_of_extension : StringView → StringView
type_of_extension extension =
    if equal_ignore_case extension (view (codes ".css"))
    then view (codes "text/css; charset=utf-8")
    else if equal_ignore_case extension (view (codes ".js"))
    then view (codes "text/javascript; charset=utf-8")
    else if equal_ignore_case extension (view (codes ".html"))
    then view (codes "text/html; charset=utf-8")
    else if equal_ignore_case extension (view (codes ".txt"))
    then view (codes "text/plain; charset=utf-8")
    else if equal_ignore_case extension (view (codes ".json"))
    then view (codes "application/json; charset=utf-8")
    else if equal_ignore_case extension (view (codes ".svg"))
    then view (codes "image/svg+xml")
    else if equal_ignore_case extension (view (codes ".png"))
    then view (codes "image/png")
    else if equal_ignore_case extension (view (codes ".jpg"))
        || equal_ignore_case extension (view (codes ".jpeg"))
    then view (codes "image/jpeg")
    else if equal_ignore_case extension (view (codes ".gif"))
    then view (codes "image/gif")
    else if equal_ignore_case extension (view (codes ".webp"))
    then view (codes "image/webp")
    else if equal_ignore_case extension (view (codes ".ico"))
    then view (codes "image/x-icon")
    else if equal_ignore_case extension (view (codes ".woff"))
    then view (codes "font/woff")
    else if equal_ignore_case extension (view (codes ".woff2"))
    then view (codes "font/woff2")
    else octet_stream

-- asset_content_type
unfoldable pub asset_content_type : StringView → StringView
unfolding after_slash last_dot type_of_extension
asset_content_type path =
    let slash = after_slash (bytes_of path) (size path) in
    let dot = last_dot (bytes_of path) (size path) slash (size path - slash) in
    if ltb 0 (size path) && not (valid path)
    then octet_stream
    else if dot == size path || leb (size path) (dot + 1)
    then octet_stream
    else type_of_extension (from path dot)
