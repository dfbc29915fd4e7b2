-- ===== src/Mime/Extension.antt =====
-- asset_content_type of src/asset/mime.c: it is a table of extensions.
use ceasy.Prelude.{
  ℕ, ◌+◌, ◌-◌, ◌<◌, ◌≡◌, refl, sym, ap, ◌∙◌, true, false, ◌||◌, ◌&&◌, List, [], ◌∷◌, ◌++◌, map, ltb,
  leb, ◌==◌, if◌then◌else◌, codes, arith, length, length-append, Bool-cases, inl, inr, drop-append,
}
use ceasy.StringView.{StringView, view, equal_ignore_case, from}
use ceasy.StringView.Bytes.{same, ascii_lower}
use ceasy.StringView.Text.{same_iff, equal_ignore_case-view, from-view}
use ceasy.StringView.Search.{Absent}
use ceasy.Mime.Positions.{
  NoneFrom-append, NoneFrom-behind, get_elem-append, after_slash_le, after_slash_gt, last_dot-at,
  last_dot-Absent,
}
use ceasy.Mime.{is_at, after_slash, octet_stream, type_of_extension, asset_content_type}

-- The extensions with their content types.
abbrev pub types : List (List ℕ × List ℕ)
types =
    (codes ".css", codes "text/css; charset=utf-8")
    ∷ (codes ".js", codes "text/javascript; charset=utf-8")
    ∷ (codes ".html", codes "text/html; charset=utf-8")
    ∷ (codes ".txt", codes "text/plain; charset=utf-8")
    ∷ (codes ".json", codes "application/json; charset=utf-8")
    ∷ (codes ".svg", codes "image/svg+xml")
    ∷ (codes ".png", codes "image/png")
    ∷ (codes ".jpg", codes "image/jpeg")
    ∷ (codes ".jpeg", codes "image/jpeg")
    ∷ (codes ".gif", codes "image/gif")
    ∷ (codes ".webp", codes "image/webp")
    ∷ (codes ".ico", codes "image/x-icon")
    ∷ (codes ".woff", codes "font/woff")
    ∷ (codes ".woff2", codes "font/woff2")
    ∷ []

abbrev pub lookup : List (List ℕ × List ℕ) → List ℕ → List ℕ
lookup [] key = codes "application/octet-stream"
lookup ((k, v) ∷ rest) key = let others = lookup rest key in if same key k then v else others

-- A test of the extension, against a text in lower case.
ignore_case-same :
    (xs key : List ℕ)
    → map ascii_lower key ≡ key
    → equal_ignore_case (view xs) (view key) ≡ same (map ascii_lower xs) key
ignore_case-same xs key low = elim (Bool-cases (equal_ignore_case (view xs) (view key))) [
  | inl e ↦
      let l = (equal_ignore_case-view xs key).0 e ∙ low in
      let f = (same_iff (map ascii_lower xs) key).1 l in e ∙ sym f
  | inr e ↦ elim (Bool-cases (same (map ascii_lower xs) key)) [
    | inl f ↦
        let l = (same_iff (map ascii_lower xs) key).0 f ∙ sym low in
        (equal_ignore_case-view xs key).1 l ∙ sym f
    | inr f ↦ e ∙ sym f
  ]
]

-- One test of the extension is one entry of the table.
test-entry :
    (xs key v : List ℕ) {rest : StringView} {others : List ℕ}
    → map ascii_lower key ≡ key
    → rest ≡ view others
    → (if equal_ignore_case (view xs) (view key) then view v else rest)
      ≡ view (if same (map ascii_lower xs) key then v else others)
test-entry xs key v low e = elim (Bool-cases (same (map ascii_lower xs) key)) [
  | inl f ↦ rw (ignore_case-same xs key low, f) refl
  | inr f ↦ rw (ignore_case-same xs key low, f) e
]

test-entries :
    (xs key key' v : List ℕ) {rest : StringView} {others : List ℕ}
    → map ascii_lower key ≡ key
    → map ascii_lower key' ≡ key'
    → rest ≡ view others
    → (if equal_ignore_case (view xs) (view key) || equal_ignore_case (view xs) (view key')
        then view v
        else rest)
      ≡ view (
          if same (map ascii_lower xs) key
          then v
          else if same (map ascii_lower xs) key'
          then v
          else others)
test-entries xs key key' v low low' e = elim (Bool-cases (same (map ascii_lower xs) key)) [
  | inl f ↦ rw (ignore_case-same xs key low, f) refl
  | inr f ↦ rw (ignore_case-same xs key low, f) (test-entry xs key' v low' e)
]

-- The tests are a search of the table for the extension in lower case.
type_of_extension-lookup :
    (xs : List ℕ) → type_of_extension (view xs) ≡ view (lookup types (map ascii_lower xs))
unfolding type_of_extension ascii_lower
type_of_extension-lookup xs = test-entry xs _ _ refl (
    test-entry xs _ _ refl (
      test-entry xs _ _ refl (
        test-entry xs _ _ refl (
          test-entry xs _ _ refl (
            test-entry xs _ _ refl (
              test-entry xs _ _ refl (
                test-entries xs _ _ _ refl refl (
                  test-entry xs _ _ refl (
                    test-entry xs _ _ refl (
                      test-entry xs _ _ refl
                        (test-entry xs _ _ refl (test-entry xs _ _ refl refl))))))))))))

-- The content type of a path with an extension: with no dot or slash behind its last dot, and at least
-- one byte there. The table is searched for the extension in lower case.
pub asset_content_type-lookup :
    (front ext : List ℕ)
    → 0 < length ext
    → Absent b'.' ext
    → Absent b'/' ext
    → asset_content_type (view (front ++ b'.' ∷ ext))
      ≡ view (lookup types (map ascii_lower (b'.' ∷ ext)))
unfolding asset_content_type
asset_content_type-lookup front ext pos dots slashes =
    let bs = front ++ b'.' ∷ ext in
    let k = length front in
    let n = length-append front (b'.' ∷ ext) in
    let behind =
      after_slash_le bs k (length bs)
        (NoneFrom-append b'/' front (b'.' ∷ ext) (omega arith, slashes)) in
    let is_dot : is_at bs k b'.' ≡ true =
      let g = get_elem-append front ext b'.' in ground (arith, g) in
    let slash = after_slash bs (length bs) in
    let dot =
      last_dot-at bs (length bs) slash k (length bs - slash) is_dot
        (NoneFrom-behind b'.' b'.' front ext dots) behind (omega (arith, n, behind)) in
    let f : from (view bs) k ≡ view (b'.' ∷ ext) =
      from-view bs k (omega (arith, n)) ∙ ap view (drop-append front (b'.' ∷ ext)) in
    let there : (k == length bs) ≡ false = ground (arith, n) in
    let more : leb (length bs) (k + 1) ≡ false = ground (arith, n) in
    let some_bytes : (ltb 0 (length bs) && false) ≡ false = ground arith in
    rw (dot, some_bytes, there, more, f) (type_of_extension-lookup (b'.' ∷ ext))

-- A path with no dot behind its last slash gets the general type.
pub asset_content_type-Absent :
    (front name : List ℕ)
    → Absent b'.' name
    → asset_content_type (view (front ++ b'/' ∷ name)) ≡ octet_stream
unfolding asset_content_type
asset_content_type-Absent front name dots =
    let bs = front ++ b'/' ∷ name in
    let k = length front in
    let n = length-append front (b'/' ∷ name) in
    let is_slash : is_at bs k b'/' ≡ true =
      let g = get_elem-append front name b'/' in ground (arith, g) in
    let slash = after_slash bs (length bs) in
    let beyond : k < slash = after_slash_gt bs k (length bs) is_slash (omega (arith, n)) in
    let none_from = NoneFrom-behind b'.' b'/' front name dots in
    let dot =
      last_dot-Absent bs (length bs) slash (length bs - slash)
        (λ i le. none_from i (omega (arith, beyond))) in
    let none_bytes : (ltb 0 (length bs) && false) ≡ false = ground arith in
    let all : (length bs == length bs) ≡ true = ground arith in rw (dot, none_bytes, all) refl
