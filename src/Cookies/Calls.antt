-- ===== src/Cookies/Calls.antt =====
-- src/http/cookie.c: the calls of cookie_parse and context_cookie, the first one and those after it.
use ceasy.Prelude.{
  ℕ, ◌+◌, ◌≤◌, ◌≡◌, ◌⊎◌, refl, ap, ◌∙◌, Bool, true, false, some, List, [], length, length-take, leb,
  if◌then◌else◌, inl, inr, Bool-cases, leb→le, lt_of_not_leb, arith,
}
use ceasy.StringView.{StringView, view, zeroed}
use ceasy.Cookies.{
  CookieParam, CookieJar, RequestHeader, request_header, cookie_name, max_request_cookies, parse,
  find_cookie, context_cookie,
}
use ceasy.Cookies.Parsed.{
  pieces, readable, kept_of, put_first, readable-first, read_pair-empty, parse_loop_lem,
  parse_loop-empty,
}

-- The cookies that a header has, and what cookie_parse makes of them.
abbrev pub cookies_of : Bool → List ℕ → List CookieParam
cookies_of signed bs = readable signed (pieces bs)

abbrev pub parsed_jar : Bool × List CookieParam → CookieJar
parsed_jar kept = record { cookies = kept.1; cookies_parsed = true; cookie_parse_ok = kept.0 }

-- The text of the header, or NULL for an empty one.
abbrev pub Received : List RequestHeader → List ℕ → Type 0
Received headers bs =
    (request_header headers cookie_name ≡ view bs)
    ⊎ ((request_header headers cookie_name ≡ zeroed) × (bs ≡ []))

parse_lem :
    (signed : Bool) (jar : CookieJar) (headers : List RequestHeader) (bs : List ℕ)
    → Received headers bs
    → jar.cookies_parsed ≡ false
    → jar.cookies ≡ []
    → parse signed jar headers
      ≡ some ((kept_of (cookies_of signed bs)).0, parsed_jar (kept_of (cookies_of signed bs)))
unfolding parse
parse_lem signed jar headers bs (inl e) new none_yet =
    let loop = parse_loop_lem signed (length bs + 1) bs [] (omega arith) (omega arith) in
    simp (parse, new, none_yet, e, loop) refl
parse_lem signed jar headers bs (inr (e, empty)) new none_yet =
    let nothing : cookies_of signed bs ≡ [] =
      ap (cookies_of signed) empty
      ∙ readable-first signed [] []
      ∙ ap (λ f. put_first f []) (read_pair-empty signed) in
    let loop = parse_loop-empty signed 0 [] in simp (parse, new, none_yet, e, loop, nothing) refl

-- The answer for a name: the value of the first cookie with that name, if there are not too many.
abbrev pub answer : Bool → List ℕ → StringView → StringView
answer signed bs name =
    let all = cookies_of signed bs in
    if leb (length all) max_request_cookies then find_cookie all name else zeroed

answer_lem :
    (all : List CookieParam) (name : StringView)
    → (if (kept_of all).0 then find_cookie (kept_of all).1 name else zeroed)
      ≡ (if leb (length all) max_request_cookies then find_cookie all name else zeroed)
answer_lem all name = elim (Bool-cases (leb (length all) max_request_cookies)) [
  | inl few ↦ rw (few) refl
  | inr many ↦ rw (many) refl
]

kept_of-le : (all : List CookieParam) → length (kept_of all).1 ≤ max_request_cookies
kept_of-le all = elim (Bool-cases (leb (length all) max_request_cookies)) [
  | inl few ↦ rw (few) (leb→le (length all) max_request_cookies few)
  | inr many ↦
      let more = lt_of_not_leb (length all) max_request_cookies many in
      rw (many) (omega (arith, length-take max_request_cookies all (omega arith)))
]

parse-again :
    (signed : Bool) (kept : Bool × List CookieParam) (headers : List RequestHeader)
    → parse signed (parsed_jar kept) headers ≡ some (kept.0, parsed_jar kept)
unfolding parse
parse-again signed kept headers = refl

context_cookie-parsed :
    (signed : Bool) (jar jar' : CookieJar) (headers : List RequestHeader) (name : StringView)
    (parsed_ok : Bool)
    → parse signed jar headers ≡ some (parsed_ok, jar')
    → context_cookie signed jar headers name
      ≡ some (if parsed_ok then find_cookie jar'.cookies name else zeroed, jar')
unfolding context_cookie
context_cookie-parsed signed jar jar' headers name parsed_ok e = simp (context_cookie, e) refl

-- The first call of context_cookie and those after it give the same answers.
pub context_cookie-answer :
    (signed : Bool) (jar : CookieJar) (headers : List RequestHeader) (bs : List ℕ)
    → Received headers bs
    → jar.cookies_parsed ≡ false
    → jar.cookies ≡ []
    → (jar' : CookieJar) × (length jar'.cookies ≤ max_request_cookies)
      × ((name : StringView)
          → (context_cookie signed jar headers name ≡ some (answer signed bs name, jar'))
            × ((headers' : List RequestHeader)
                → context_cookie signed jar' headers' name ≡ some (answer signed bs name, jar')))
context_cookie-answer signed jar headers bs e new none_yet =
    let all = cookies_of signed bs in
    let kept = kept_of all in
    (
      parsed_jar kept,
      kept_of-le all,
      λ name. (
        context_cookie-parsed signed jar (parsed_jar kept) headers name kept.0
              (parse_lem signed jar headers bs e new none_yet)
            ∙ ap (λ s. some (s, parsed_jar kept)) (answer_lem all name),
        λ headers'.
            context_cookie-parsed signed (parsed_jar kept) (parsed_jar kept) headers' name kept.0
              (parse-again signed kept headers')
            ∙ ap (λ s. some (s, parsed_jar kept)) (answer_lem all name),
      ),
    )
