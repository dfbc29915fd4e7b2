-- ===== src/Cookies.antt =====
-- src/http/cookie.c, the cookies of a request: how the Cookie header is read, and a cookie found. The
-- headers of the request are an argument, and so is whether the compiler's `char` has a sign.
-- A result `none` is a loop that has used up its rounds.
pub mod Texts
pub mod Header
pub mod Parsed
pub mod Calls
pub mod Answers
mod Tests
use ceasy.Prelude.{
  ℕ, zero, suc, ◌+◌, Bool, true, false, not, ◌&&◌, ◌||◌, Option, none, some, List, [], ◌∷◌, ◌++◌,
  leb, ◌==◌, if◌then◌else◌, length, codes,
}
use ceasy.StringView.{
  StringView, null, view, size, zeroed, equal, equal_ignore_case, trim, split_once_char,
}

pub record CookieParam : Type 0 where
  pub name : StringView
  pub value : StringView

pub record RequestHeader : Type 0 where
  pub name : StringView
  pub value : StringView

-- The fields of a context that hold its cookies; `cookie_count` is the length of the list.
pub record CookieJar : Type 0 where
  pub cookies : List CookieParam
  pub cookies_parsed : Bool
  pub cookie_parse_ok : Bool

-- CEASY_MAX_REQUEST_COOKIES
abbrev pub max_request_cookies : ℕ
max_request_cookies = 64

-- The loop of cookie_token: with a sign, a byte from 128 on is below zero.
unfoldable pub token_bytes : Bool → List ℕ → Bool
token_bytes signed [] = true
token_bytes signed (c ∷ cs) =
    let rest = token_bytes signed cs in
    if leb c 32 || (signed && leb 128 c) || c == b';' || c == b'=' || c == 13 || c == 10
    then false
    else rest

-- cookie_token
unfoldable pub token : Bool → StringView → Bool
token signed (null n) = false
token signed (view bs) = if length bs == 0 then false else token_bytes signed bs

-- The next pair of the header, and what remains behind it.
unfoldable pub next_pair : StringView → StringView × StringView
next_pair remaining = elim (split_once_char remaining b';') [
  | none ↦ (remaining, zeroed)
  | some parts ↦ parts
]

-- The cookie of a pair, and `none` for a pair that is left out.
unfoldable pub read_pair : Bool → StringView → Option CookieParam
read_pair signed pair = elim (split_once_char (trim pair) b'=') [
  | none ↦ none
  | some parts ↦
      if token signed (trim parts.0)
      then some (record { name = trim parts.0; value = trim parts.1 })
      else none
]

-- The loop of cookie_parse, with the rounds that are left.
unfoldable pub parse_loop :
    Bool → ℕ → StringView → List CookieParam → Option (Bool × List CookieParam)
parse_loop signed zero remaining cookies = none
parse_loop signed (suc rounds) remaining cookies = elim (size remaining == 0) [
  | true ↦ some (true, cookies)
  | false ↦ elim (read_pair signed (next_pair remaining).0) [
    | none ↦ parse_loop signed rounds (next_pair remaining).1 cookies
    | some cookie ↦ elim (leb max_request_cookies (length cookies)) [
      | true ↦ some (false, cookies)
      | false ↦ parse_loop signed rounds (next_pair remaining).1 (cookies ++ cookie ∷ [])
    ]
  ]
]

-- request_header of src/http/request.c, over the headers of the request
unfoldable pub request_header : List RequestHeader → StringView → StringView
request_header [] name = zeroed
request_header (header ∷ headers) name =
    let rest = request_header headers name in
    if equal_ignore_case header.name name then header.value else rest

abbrev pub cookie_name : StringView
cookie_name = view (codes "Cookie")

-- cookie_parse
unfoldable pub parse : Bool → CookieJar → List RequestHeader → Option (Bool × CookieJar)
parse signed jar headers =
    if jar.cookies_parsed
    then some (jar.cookie_parse_ok, jar)
    else elim (parse_loop signed (size (request_header headers cookie_name) + 1)
        (request_header headers cookie_name) jar.cookies) [
          | none ↦ none
          | some parsed ↦ some (
            parsed.0,
            record { cookies = parsed.1; cookies_parsed = true; cookie_parse_ok = parsed.0 },
          )
        ]

-- The loop of context_cookie.
unfoldable pub find_cookie : List CookieParam → StringView → StringView
find_cookie [] name = zeroed
find_cookie (cookie ∷ cookies) name =
    let rest = find_cookie cookies name in if equal cookie.name name then cookie.value else rest

unfoldable pub context_cookie :
    Bool → CookieJar → List RequestHeader → StringView → Option (StringView × CookieJar)
context_cookie signed jar headers name = elim (parse signed jar headers) [
  | none ↦ none
  | some parsed ↦ some (if parsed.0 then find_cookie parsed.1.cookies name else zeroed, parsed.1)
]
