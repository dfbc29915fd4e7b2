-- ===== src/Cookies/Answers.antt =====
-- src/http/cookie.c: what context_cookie answers, against the text of the Cookie header.
use ceasy.Prelude.{
  All, ℕ, suc, ◌≤◌, ◌<◌, ◌≡◌, ◌⊎◌, ◌↔◌, refl, ap, sym, ◌∙◌, Bool, true, false, some, List, [], ◌∷◌,
  ◌++◌, map, length, leb, arith, Bool-cases, inl, inr, leb→le, lt_of_not_leb,
}
use ceasy.StringView.{StringView, null, view, zeroed, equal}
use ceasy.StringView.Text.{equal_iff}
use ceasy.Cookies.{CookieJar, RequestHeader, max_request_cookies, find_cookie, context_cookie}
use ceasy.Cookies.Texts.{Cut, IsToken, NoCookie, cookie_of, read_pair_cases}
use ceasy.Cookies.Header.{Sends, request_header-Sends}
use ceasy.Cookies.Parsed.{pieces, readable}
use ceasy.Cookies.Calls.{answer, context_cookie-answer}

-- A name and a value, as texts.
abbrev pub Pair : Type 0
Pair = List ℕ × List ℕ

-- The cookies that stand in the pieces of a header, in their order.
pub data Reading (signed : Bool) : List (List ℕ) → List Pair → Type 0 where
  ended : Reading signed [] []
  cookie :
      {piece : List ℕ} {rest : List (List ℕ)} {name value : List ℕ} {cookies : List Pair}
      → Cut piece name value
      → IsToken signed name
      → Reading signed rest cookies
      → Reading signed (piece ∷ rest) ((name, value) ∷ cookies)
  left_out :
      {piece : List ℕ} {rest : List (List ℕ)} {cookies : List Pair}
      → NoCookie signed piece
      → Reading signed rest cookies
      → Reading signed (piece ∷ rest) cookies

-- The name that is asked for is this text; a NULL view without a length is the empty text.
abbrev pub Means : StringView → List ℕ → Type 0
Means (null n) text = (n ≡ 0) × (text ≡ [])
Means (view bs) text = bs ≡ text

abbrev pub Unnamed : StringView → List Pair → Type 0
Unnamed name cookies = All (λ (pair : Pair). ¬ (Means name pair.0)) cookies

-- `result` is the value of the first cookie with the name, and empty where none has it.
abbrev pub IsValue : StringView → List Pair → StringView → Type 0
IsValue name cookies result =
    (Unnamed name cookies × (result ≡ zeroed))
    ⊎ ((before : List Pair) × (pair : Pair) × (after : List Pair) × (cookies
          ≡ before ++ pair ∷ after)
        × Unnamed name before
        × Means name pair.0
        × (result ≡ view pair.1))

-- The same if there are not too many cookies, and empty if there are.
abbrev pub IsAnswer : StringView → List Pair → StringView → Type 0
IsAnswer name cookies result =
    ((length cookies ≤ max_request_cookies) × IsValue name cookies result)
    ⊎ ((max_request_cookies < length cookies) × (result ≡ zeroed))

reading :
    (signed : Bool) (parts : List (List ℕ))
    → (cookies : List Pair) × Reading signed parts cookies
      × (readable signed parts ≡ map cookie_of cookies)
reading signed [] = ([], ended, refl)
reading signed (piece ∷ rest) =
    let (cookies, read, e) = reading signed rest in
    elim (read_pair_cases signed piece) [
      | inl (none_there, f) ↦ (cookies, left_out none_there read, rw (readable, f) e)
      | inr (name, value, cut, token, f) ↦ (
        (name, value) ∷ cookies,
        cookie cut token read,
        rw (readable, f) (ap (λ l. cookie_of (name, value) ∷ l) e),
      )
    ]

equal-Means :
    (name : StringView) (text : List ℕ) → (equal (view text) name ≡ true) ↔ Means name text
equal-Means (null n) text = (
  λ h. let e = (equal_iff (view text) (null n)).0 h in (ground (arith, e.1), e.2),
  λ h. (equal_iff (view text) (null n)).1 (refl, ground (arith, h.0), h.1),
)
equal-Means (view bs) text = (
  λ h. sym ((equal_iff (view text) (view bs)).0 h).2,
  λ h. (equal_iff (view text) (view bs)).1 (refl, refl, sym h),
)

find_cookie-IsValue :
    (name : StringView) (cookies : List Pair)
    → IsValue name cookies (find_cookie (map cookie_of cookies) name)
unfolding find_cookie
find_cookie-IsValue name [] = inl (tt, refl)
find_cookie-IsValue name ((n, v) ∷ cookies) = elim (Bool-cases (equal (view n) name)) [
  | inl e ↦ rw e (inr ([], (n, v), cookies, refl, tt, (equal-Means name n).0 e, refl))
  | inr e ↦
      let other : ¬ (Means name n) = λ m. ground (arith, e, (equal-Means name n).1 m) in
      rw e (elim (find_cookie-IsValue name cookies) [
        | inl (unnamed, r) ↦ inl ((other, unnamed), r)
        | inr (before, pair, after, split, unnamed, named, r) ↦
            inr
              ((n, v) ∷ before, pair, after, ap (λ l. (n, v) ∷ l) split, (other, unnamed), named, r)
      ])
]

length-map : (cookies : List Pair) → length (map cookie_of cookies) ≡ length cookies
length-map [] = refl
length-map (pair ∷ cookies) = ap suc (length-map cookies)

answer-IsAnswer :
    (signed : Bool) (bs : List ℕ) (name : StringView) (cookies : List Pair)
    → readable signed (pieces bs) ≡ map cookie_of cookies
    → IsAnswer name cookies (answer signed bs name)
answer-IsAnswer signed bs name cookies e =
    let count : length (readable signed (pieces bs)) ≡ length cookies =
      ap length e ∙ length-map cookies in
    elim (Bool-cases (leb (length (readable signed (pieces bs))) max_request_cookies)) [
      | inl few ↦
          let le = leb→le (length (readable signed (pieces bs))) max_request_cookies few in
          rw few (inl (omega arith, rw e (find_cookie-IsValue name cookies)))
      | inr many ↦
          let lt = lt_of_not_leb (length (readable signed (pieces bs))) max_request_cookies many in
          rw many (inr (omega arith, refl))
    ]

-- context_cookie on a context that has no cookies yet and whose cookies have not been parsed, where the
-- first Cookie header, if there is one, has a valid view as its value. The text of that header, empty
-- without one, is cut into pieces at its semicolons; a piece is a cookie if without spaces around it it
-- has an equals sign and a token as the name in front of the first one. The answer for a name is the
-- value of the first cookie with it, without spaces around it, and an empty view if none has it or
-- there are more than CEASY_MAX_REQUEST_COOKIES. At most so many are kept, and later calls, for the
-- same name or others, give these answers whatever the headers then are.
pub context_cookie_lem :
    (signed : Bool) (jar : CookieJar) (headers : List RequestHeader) (bs : List ℕ)
    → Sends headers bs
    → jar.cookies_parsed ≡ false
    → jar.cookies ≡ []
    → (cookies : List Pair) × Reading signed (pieces bs) cookies
      × (jar' : CookieJar) × (length jar'.cookies ≤ max_request_cookies)
      × ((name : StringView)
          → (result : StringView) × IsAnswer name cookies result
            × (context_cookie signed jar headers name ≡ some (result, jar'))
            × ((headers' : List RequestHeader)
                → context_cookie signed jar' headers' name ≡ some (result, jar')))
context_cookie_lem signed jar headers bs sends new none_yet =
    let (cookies, read, e) = reading signed (pieces bs) in
    let (jar', few, answers) =
      context_cookie-answer signed jar headers bs (request_header-Sends headers bs sends) new
        none_yet in
    (
      cookies,
      read,
      jar',
      few,
      λ name. (
        answer signed bs name,
        answer-IsAnswer signed bs name cookies e,
        (answers name).0,
        (answers name).1,
      ),
    )
