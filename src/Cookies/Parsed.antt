-- ===== src/Cookies/Parsed.antt =====
-- src/http/cookie.c: what cookie_parse reads, against the pieces of the header.
use ceasy.Prelude.{
  ℕ, zero, suc, ◌≤◌, ◌<◌, ◌≡◌, ◌≢◌, refl, ap, sym, ◌∙◌, Bool, true, false, Option, none, some, List,
  [], ◌∷◌, ◌++◌, append-nil, append_assoc, length, length-append, take, drop-nil, take-length,
  take-append, leb, ◌==◌, if◌then◌else◌, inl, inr, Bool-cases, ==_iff, leb→le, lt_of_not_leb, arith,
}
use ceasy.StringView.{StringView, view, zeroed, trim, split_once_char}
use ceasy.StringView.Trim.{trim-Trims}
use ceasy.StringView.Search.{Absent, split_once_char-Absent, split_once_char_cases}
use ceasy.Cookies.{CookieParam, max_request_cookies, next_pair, read_pair, parse_loop}

-- The pieces of a text between its semicolons.
abbrev pub first_longer : ℕ → List (List ℕ) → List (List ℕ)
first_longer c [] = (c ∷ []) ∷ []
first_longer c (piece ∷ rest) = (c ∷ piece) ∷ rest

abbrev pub pieces : List ℕ → List (List ℕ)
pieces [] = [] ∷ []
pieces (c ∷ cs) = if c == b';' then [] ∷ pieces cs else first_longer c (pieces cs)

abbrev pub readable : Bool → List (List ℕ) → List CookieParam
readable signed [] = []
readable signed (piece ∷ rest) = elim (read_pair signed (view piece)) [
  | none ↦ readable signed rest
  | some cookie ↦ cookie ∷ readable signed rest
]

no_semicolon : (c : ℕ) → c ≢ b';' → (c == b';') ≡ false
no_semicolon c h = ground (arith, ==_iff c b';')

pieces-Absent : (bs : List ℕ) → Absent b';' bs → pieces bs ≡ bs ∷ []
pieces-Absent [] h = refl
pieces-Absent (c ∷ cs) h =
    let other : (c == b';') ≡ false = no_semicolon c h.0 in
    rw (other) (ap (first_longer c) (pieces-Absent cs h.1))

pieces-first : (l r : List ℕ) → Absent b';' l → pieces (l ++ b';' ∷ r) ≡ l ∷ pieces r
pieces-first [] r h = refl
pieces-first (c ∷ l) r h =
    let other : (c == b';') ≡ false = no_semicolon c h.0 in
    rw (other) (ap (first_longer c) (pieces-first l r h.1))

-- What is read of all the cookies of a header.
abbrev pub kept_of : List CookieParam → Bool × List CookieParam
kept_of all =
    if leb (length all) max_request_cookies
    then (true, all)
    else (false, take max_request_cookies all)

parse_loop-nothing :
    (signed : Bool) (rounds : ℕ) (cookies : List CookieParam)
    → parse_loop signed (suc rounds) (view []) cookies ≡ some (true, cookies)
unfolding parse_loop
parse_loop-nothing signed rounds cookies = refl

pub parse_loop-empty :
    (signed : Bool) (rounds : ℕ) (cookies : List CookieParam)
    → parse_loop signed (suc rounds) zeroed cookies ≡ some (true, cookies)
unfolding parse_loop
parse_loop-empty signed rounds cookies = refl

-- No pair stands in an empty text.
pub read_pair-empty : (signed : Bool) → read_pair signed (view []) ≡ none
unfolding read_pair
read_pair-empty signed =
    let (start, len, trims) = trim-Trims [] in
    let nothing : trim (view []) ≡ view [] =
      trims.result ∙ ap view (ap (take len) (drop-nil start) ∙ take-length len [] (omega arith)) in
    let no_sign : split_once_char (trim (view [])) b'=' ≡ none =
      ap (λ v. split_once_char v b'=') nothing ∙ split_once_char-Absent [] b'=' tt in
    simp (read_pair, no_sign) refl

kept_of-few :
    (all : List CookieParam) → length all ≤ max_request_cookies → kept_of all ≡ (true, all)
kept_of-few all h =
    let few : leb (length all) max_request_cookies ≡ true = ground arith in rw (few) refl

kept_of-many :
    (cookies more : List CookieParam) (cookie : CookieParam)
    → length cookies ≡ max_request_cookies
    → kept_of (cookies ++ cookie ∷ more) ≡ (false, cookies)
kept_of-many cookies more cookie h =
    let many : leb (length (cookies ++ cookie ∷ more)) max_request_cookies ≡ false =
      ground (arith, length-append cookies (cookie ∷ more)) in
    rw (many) (
      ap (λ (t : List CookieParam). (false, t))
        (ap (λ n. take n (cookies ++ cookie ∷ more)) (sym h) ∙ take-append cookies (cookie ∷ more)))

-- What a round does with a pair, when `rest` is what it does with the cookies behind it.
abbrev round_of :
    Option CookieParam
    → List CookieParam
    → (List CookieParam → Option (Bool × List CookieParam))
    → Option (Bool × List CookieParam)
round_of found cookies rest = elim found [
  | none ↦ rest cookies
  | some cookie ↦ elim (leb max_request_cookies (length cookies)) [
    | true ↦ some (false, cookies)
    | false ↦ rest (cookies ++ cookie ∷ [])
  ]
]

abbrev pub put_first : Option CookieParam → List CookieParam → List CookieParam
put_first found more = elim found [ none ↦ more | some cookie ↦ cookie ∷ more ]

round_lem :
    (found : Option CookieParam) (cookies more : List CookieParam)
    (rest : List CookieParam → Option (Bool × List CookieParam))
    → length cookies ≤ max_request_cookies
    → ((cookies' : List CookieParam)
        → length cookies' ≤ max_request_cookies
        → rest cookies' ≡ some (kept_of (cookies' ++ more)))
    → round_of found cookies rest ≡ some (kept_of (cookies ++ put_first found more))
round_lem none cookies more rest h k = k cookies h
round_lem (some cookie) cookies more rest h k =
    elim (Bool-cases (leb max_request_cookies (length cookies))) [
      | inl full ↦
          simp (round_of, full)
            (ap some (
              sym (
                kept_of-many cookies more cookie
                  (omega (arith, leb→le max_request_cookies (length cookies) full)))))
      | inr room ↦
          let shorter = lt_of_not_leb max_request_cookies (length cookies) room in
          let here =
            k (cookies ++ cookie ∷ []) (omega (arith, length-append cookies (cookie ∷ []))) in
          simp (round_of, room)
            (here
              ∙ ap (λ (t : List CookieParam). some (kept_of t))
                  (append_assoc cookies (cookie ∷ []) more))
    ]

parse_loop-round :
    (signed : Bool) (rounds : ℕ) (bs : List ℕ) (pair rest : StringView) (cookies : List CookieParam)
    → (length bs == 0) ≡ false
    → next_pair (view bs) ≡ (pair, rest)
    → parse_loop signed (suc rounds) (view bs) cookies
      ≡ round_of
          (read_pair signed pair)
          cookies
          (λ cookies'. parse_loop signed rounds rest cookies')
unfolding parse_loop
parse_loop-round signed rounds bs pair rest cookies some_bytes e =
    here
    ∙ ap
        (λ (p : StringView × StringView).
          round_of (read_pair signed p.0) cookies
            (λ cookies'. parse_loop signed rounds p.1 cookies'))
        e
  where
    here :
        parse_loop signed (suc rounds) (view bs) cookies
        ≡ round_of
            (read_pair signed (next_pair (view bs)).0)
            cookies
            (λ cookies'. parse_loop signed rounds (next_pair (view bs)).1 cookies')
    here = simp (parse_loop, some_bytes) refl

pub readable-first :
    (signed : Bool) (piece : List ℕ) (rest : List (List ℕ))
    → readable signed (piece ∷ rest)
      ≡ put_first (read_pair signed (view piece)) (readable signed rest)
readable-first signed piece rest = refl

next_pair-none :
    (bs : List ℕ) → split_once_char (view bs) b';' ≡ none → next_pair (view bs) ≡ (view bs, zeroed)
unfolding next_pair
next_pair-none bs e = simp (next_pair, e) refl

next_pair-some :
    (bs : List ℕ) (l r : StringView)
    → split_once_char (view bs) b';' ≡ some (l, r)
    → next_pair (view bs) ≡ (l, r)
unfolding next_pair
next_pair-some bs l r e = simp (next_pair, e) refl

-- The loop of cookie_parse has enough rounds with one more than the header has bytes. It reads the
-- pieces of the header in their order.
pub parse_loop_lem :
    (signed : Bool) (rounds : ℕ) (bs : List ℕ) (cookies : List CookieParam)
    → length bs < rounds
    → length cookies ≤ max_request_cookies
    → parse_loop signed rounds (view bs) cookies
      ≡ some (kept_of (cookies ++ readable signed (pieces bs)))
parse_loop_lem signed zero bs cookies enough few = absurd (omega arith)
parse_loop_lem signed (suc rounds) [] cookies enough few =
    let none_there : readable signed (pieces []) ≡ [] =
      readable-first signed [] [] ∙ ap (λ f. put_first f []) (read_pair-empty signed) in
    parse_loop-nothing signed rounds cookies
    ∙ ap some (sym (kept_of-few cookies few))
    ∙ ap (λ t. some (kept_of t))
        (sym (append-nil cookies) ∙ ap (λ t. cookies ++ t) (sym none_there))
parse_loop_lem signed (suc zero) (c ∷ cs) cookies enough few = absurd (omega arith)
parse_loop_lem signed (suc (suc rounds)) (c ∷ cs) cookies enough few =
    let some_bytes : (length (c ∷ cs) == 0) ≡ false = ground arith in
    elim (split_once_char_cases (c ∷ cs) b';') [
      | inl (absent, split) ↦
          let next : next_pair (view (c ∷ cs)) ≡ (view (c ∷ cs), zeroed) =
            next_pair-none (c ∷ cs) split in
          parse_loop-round signed (suc rounds) (c ∷ cs) (view (c ∷ cs)) zeroed cookies some_bytes
            next
          ∙ round_lem (read_pair signed (view (c ∷ cs))) cookies []
              (λ cookies'. parse_loop signed (suc rounds) zeroed cookies') few
              (λ cookies' few'.
                parse_loop-empty signed rounds cookies'
                ∙ ap some (sym (kept_of-few cookies' few'))
                ∙ ap (λ t. some (kept_of t)) (sym (append-nil cookies')))
          ∙ ap (λ t. some (kept_of (cookies ++ t)))
              (sym (
                ap (readable signed) (pieces-Absent (c ∷ cs) absent)
                ∙ readable-first signed (c ∷ cs) []))
      | inr (l, r, before, cut, split) ↦
          let next : next_pair (view (c ∷ cs)) ≡ (view l, view r) =
            next_pair-some (c ∷ cs) (view l) (view r) split in
          let shorter : length r < suc rounds =
            omega (arith, ap length cut, length-append l (b';' ∷ r)) in
          parse_loop-round signed (suc rounds) (c ∷ cs) (view l) (view r) cookies some_bytes next
          ∙ round_lem (read_pair signed (view l)) cookies (readable signed (pieces r))
              (λ cookies'. parse_loop signed (suc rounds) (view r) cookies') few
              (λ cookies' few'. parse_loop_lem signed (suc rounds) r cookies' shorter few')
          ∙ ap (λ t. some (kept_of (cookies ++ t)))
              (sym (
                ap (λ t. readable signed (pieces t)) cut
                ∙ ap (readable signed) (pieces-first l r before)
                ∙ readable-first signed l (pieces r)))
    ]
