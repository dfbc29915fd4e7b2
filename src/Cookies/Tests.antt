-- ===== src/Cookies/Tests.antt =====
-- Runs of the cookies of a request.
use ceasy.Prelude.{◌≡◌, ◌≤◌, refl, true, false, some, List, [], ◌∷◌, codes, length, inl, inr, arith}
use ceasy.StringView.{StringView, view}
use ceasy.Cookies.{
  CookieJar, RequestHeader, max_request_cookies, context_cookie, token, token_bytes,
}
use ceasy.Cookies.Parsed.{pieces}
use ceasy.Cookies.Header.{Sends}
use ceasy.Cookies.Answers.{Pair, Reading, IsAnswer, context_cookie_lem}

abbrev new_jar : CookieJar
new_jar = record { cookies = []; cookies_parsed = false; cookie_parse_ok = false }

abbrev headers : List RequestHeader
headers =
    record { name = view (codes "Host"); value = view (codes "localhost") }
    ∷ record { name = view (codes "cookie"); value = view (codes "a=1; session=xyz; b") }
    ∷ []

headers-Sends : Sends headers (codes "a=1; session=xyz; b")
headers-Sends = inr (
  λ h. elim h.0 [ inl e ↦ absurd (omega (arith, e)) | inr e ↦ absurd (omega (arith, e)) ],
  inl ((inl refl, (inl refl, (inl refl, (inl refl, (inl refl, (inl refl, tt)))))), inl refl),
)

-- A byte of a UTF-8 name is refused where `char` has a sign.
token-signed : token true (view (195 ∷ 169 ∷ [])) ≡ false
unfolding token token_bytes
token-signed = refl

token-unsigned : token false (view (195 ∷ 169 ∷ [])) ≡ true
unfolding token token_bytes
token-unsigned = refl

context_cookie_lem_example :
    (cookies : List Pair) × Reading true (pieces (codes "a=1; session=xyz; b")) cookies
    × (jar' : CookieJar) × (length jar'.cookies ≤ max_request_cookies)
    × ((name : StringView)
        → (result : StringView) × IsAnswer name cookies result
          × (context_cookie true new_jar headers name ≡ some (result, jar'))
          × ((headers' : List RequestHeader)
              → context_cookie true jar' headers' name ≡ some (result, jar')))
context_cookie_lem_example =
    context_cookie_lem true new_jar headers (codes "a=1; session=xyz; b") headers-Sends refl refl
