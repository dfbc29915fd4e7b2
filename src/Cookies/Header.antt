-- ===== src/Cookies/Header.antt =====
-- request_header of src/http/request.c, as cookie_parse calls it: which header it takes.
use ceasy.Prelude.{
  ℕ, ◌+◌, ◌≤◌, ◌≡◌, ◌⊎◌, ◌↔◌, refl, ap, ap₂, sym, ◌∙◌, true, List, [], ◌∷◌, map, arith, Bool-cases,
  inl, inr, codes,
}
use ceasy.StringView.{StringView, null, view, zeroed, equal_ignore_case}
use ceasy.StringView.Bytes.{ascii_lower}
use ceasy.StringView.Text.{equal_ignore_case-view}
use ceasy.Cookies.{RequestHeader, request_header, cookie_name}

-- The bytes are the small letters of the word, or the capitals that stand 32 before them.
abbrev pub Spells : List ℕ → List ℕ → Type 0
Spells [] [] = Unit
Spells (c ∷ cs) (l ∷ ls) = ((c ≡ l) ⊎ (c + 32 ≡ l)) × Spells cs ls
Spells [] (l ∷ ls) = ⊥
Spells (c ∷ cs) [] = ⊥

abbrev pub IsCookieName : StringView → Type 0
IsCookieName (null n) = ⊥
IsCookieName (view bs) = Spells bs (codes "cookie")

-- The first header with the name has the value `bs`; without such a header, and for a value that is
-- NULL, it is empty.
abbrev pub Sends : List RequestHeader → List ℕ → Type 0
Sends [] bs = bs ≡ []
Sends (header ∷ headers) bs =
    (IsCookieName header.name × ((header.value ≡ view bs) ⊎ ((header.value ≡ zeroed) × (bs ≡ []))))
    ⊎ (¬ (IsCookieName header.name) × Sends headers bs)

abbrev AllSmall : List ℕ → Type 0
AllSmall [] = Unit
AllSmall (l ∷ ls) = (b'a' ≤ l) × (l ≤ b'z') × AllSmall ls

ascii_lower-small : (l : ℕ) → b'a' ≤ l → l ≤ b'z' → ascii_lower l ≡ l
unfolding ascii_lower
ascii_lower-small l lo hi = ground arith

letter_iff :
    (c l : ℕ) → b'a' ≤ l → l ≤ b'z' → (ascii_lower c ≡ ascii_lower l) ↔ ((c ≡ l) ⊎ (c + 32 ≡ l))
unfolding ascii_lower
letter_iff c l lo hi = (λ h. ground arith, elim [ inl e ↦ ap ascii_lower e | inr e ↦ ground arith ])

head_tail : (c l : ℕ) (cs ls : List ℕ) → c ∷ cs ≡ l ∷ ls → (c ≡ l) × (cs ≡ ls)
head_tail c l cs ls h = (cc, cc)

Spells-iff :
    (cs ls : List ℕ) → AllSmall ls → (map ascii_lower cs ≡ map ascii_lower ls) ↔ Spells cs ls
Spells-iff [] [] a = (λ h. tt, λ h. refl)
Spells-iff [] (l ∷ ls) a = (λ h. absurd (cc), λ h. absurd h)
Spells-iff (c ∷ cs) [] a = (λ h. absurd (cc), λ h. absurd h)
Spells-iff (c ∷ cs) (l ∷ ls) (lo, hi, a) = (
  λ h.
      let (one, more) =
        head_tail (ascii_lower c) (ascii_lower l) (map ascii_lower cs) (map ascii_lower ls) h in
      ((letter_iff c l lo hi).0 one, (Spells-iff cs ls a).0 more),
  λ h. ap₂ (λ x xs. x ∷ xs) ((letter_iff c l lo hi).1 h.0) ((Spells-iff cs ls a).1 h.1),
)

small : map ascii_lower (codes "Cookie") ≡ map ascii_lower (codes "cookie")
unfolding ascii_lower
small = refl

IsCookieName-iff :
    (name : StringView) → (equal_ignore_case name cookie_name ≡ true) ↔ IsCookieName name
IsCookieName-iff (null n) = unfold equal_ignore_case in (λ h. ground arith, λ h. absurd h)
IsCookieName-iff (view bs) =
    let letters : AllSmall (codes "cookie") = (
      omega arith,
      omega arith,
      (
        omega arith,
        omega arith,
        (
          omega arith,
          omega arith,
          (omega arith, omega arith, (omega arith, omega arith, (omega arith, omega arith, tt))),
        ),
      ),
    ) in
    let spelled = Spells-iff bs (codes "cookie") letters in
    let equal = equal_ignore_case-view bs (codes "Cookie") in
    (λ h. spelled.0 (equal.0 h ∙ small), λ h. equal.1 (spelled.1 h ∙ sym small))

pub request_header-Sends :
    (headers : List RequestHeader) (bs : List ℕ)
    → Sends headers bs
    → (request_header headers cookie_name ≡ view bs)
      ⊎ ((request_header headers cookie_name ≡ zeroed) × (bs ≡ []))
unfolding request_header
request_header-Sends [] bs h = inr (refl, h)
request_header-Sends (header ∷ headers) bs (inl (named, value)) =
    let this = (IsCookieName-iff header.name).1 named in rw this value
request_header-Sends (header ∷ headers) bs (inr (other, sends)) =
    elim (Bool-cases (equal_ignore_case header.name cookie_name)) [
      | inl e ↦ absurd (other ((IsCookieName-iff header.name).0 e))
      | inr e ↦ rw e (request_header-Sends headers bs sends)
    ]
