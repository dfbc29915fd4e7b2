-- ===== src/Cookies/Texts.antt =====
-- src/http/cookie.c: what makes a piece of the Cookie header a cookie, apart from the code: spaces,
-- tokens, and the name and value of a piece.
use ceasy.Prelude.{
  All, ℕ, zero, suc, ◌+◌, ◌-◌, ◌≤◌, ◌<◌, ◌≡◌, ◌≢◌, ◌⊎◌, ◌↔◌, refl, ap, sym, ◌∙◌, Bool, true, false,
  none, some, List, [], ◌∷◌, ◌++◌, take, drop, length, length-take, length-drop, length-append,
  arith, Bool-cases, inl, inr,
}
use ceasy.StringView.{view, trim}
use ceasy.StringView.Bytes.{ascii_space}
use ceasy.StringView.Trim.{space_at, AllSpaces, space_at-drop, Trims, trim-Trims}
use ceasy.StringView.Search.{Absent, split_once_char_cases}
use ceasy.Cookies.{CookieParam, token, token_bytes, read_pair}

abbrev pub IsSpace : ℕ → Type 0
IsSpace c = (c ≡ 32) ⊎ ((9 ≤ c) × (c ≤ 13))

ascii_space_iff : (c : ℕ) → (ascii_space c ≡ true) ↔ IsSpace c
unfolding ascii_space
ascii_space_iff c = (λ h. ground arith, λ h. ground arith)

-- The text without the spaces at both its ends.
pub record IsTrimmed (bs text : List ℕ) : Type 0 where
  pub before : List ℕ
  pub after : List ℕ
  pub split : bs ≡ before ++ (text ++ after)
  pub before_spaces : All IsSpace before
  pub after_spaces : All IsSpace after
  pub first : (c : ℕ) (rest : List ℕ) → text ≡ c ∷ rest → ¬ (IsSpace c)
  pub last : (rest : List ℕ) (c : ℕ) → text ≡ rest ++ c ∷ [] → ¬ (IsSpace c)

-- A name has bytes, and all of them are above the space and none of them is a semicolon or an equals
-- sign; where `char` has a sign they are ASCII.
abbrev pub TokenByte : Bool → ℕ → Type 0
TokenByte signed c = (32 < c) × (c ≢ b';') × (c ≢ b'=') × (signed ≡ true → c < 128)

abbrev pub IsToken : Bool → List ℕ → Type 0
IsToken signed name = (0 < length name) × All (TokenByte signed) name

-- The piece, without spaces around it, has an equals sign. In front of the first one stands the name,
-- behind it the value, both without spaces around them.
pub record Cut (piece name value : List ℕ) : Type 0 where
  pub text : List ℕ
  pub left : List ℕ
  pub right : List ℕ
  pub trimmed : IsTrimmed piece text
  pub cut : text ≡ left ++ b'=' ∷ right
  pub first_cut : Absent b'=' left
  pub name_trimmed : IsTrimmed left name
  pub value_trimmed : IsTrimmed right value

-- The piece is no cookie: it has no equals sign, or its name is no token.
abbrev pub NoCookie : Bool → List ℕ → Type 0
NoCookie signed piece =
    ((text : List ℕ) × IsTrimmed piece text × Absent b'=' text)
    ⊎ ((name : List ℕ) × (value : List ℕ) × Cut piece name value × ¬ (IsToken signed name))

space_at-take :
    (n : ℕ) (xs : List ℕ) (i : ℕ) → i < n → n ≤ length xs → space_at (take n xs) i ≡ space_at xs i
space_at-take zero xs i h l = absurd (omega arith)
space_at-take (suc n) [] i h l = absurd (omega arith)
space_at-take (suc n) (x ∷ xs) zero h l = refl
space_at-take (suc n) (x ∷ xs) (suc i) h l = space_at-take n xs i (omega arith) (omega arith)

space_at-last : (l : List ℕ) (c : ℕ) → space_at (l ++ c ∷ []) (length l) ≡ ascii_space c
space_at-last [] c = refl
space_at-last (x ∷ l) c = space_at-last l c

spaces-All : (xs : List ℕ) → AllSpaces xs 0 (length xs) → All IsSpace xs
spaces-All [] h = tt
spaces-All (x ∷ xs) h = (
  (ascii_space_iff x).0 (h 0 (omega arith) (omega arith)),
  spaces-All xs (λ i lo hi. h (suc i) (omega arith) (omega arith)),
)

take-drop : (n : ℕ) (xs : List ℕ) → take n xs ++ drop n xs ≡ xs
take-drop zero xs = refl
take-drop (suc n) [] = refl
take-drop (suc n) (x ∷ xs) = ap (λ l. x ∷ l) (take-drop n xs)

trimmed :
    (xs : List ℕ) (start len : ℕ) → Trims xs start len → IsTrimmed xs (take len (drop start xs))
trimmed xs start len t =
    let ys = drop start xs in
    let text = take len ys in
    let ys_length : length ys ≡ length xs - start = length-drop start xs in
    let room : len ≤ length ys = omega (arith, t.inside) in
    let text_length : length text ≡ len = length-take len ys room in
    record {
      before = take start xs;
      after = drop len ys;
      split = sym (take-drop start xs) ∙ ap (λ l. take start xs ++ l) (sym (take-drop len ys));
      before_spaces = spaces-All (take start xs) (λ i lo hi.
          let inside : start ≤ length xs = omega (arith, t.inside) in
          let less : i < start = omega (arith, length-take start xs inside) in
          space_at-take start xs i less inside ∙ t.before i lo less);
      after_spaces = spaces-All (drop len ys) (λ i lo hi.
          space_at-drop len ys i
          ∙ space_at-drop start xs (len + i)
          ∙ t.after (start + (len + i)) (omega arith)
              (omega (arith, length-drop len ys, t.inside)));
      first = λ c rest e sp.
          let some_bytes : 0 < len = omega (arith, ap length e) in
          let here : space_at text 0 ≡ ascii_space c = ap (λ l. space_at l 0) e in
          let there : space_at text 0 ≡ space_at xs start =
            space_at-take len ys 0 some_bytes room
            ∙ space_at-drop start xs 0
            ∙ ap (space_at xs) (omega arith) in
          ground (arith, here, there, (t.ends some_bytes).0, (ascii_space_iff c).1 sp);
      last = λ rest c e sp.
          let count : length rest + 1 ≡ len =
            omega (arith, ap length e, length-append rest (c ∷ [])) in
          let some_bytes : 0 < len = omega arith in
          let place : length rest ≡ len - 1 = omega arith in
          let here : space_at text (length rest) ≡ ascii_space c =
            ap (λ l. space_at l (length rest)) e ∙ space_at-last rest c in
          let there : space_at text (length rest) ≡ space_at xs (start + (len - 1)) =
            space_at-take len ys (length rest) (omega arith) room
            ∙ space_at-drop start xs (length rest)
            ∙ ap (λ k. space_at xs (start + k)) place in
          ground (arith, here, there, (t.ends some_bytes).1, (ascii_space_iff c).1 sp);
    }

-- stringv_trim on a non-NULL view, as a text without spaces around it.
pub trim-IsTrimmed :
    (xs : List ℕ) → (text : List ℕ) × IsTrimmed xs text × (trim (view xs) ≡ view text)
trim-IsTrimmed xs =
    let (start, len, t) = trim-Trims xs in
    (take len (drop start xs), trimmed xs start len t, t.result)

token_bytes_iff :
    (signed : Bool) (cs : List ℕ) → (token_bytes signed cs ≡ true) ↔ All (TokenByte signed) cs
unfolding token_bytes
token_bytes_iff signed [] = (λ h. tt, λ h. refl)
token_bytes_iff true (c ∷ cs) = (
  λ h. (
    (ground arith, λ e. ground arith, λ e. ground arith, λ e. ground arith),
    (token_bytes_iff true cs).0 (ground arith),
  ),
  λ h. ground (arith, h.0.0, h.0.1, h.0.2, h.0.3 refl, (token_bytes_iff true cs).1 h.1),
)
token_bytes_iff false (c ∷ cs) = (
  λ h. (
    (ground arith, λ e. ground arith, λ e. ground arith, λ e. ground arith),
    (token_bytes_iff false cs).0 (ground arith),
  ),
  λ h. ground (arith, h.0.0, h.0.1, h.0.2, (token_bytes_iff false cs).1 h.1),
)

token_iff :
    (signed : Bool) (name : List ℕ) → (token signed (view name) ≡ true) ↔ IsToken signed name
unfolding token
token_iff signed [] = (λ h. ground arith, λ h. absurd (omega (arith, h.0)))
token_iff signed (c ∷ cs) = (
  λ h. (omega arith, (token_bytes_iff signed (c ∷ cs)).0 (ground arith)),
  λ h. ground (arith, (token_bytes_iff signed (c ∷ cs)).1 h.1),
)

abbrev pub cookie_of : List ℕ × List ℕ → CookieParam
cookie_of pair = record { name = view pair.0; value = view pair.1 }

-- What read_pair makes of a piece.
pub read_pair_cases :
    (signed : Bool) (piece : List ℕ)
    → (NoCookie signed piece × (read_pair signed (view piece) ≡ none))
      ⊎ ((name : List ℕ) × (value : List ℕ) × Cut piece name value
          × IsToken signed name
          × (read_pair signed (view piece) ≡ some (cookie_of (name, value))))
unfolding read_pair
read_pair_cases signed piece =
    let (text, trimmed, e) = trim-IsTrimmed piece in
    elim (split_once_char_cases text b'=') [
      | inl (absent, split) ↦ inl (inl (text, trimmed, absent), ground (arith, e, split))
      | inr (l, r, absent, cut, split) ↦
          let (name, name_trimmed, ne) = trim-IsTrimmed l in
          let (value, value_trimmed, ve) = trim-IsTrimmed r in
          let parts : Cut piece name value = record {
            text = text;
            left = l;
            right = r;
            trimmed = trimmed;
            cut = cut;
            first_cut = absent;
            name_trimmed = name_trimmed;
            value_trimmed = value_trimmed;
          } in
          elim (Bool-cases (token signed (view name))) [
            | inl t ↦ inr (
              name,
              value,
              parts,
              (token_iff signed name).0 t,
              ground (arith, e, split, ne, ve, t),
            )
            | inr t ↦ inl (
              inr (name, value, parts, λ h. ground (arith, t, (token_iff signed name).1 h)),
              ground (arith, e, split, ne, ve, t),
            )
          ]
    ]
