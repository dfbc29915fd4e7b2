-- ===== src/Mime/Positions.antt =====
-- The two loops of asset_content_type in src/asset/mime.c: where they stop.
use ceasy.Prelude.{
  ℕ, zero, suc, ◌+◌, ◌≤◌, ◌<◌, ◌≡◌, ◌≢◌, refl, sym, ap, ◌∙◌, true, false, some, List, [], ◌∷◌, ◌++◌,
  ==_iff, get_elem?, arith, length, Bool-cases, Option-cases, inl, inr,
}
use mathlib.Core.Option.{some-injective}
use ceasy.StringView.Search.{Absent}
use ceasy.Mime.{is_at, after_slash, last_dot}

-- No byte from position `m` on is `c`.
abbrev pub NoneFrom : ℕ → ℕ → List ℕ → Type 0
NoneFrom c m bs = (i : ℕ) → m ≤ i → get_elem? bs i ≢ some c

Absent-NoneFrom : (c : ℕ) (xs : List ℕ) → Absent c xs → NoneFrom c 0 xs
Absent-NoneFrom c [] h i le = λ e. cc
Absent-NoneFrom c (x ∷ xs) h zero le = λ e. h.0 (some-injective _ _ e)
Absent-NoneFrom c (x ∷ xs) h (suc i) le = Absent-NoneFrom c xs h.1 i (omega arith)

pub NoneFrom-append :
    (c : ℕ) (front xs : List ℕ) → Absent c xs → NoneFrom c (length front) (front ++ xs)
NoneFrom-append c [] xs h i le = Absent-NoneFrom c xs h i le
NoneFrom-append c (y ∷ front) xs h zero le = absurd (omega arith)
NoneFrom-append c (y ∷ front) xs h (suc i) le = NoneFrom-append c front xs h i (omega arith)

pub get_elem-append :
    (front xs : List ℕ) (c : ℕ) → get_elem? (front ++ c ∷ xs) (length front) ≡ some c
get_elem-append [] xs c = refl
get_elem-append (y ∷ front) xs c = get_elem-append front xs c

pub NoneFrom-behind :
    (c x : ℕ) (front xs : List ℕ) → Absent c xs → NoneFrom c (suc (length front)) (front ++ x ∷ xs)
NoneFrom-behind c x [] xs h zero le = absurd (omega arith)
NoneFrom-behind c x [] xs h (suc i) le = Absent-NoneFrom c xs h i (omega arith)
NoneFrom-behind c x (y ∷ front) xs h zero le = absurd (omega arith)
NoneFrom-behind c x (y ∷ front) xs h (suc i) le = NoneFrom-behind c x front xs h i (omega arith)

-- A byte that is `c` stands before position `m`.
is_at_before : (bs : List ℕ) (m n c : ℕ) → NoneFrom c m bs → is_at bs n c ≡ true → n < m
is_at_before bs m n c h e = elim (Option-cases (get_elem? bs n)) [
  | inl f ↦ absurd (ground (arith, e, f))
  | inr (d, f) ↦
      let is : d ≡ c = (==_iff d c).0 (ground (arith, e, f)) in
      let no : m ≤ n → ⊥ = λ le. h n le (f ∙ ap some is) in ground (arith, no)
]

pub after_slash_le : (bs : List ℕ) (m n : ℕ) → NoneFrom b'/' m bs → after_slash bs n ≤ m
unfolding after_slash
after_slash_le bs m zero h = omega arith
after_slash_le bs m (suc n) h =
    let i = is_at_before bs m n b'/' h in let r = after_slash_le bs m n h in ground (arith, i, r)

pub after_slash_gt : (bs : List ℕ) (k n : ℕ) → is_at bs k b'/' ≡ true → k < n → k < after_slash bs n
unfolding after_slash
after_slash_gt bs k zero e lt = absurd (omega arith)
after_slash_gt bs k (suc n) e lt = elim (Bool-cases (is_at bs n b'/')) [
  | inl f ↦ rw f (omega arith)
  | inr f ↦
      let ne : k ≢ n = λ q. let b : true ≡ false = sym e ∙ ap (λ i. is_at bs i b'/') q ∙ f in cc in
      rw f (after_slash_gt bs k n e (omega (arith, ne)))
]

-- The last dot is found, if it stands behind the last slash.
pub last_dot-at :
    (bs : List ℕ) (l slash k rounds : ℕ)
    → is_at bs k b'.' ≡ true
    → NoneFrom b'.' (suc k) bs
    → slash ≤ k
    → k < slash + rounds
    → last_dot bs l slash rounds ≡ k
unfolding last_dot
last_dot-at bs l slash k zero e h le lt = absurd (omega arith)
last_dot-at bs l slash k (suc n) e h le lt = elim (Bool-cases (is_at bs (slash + n) b'.')) [
  | inl f ↦ let b = is_at_before bs (suc k) (slash + n) b'.' h f in rw f (omega (arith, b))
  | inr f ↦
      let ne : k ≢ slash + n =
        λ q. let b : true ≡ false = sym e ∙ ap (λ i. is_at bs i b'.') q ∙ f in cc in
      rw f (last_dot-at bs l slash k n e h le (omega (arith, ne)))
]

pub last_dot-Absent :
    (bs : List ℕ) (l slash rounds : ℕ) → NoneFrom b'.' slash bs → last_dot bs l slash rounds ≡ l
unfolding last_dot
last_dot-Absent bs l slash zero h = refl
last_dot-Absent bs l slash (suc n) h = elim (Bool-cases (is_at bs (slash + n) b'.')) [
  | inl f ↦ absurd (omega (arith, is_at_before bs slash (slash + n) b'.' h f))
  | inr f ↦ rw f (last_dot-Absent bs l slash n h)
]
