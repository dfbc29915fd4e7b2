-- ===== src/Validation/Email.antt =====
-- validation_email_like of src/validation/validation.c against the shape of the texts it accepts.
use ceasy.Prelude.{
  ℕ, suc, ◌+◌, ◌≤◌, ◌<◌, ◌≡◌, ◌≢◌, ◌↔◌, refl, ap, ◌∙◌, Bool, true, false, some, List, [], ◌∷◌, ◌++◌,
  ◌==◌, ==_iff, arith, length, length-append, Bool-cases, Option-cases, inl, inr, size_max, All,
}
use ceasy.StringView.{view}
use ceasy.Validation.{email_scan, email_like}

module _ (isspace : ℕ → Bool) where
  -- No byte is a space or an at sign.
  abbrev pub Plain : List ℕ → Type 0
  Plain xs = All (λ c. (isspace c ≡ false) × ((c == b'@') ≡ false)) xs

  -- At most 254 bytes: plain ones, an at sign, and plain ones, at least one on each side.
  pub record IsEmail (bs : List ℕ) : Type 0 where
    pub local : List ℕ
    pub domain : List ℕ
    pub parts : bs ≡ local ++ b'@' ∷ domain
    pub has_local : 0 < length local
    pub has_domain : 0 < length domain
    pub local_Plain : Plain local
    pub domain_Plain : Plain domain
    pub short : length bs ≤ 254

  -- Behind the at sign.
  found_sound :
      (xs : List ℕ) (i at a : ℕ)
      → at ≢ size_max
      → email_scan isspace xs i at ≡ some a
      → (a ≡ at) × Plain xs
  unfolding email_scan
  found_sound [] i at a n h = (ground arith, tt)
  found_sound (c ∷ cs) i at a n h = elim (Bool-cases (isspace c)) [
    | inl e ↦ absurd (ground (arith, e))
    | inr e ↦ elim (Bool-cases (c == b'@')) [
      | inl f ↦ absurd (ground (arith, e, f, n, ==_iff at size_max))
      | inr f ↦ let r = found_sound cs (i + 1) at a n (ground (arith, e, f)) in (r.0, ((e, f), r.1))
    ]
  ]

  found_complete : (xs : List ℕ) (i at : ℕ) → Plain xs → email_scan isspace xs i at ≡ some at
  unfolding email_scan
  found_complete [] i at h = refl
  found_complete (c ∷ cs) i at h =
      let e = h.0.0 in let f = h.0.1 in rw (e, f) (found_complete cs (i + 1) at h.1)

  -- What the scan has found from `i` on.
  record Scanned (xs : List ℕ) (i a : ℕ) : Type 0 where
    before : List ℕ
    behind : List ℕ
    parts : xs ≡ before ++ b'@' ∷ behind
    before_Plain : Plain before
    behind_Plain : Plain behind
    position : a ≡ i + length before

  length-parts :
      (xs : List ℕ) (i a : ℕ) (s : Scanned xs i a)
      → length xs ≡ length s.before + suc (length s.behind)
  length-parts xs i a s = ap length s.parts ∙ length-append s.before (b'@' ∷ s.behind)

  scan_sound :
      (xs : List ℕ) (i a : ℕ)
      → i + length xs ≤ size_max
      → a ≢ size_max
      → email_scan isspace xs i size_max ≡ some a
      → Scanned xs i a
  unfolding email_scan
  scan_sound [] i a l n h = absurd (ground arith)
  scan_sound (c ∷ cs) i a l n h = elim (Bool-cases (isspace c)) [
    | inl e ↦ absurd (ground (arith, e))
    | inr e ↦ elim (Bool-cases (c == b'@')) [
      | inl f ↦
          let r = found_sound cs (i + 1) i a (omega arith) (ground (arith, e, f)) in
          record {
            before = [];
            behind = cs;
            parts = ap (λ x. x ∷ cs) ((==_iff c b'@').0 f);
            before_Plain = tt;
            behind_Plain = r.1;
            position = omega (arith, r.0);
          }
      | inr f ↦
          let r = scan_sound cs (i + 1) a (omega arith) n (ground (arith, e, f)) in
          record {
            before = c ∷ r.before;
            behind = r.behind;
            parts = ap (λ x. c ∷ x) r.parts;
            before_Plain = ((e, f), r.before_Plain);
            behind_Plain = r.behind_Plain;
            position = omega (arith, r.position);
          }
    ]
  ]

  email_like_sound : (bs : List ℕ) → email_like isspace (view bs) ≡ true → IsEmail bs
  unfolding email_like
  email_like_sound bs h = elim (Option-cases (email_scan isspace bs 0 size_max)) [
    | inl e ↦ absurd (ground (arith, e))
    | inr (a, e) ↦
        let short : length bs ≤ 254 = ground (arith, e) in
        let found : a ≢ size_max = ground (arith, e) in
        let front : 0 < a = ground (arith, e) in
        let back : a + 1 < length bs = ground (arith, e) in
        let s = scan_sound bs 0 a (omega arith) found e in
        let n = length-parts bs 0 a s in
        record {
          local = s.before;
          domain = s.behind;
          parts = s.parts;
          has_local = omega (arith, s.position, front);
          has_domain = omega (arith, s.position, back, n);
          local_Plain = s.before_Plain;
          domain_Plain = s.behind_Plain;
          short = short;
        }
  ]

module _ (isspace : ℕ → Bool) (at_sign : isspace b'@' ≡ false) where
  scan_complete :
      (l r : List ℕ) (i : ℕ)
      → Plain isspace l
      → Plain isspace r
      → email_scan isspace (l ++ b'@' ∷ r) i size_max ≡ some (i + length l)
  unfolding email_scan
  scan_complete [] r i h k =
      let e = at_sign in
      let f = found_complete isspace r (i + 1) i k in rw e (f ∙ ap some (omega arith))
  scan_complete (c ∷ l) r i h k =
      let e = h.0.0 in
      let f = h.0.1 in rw (e, f) (scan_complete l r (i + 1) h.1 k ∙ ap some (omega arith))

  email_like_complete : (bs : List ℕ) → IsEmail isspace bs → email_like isspace (view bs) ≡ true
  unfolding email_like
  email_like_complete bs m =
      let e : email_scan isspace bs 0 size_max ≡ some (length m.local) =
        ap (λ x. email_scan isspace x 0 size_max) m.parts
        ∙ scan_complete m.local m.domain 0 m.local_Plain m.domain_Plain
        ∙ ap some (omega arith) in
      let n = ap length m.parts ∙ length-append m.local (b'@' ∷ m.domain) in
      let front = m.has_local in
      let back = m.has_domain in let short = m.short in ground (arith, e, n, front, back, short)

  -- `validation_email_like` on a non-NULL view accepts exactly at most 254 bytes with one at sign, not
  -- in front and not at the end, and no space. `isspace` takes no at sign for a space.
  pub email_like_iff : (bs : List ℕ) → (email_like isspace (view bs) ≡ true) ↔ IsEmail isspace bs
  unfolding email_like
  email_like_iff bs = (λ h. email_like_sound isspace bs h, λ h. email_like_complete bs h)
