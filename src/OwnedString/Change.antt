-- ===== src/OwnedString/Change.antt =====
-- string_remove, string_upper, string_lower and string_clear of src/string/string.c.
use ceasy.Prelude.{
  ℕ, zero, suc, ◌+◌, ◌-◌, ◌≤◌, ◌<◌, ◌≡◌, ◌⊎◌, refl, sym, ap, ap₂, ◌∙◌, Bool, true, false, Option,
  none, some, List, [], ◌∷◌, ◌++◌, map, arith, ltb, ◌==◌, if◌then◌else◌, inl, inr, take, drop,
  drop-length, drop-nil, length, ltb→lt, codes, ◌&&◌, ==_iff, Bool-cases, le_of_not_ltb,
}
use ceasy.OwnedString.Memory.{
  Bytes, move, read, read-append, read-move_part, read-move_outside, take-read, drop-read,
  length-read,
}
use ceasy.OwnedString.Types.{Allocator, OwnedString}
use ceasy.OwnedString.Edit.{remove, each, to_upper, to_lower, upper, lower}
use ceasy.OwnedString.Contents.{text, Stored, IsValid, contents}

-- A loop over the text changes each of its bytes.
read-each :
    (f : ℕ → ℕ) (n : ℕ) (bytes : Bytes) (start k : ℕ)
    → start + k ≤ n
    → read (each f n bytes) start k ≡ map f (read bytes start k)
unfolding read
read-each f n bytes start zero h = refl
read-each f n bytes start (suc k) h =
    ap₂ (λ x xs. x ∷ xs) (unfold each in ground arith)
      (read-each f n bytes (start + 1) k (omega arith))

each-text :
    (f : ℕ → ℕ) (st : Option Bytes) (n c : ℕ)
    → Stored st n c
    → let st' : Option Bytes = elim st [ none ↦ none | some bytes ↦ some (each f n bytes) ] in
      Stored st' n c × (text st' n ≡ map f (text st n))
each-text f none n c h = (h, refl)
each-text f (some bytes) n c h = (
  (unfold each in let z = h.0 in ground (arith, z), h.1, h.2),
  read-each f n bytes 0 n (omega arith),
)

-- The letters of ASCII, in their order.
abbrev pub capitals : List ℕ
capitals = codes "ABCDEFGHIJKLMNOPQRSTUVWXYZ"

abbrev pub small_letters : List ℕ
small_letters = codes "abcdefghijklmnopqrstuvwxyz"

-- A letter of one alphabet becomes the letter at its place in the other; no other byte is changed.
abbrev pub translated : List ℕ → List ℕ → ℕ → ℕ
translated (x ∷ xs) (y ∷ ys) c = if c == x then y else translated xs ys c
translated _ _ c = c

abbrev all_below : ℕ → List ℕ → Bool
all_below bound [] = true
all_below bound (x ∷ xs) = ltb x bound && all_below bound xs

translated-beyond :
    (xs ys : List ℕ) (bound c : ℕ) → all_below bound xs ≡ true → bound ≤ c → translated xs ys c ≡ c
translated-beyond [] ys bound c h le = refl
translated-beyond (x ∷ xs) [] bound c h le = refl
translated-beyond (x ∷ xs) (y ∷ ys) bound c h le =
    let other : (c == x) ≡ false = not_equal c x bound (ground arith) le in
    rw (other) (translated-beyond xs ys bound c (ground arith) le)
  where
    not_equal : (a b bound : ℕ) → ltb b bound ≡ true → bound ≤ a → (a == b) ≡ false
    not_equal a b bound h le = ground arith

-- Two functions agree on all bytes below `n`.
abbrev same_below : (ℕ → ℕ) → (ℕ → ℕ) → ℕ → Bool
same_below f g zero = true
same_below f g (suc n) = f n == g n && same_below f g n

same_below_sound : (f g : ℕ → ℕ) (n c : ℕ) → same_below f g n ≡ true → c < n → f c ≡ g c
same_below_sound f g zero c h lt = absurd (omega arith)
same_below_sound f g (suc n) c h lt = elim (Bool-cases (c == n)) [
  | inl e ↦ rw ((==_iff c n).0 e) ((==_iff (f n) (g n)).0 (ground arith))
  | inr e ↦ same_below_sound f g n c (ground arith) (below c n lt e)
]
  where
    below : (a b : ℕ) → a < suc b → (a == b) ≡ false → a < b
    below a b h e = ground arith

to_upper-beyond : (c : ℕ) → 123 ≤ c → to_upper c ≡ c
unfolding to_upper
to_upper-beyond c h = ground arith

to_lower-beyond : (c : ℕ) → 123 ≤ c → to_lower c ≡ c
unfolding to_lower
to_lower-beyond c h = ground arith

to_upper_lem : (c : ℕ) → to_upper c ≡ translated small_letters capitals c
unfolding to_upper
to_upper_lem c = elim (Bool-cases (ltb c 123)) [
  | inl low ↦
      same_below_sound to_upper (translated small_letters capitals) 123 c refl (ltb→lt c 123 low)
  | inr high ↦
      let le = le_of_not_ltb c 123 high in
      to_upper-beyond c le ∙ sym (translated-beyond small_letters capitals 123 c refl le)
]

to_lower_lem : (c : ℕ) → to_lower c ≡ translated capitals small_letters c
unfolding to_lower
to_lower_lem c = elim (Bool-cases (ltb c 123)) [
  | inl low ↦
      same_below_sound to_lower (translated capitals small_letters) 123 c refl (ltb→lt c 123 low)
  | inr high ↦
      let le = le_of_not_ltb c 123 high in
      to_lower-beyond c le ∙ sym (translated-beyond capitals small_letters 123 c refl le)
]

map-agree : (f g : ℕ → ℕ) (xs : List ℕ) → ((c : ℕ) → f c ≡ g c) → map f xs ≡ map g xs
map-agree f g [] h = refl
map-agree f g (x ∷ xs) h = ap₂ (λ y ys. y ∷ ys) (h x) (map-agree f g xs h)

-- string_upper on a well-formed string leaves a well-formed string in whose text each small letter has
-- become the capital at its place in the alphabet, and string_lower one in whose text each capital has
-- become the small letter; all other bytes are as they were.
pub upper-lower :
    (s : OwnedString)
    → IsValid s
    → IsValid (upper s)
      × (contents (upper s) ≡ map (translated small_letters capitals) (contents s))
      × IsValid (lower s)
      × (contents (lower s) ≡ map (translated capitals small_letters) (contents s))
unfolding upper lower
upper-lower s v =
    let u = each-text to_upper s.storage s.length s.capacity v.stored in
    let l = each-text to_lower s.storage s.length s.capacity v.stored in
    (
      record { stored = u.0 },
      u.1 ∙ map-agree to_upper (translated small_letters capitals) (contents s) to_upper_lem,
      record { stored = l.0 },
      l.1 ∙ map-agree to_lower (translated capitals small_letters) (contents s) to_lower_lem,
    )

take-nil : (n : ℕ) → take {A = ℕ} n [] ≡ []
take-nil zero = refl
take-nil (suc n) = refl

-- The text behind a part, also one that is longer than the rest.
drop_cut :
    (xs : List ℕ) (start n k : ℕ)
    → (k ≡ n) ⊎ ((length xs ≤ start + n) × (length xs ≤ start + k))
    → drop (start + k) xs ≡ drop (start + n) xs
drop_cut xs start n k (inl e) = ap (λ j. drop (start + j) xs) e
drop_cut xs start n k (inr (a, b)) =
    drop-length (start + k) xs b ∙ sym (drop-length (start + n) xs a)

remove-text :
    (f : Bytes) (l c start k : ℕ)
    → Stored (some f) l c
    → start + k ≤ l
    → let g = move f start (start + k) (l - start - k + 1) in
      Stored (some g) (l - k) c
      × (read g 0 (l - k) ≡ take start (read f 0 l) ++ drop (start + k) (read f 0 l))
remove-text f l c start k h le =
    let m = l - start - k in
    let g = move f start (start + k) (m + 1) in
    let e : l - k ≡ start + m = omega arith in
    let all : start + k + m ≡ l = omega arith in
    let nul : g (l - k) ≡ 0 =
      unfold move in
      (let i : start + k + (l - k - start) ≡ l = omega arith in
        let z : f (start + k + (l - k - start)) ≡ 0 = ap f i ∙ h.0 in ground (arith, z)) in
    (
      (nul, omega (arith, h.1), h.2),
      ap (read g 0) e
          ∙ read-append g 0 start m
          ∙ ap₂ (λ a b. a ++ b)
              (read-move_outside f start (start + k) (m + 1) 0 start (inr (omega arith))
                ∙ sym (take-read f 0 start l (omega arith)))
              (ap (λ j. read g j m) (let z : 0 + start ≡ start + 0 = omega arith in z)
                ∙ read-move_part f start (start + k) (m + 1) 0 m (omega arith)
                ∙ ap (λ j. read f j m) (let z : start + k + 0 ≡ 0 + (start + k) = omega arith in z)
                ∙ sym (drop-read f 0 (start + k) m)
                ∙ ap (λ j. drop (start + k) (read f 0 j)) all),
    )

-- The two ways that a removal ends.
pub data Removed (s : OwnedString) (start n : ℕ) (result : Bool × OwnedString) : Type 0 where
  beyond : s.length < start → result ≡ (false, s) → Removed s start n result
  removed :
      (s' : OwnedString)
      → result ≡ (true, s')
      → start ≤ s.length
      → IsValid s'
      → contents s' ≡ take start (contents s) ++ drop (start + n) (contents s)
      → Removed s start n result

remove_inside :
    (st : Option Bytes) (l c : ℕ) (a : Allocator) (start n : ℕ)
    → Stored st l c
    → ltb l start ≡ false
    → let s : OwnedString = record { storage = st; length = l; capacity = c; allocator = a } in
      Removed s start n (remove s start n)
unfolding remove
remove_inside none l c a start n h e =
    let e' = le_of_not_ltb l start e in
    let s : OwnedString = record { storage = none; length = l; capacity = c; allocator = a } in
    let cut : ((if ltb (l - start) n then l - start else n) == 0) ≡ true =
      let z = h.0 in ground arith in
    removed s (rw (e, cut) refl) e' (record { stored = h })
      (sym (ap₂ (λ x y. x ++ y) (take-nil start) (drop-nil (start + n))))
remove_inside (some f) l c a start n h e =
    let e' = le_of_not_ltb l start e in
    let k : ℕ = (if ltb (l - start) n then l - start else n) in
    let t = remove-text f l c start k h (ground (arith, e')) in
    let r = length-read f 0 l in
    removed
      (record {
        storage = some (move f start (start + k) (l - start - k + 1));
        length = l - k;
        capacity = c;
        allocator = a;
      })
      (rw e refl) e' (record { stored = t.0 })
      (t.1
        ∙ ap (λ x. take start (read f 0 l) ++ x)
            (drop_cut (read f 0 l) start n k (cut_cases l start n e' r)))
  where
    cut_cases :
        (l start n : ℕ)
        → start ≤ l
        → {xs : ℕ} → xs ≡ l
        → ((if ltb (l - start) n then l - start else n) ≡ n)
          ⊎ ((xs ≤ start + n) × (xs ≤ start + (if ltb (l - start) n then l - start else n)))
    cut_cases l start n le e = elim (Bool-cases (ltb (l - start) n)) [
      | inl f ↦ rw f (inr (ground (arith, f), omega arith))
      | inr f ↦ rw f (inl refl)
    ]

-- string_remove on a well-formed string refuses a start behind the text, and leaves the string alone;
-- otherwise it cuts the bytes from there, as many as are asked for and as there are, and the string stays
-- well formed.
pub remove-Removed :
    (s : OwnedString) (start n : ℕ) → IsValid s → Removed s start n (remove s start n)
remove-Removed s start n v = elim (Bool-cases (ltb s.length start)) [
  | inl e ↦ beyond (ltb→lt s.length start e) (unfold remove in rw e refl)
  | inr e ↦ remove_inside s.storage s.length s.capacity s.allocator start n v.stored e
]
