-- ===== src/Html/Succeeds.antt =====
-- src/rendering/html.c: html_escape_append succeeds where there is memory.
use ceasy.Prelude.{
  ℕ, ◌+◌, ◌*◌, ◌≤◌, ◌<◌, ◌≡◌, ◌≢◌, refl, ap, sym, ◌∙◌, Bool, true, false, ◌||◌, Option, none, some,
  List, [], ◌∷◌, size_max, length, length-append, Option-cases, inl, inr, arith,
}
use ceasy.StringView.{view}
use ceasy.OwnedString.Memory.{Bytes, length-read}
use ceasy.OwnedString.Types.{OwnedString, outside, Run, fault, ok}
use ceasy.OwnedString.Edit.{append_char}
use ceasy.OwnedString.Contents.{IsValid, Stored, contents, text}
use ceasy.OwnedString.Append.{kept, edited}
use ceasy.OwnedString.Succeeds.{append_succeeds}
use ceasy.Html.{entity, escape_byte, escape_from, escape_append}
use ceasy.Html.Escape.{escaped_byte, escaped_byte-Kind, escape_byte-Edited, escape_from-went}

length-text : (o : Option Bytes) (n capacity : ℕ) → Stored o n capacity → length (text o n) ≡ n
length-text none n capacity h = sym h.0
length-text (some bytes) n capacity h = length-read bytes 0 n

length-contents : (s : OwnedString) → IsValid s → length (contents s) ≡ s.length
length-contents s v = length-text s.storage s.length s.capacity v.stored

-- An entity is at most six bytes long.
escaped_byte-le : (c : ℕ) → length (escaped_byte c) ≤ 6
unfolding entity
escaped_byte-le c = ground arith

entity-le : (c : ℕ) (escaped : List ℕ) → entity c ≡ some escaped → length escaped ≤ 6
unfolding entity
entity-le c escaped e = rw (← escaped_byte-Kind c escaped e) (escaped_byte-le c)

escape_byte_succeeds :
    (s : OwnedString) (c : ℕ) (bytes : Bytes)
    → IsValid s
    → (s.allocator.realloc || s.allocator.alloc) ≡ true
    → s.length + 6 < size_max
    → (s' : OwnedString) × (escape_byte s c (some bytes) ≡ ok (true, s'))
unfolding escape_byte append_char
escape_byte_succeeds s c bytes v memory small = elim (Option-cases (entity c)) [
  | inl e ↦
      let (s', made) =
        append_succeeds s (outside (view (c ∷ []))) bytes v refl memory (omega arith) in
      (s', simp (escape_byte, e) made)
  | inr (escaped, e) ↦
      let short = entity-le c escaped e in
      let (s', made) =
        append_succeeds s (outside (view escaped)) bytes v refl memory (omega arith) in
      (s', simp (escape_byte, e) made)
]

-- The string is longer by what is written for the byte, and has its allocator still.
escape_byte-grows :
    (s s' : OwnedString) (c : ℕ) (fresh : Option Bytes)
    → IsValid s
    → escape_byte s c fresh ≡ ok (true, s')
    → IsValid s' × (s'.length ≤ s.length + 6) × (s'.allocator ≡ s.allocator)
escape_byte-grows s s' c fresh v made = elim (escape_byte-Edited s c fresh v) [
  | kept e ↦ absurd (not_both s s' (sym e ∙ made))
  | edited other e w text same_allocator ↦
      let same : other ≡ s' = run_injective other s' (sym e ∙ made) in
      let short = escaped_byte-le c in
      let longer : other.length ≤ s.length + 6 = omega (
        arith,
        length-contents other w,
        ap (λ t. length t) text,
        length-append (contents s) (escaped_byte c),
        length-contents s v,
      ) in
      (
        coe 0 1 (i. IsValid (same i)) w,
        coe 0 1 (i. (same i).length ≤ s.length + 6) longer,
        ap (λ (m : OwnedString). m.allocator) (sym same) ∙ same_allocator,
      )
]
  where
    not_both :
        (a b : OwnedString) → ◌≢◌ {A = Run (Bool × OwnedString)} (ok (false, a)) (ok (true, b))
    not_both a b h = ground arith

    run_injective :
        (a b : OwnedString)
        → ◌≡◌ {A = Run (Bool × OwnedString)} (ok (true, a)) (ok (true, b))
        → a ≡ b
    run_injective a b h = ap (λ (r : Run (Bool × OwnedString)). elim r [ fault ↦ a | ok p ↦ p.1 ]) h

escape_from_succeeds :
    (s : OwnedString) (bs : List ℕ) (fresh : ℕ → Bytes) (index : ℕ)
    → IsValid s
    → (s.allocator.realloc || s.allocator.alloc) ≡ true
    → s.length + 6 * length bs < size_max
    → (s' : OwnedString) × (escape_from s bs (λ i. some (fresh i)) index ≡ ok (true, s'))
escape_from_succeeds s [] fresh index v memory small = (s, unfold escape_from in refl)
escape_from_succeeds s (c ∷ cs) fresh index v memory small =
    let (next, made) = escape_byte_succeeds s c (fresh index) v memory (omega arith) in
    let (w, longer, same) = escape_byte-grows s next c (some (fresh index)) v made in
    let memory' : (next.allocator.realloc || next.allocator.alloc) ≡ true = rw (same) memory in
    let (last, rest) = escape_from_succeeds next cs fresh (index + 1) w memory' (omega arith) in
    (last, escape_from-went s next c cs (λ i. some (fresh i)) index made ∙ rest)

-- html_escape_append succeeds on a well-formed string and a view that is not NULL, if the allocator has
-- a function that allocates, gives memory, and six bytes for each byte of the view keep the string
-- shorter than SIZE_MAX.
pub escape_append_succeeds :
    (s : OwnedString) (bs : List ℕ) (fresh : ℕ → Bytes)
    → IsValid s
    → (s.allocator.realloc || s.allocator.alloc) ≡ true
    → s.length + 6 * length bs < size_max
    → (s' : OwnedString) × (escape_append s (view bs) (λ i. some (fresh i)) ≡ ok (true, s'))
unfolding escape_append
escape_append_succeeds s bs fresh v memory small = escape_from_succeeds s bs fresh 0 v memory small
