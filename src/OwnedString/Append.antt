-- ===== src/OwnedString/Append.antt =====
-- string_append of src/string/string.c: what is in the string afterwards.
use ceasy.Prelude.{
  ℕ, ◌+◌, ◌-◌, ◌≡◌, refl, sym, ap, ap₂, ◌∙◌, Bool, true, false, Option, none, some, List, [], ◌∷◌,
  ◌++◌, arith, size_max, ltb, ◌==◌, inl, inr, take, drop, append-nil, Bool-cases, ==_iff,
  le_of_not_ltb, pos_of_not_zero,
}
use ceasy.StringView.{null, view}
use ceasy.OwnedString.Memory.{Bytes, write, write_self, read, read-append, read-write}
use ceasy.OwnedString.Types.{
  OwnedString, Source, outside, inside, source_length, source_valid, Run, ok, ◌>>=◌,
}
use ceasy.OwnedString.Reserve.{reserve}
use ceasy.OwnedString.Edit.{append}
use ceasy.OwnedString.Contents.{IsValid, contents, Readable, source_text}
use ceasy.OwnedString.Reserved.{Grown, Stored-le, refused, made, reserve-Reservation}
use ceasy.OwnedString.Filled.{filling, fill-Filled, read-part}

-- An operation fails and leaves the string as it was, or succeeds, and the string then holds `result`.
pub data Edited (s : OwnedString) (result : List ℕ) (run : Run (Bool × OwnedString)) : Type 0 where
  kept : run ≡ ok (false, s) → Edited s result run
  edited :
      (s' : OwnedString)
      → run ≡ ok (true, s')
      → IsValid s'
      → contents s' ≡ result
      → s'.allocator ≡ s.allocator
      → Edited s result run

pub Readable-valid : (s : OwnedString) (src : Source) → Readable s src → source_valid src ≡ true
Readable-valid s (outside v) r = r
Readable-valid s (inside offset n) r = refl

pub source_text-empty :
    (s : OwnedString) (src : Source) → source_length src ≡ 0 → source_text s src ≡ []
source_text-empty s (outside (null n)) h = refl
source_text-empty s (outside (view [])) h = refl
source_text-empty s (outside (view (c ∷ cs))) h = absurd (omega arith)
source_text-empty s (inside offset n) h = ap (λ k. take k (drop offset (contents s))) h

-- The bytes that are written are those of the view before the operation.
pub filling-text :
    (s : OwnedString) (src : Source) (f : Bytes)
    → Readable s src
    → read f 0 s.length ≡ contents s
    → filling f src 0 ≡ source_text s src
filling-text s (outside v) f r e = refl
filling-text s (inside offset n) f r e =
    let z : offset + 0 ≡ offset = omega arith in
    ap (λ k. read f k n) z ∙ read-part f s.length offset n r.0 ∙ ap (λ t. take n (drop offset t)) e

append-made :
    (s : OwnedString) (src : Source) (fresh : Option Bytes) (st : Option Bytes) (c : ℕ)
    → IsValid s
    → Readable s src
    → (source_length src == 0) ≡ false
    → ltb (size_max - s.length) (source_length src) ≡ false
    → Grown s.storage s.length s.capacity (s.length + source_length src) st c
    → reserve s (s.length + source_length src) fresh
      ≡ (true, record s { storage = st; capacity = c })
    → Edited s (contents s ++ source_text s src) (append s src fresh)
unfolding append
append-made s src fresh none c v r pos fits g e =
    absurd (omega (arith, g.stored.1, g.roomy, pos_of_not_zero (source_length src) pos))
append-made s src fresh (some f) c v r pos fits g e =
    let n = s.length in
    let m = source_length src in
    let w = fill-Filled s src f n 0 v r in
    let memory = write w.memory (n + m) 0 in
    let ok_source = Readable-valid s src r in
    let same : read f 0 n ≡ contents s = g.same_text in
    let z : 0 + n ≡ n = omega arith in
    edited (record s { storage = some memory; capacity = c; length = n + m })
      (rw (ok_source, fits, pos, e)
        (ap
          (λ x. x >>= (λ bytes'. ok (
            true,
            record s { storage = some (write bytes' (n + m) 0); capacity = c; length = n + m },
          )))
          w.returned))
      (record { stored = (write_self w.memory (n + m) 0, g.roomy, g.stored.2) })
      (read-write w.memory (n + m) 0 0 (n + m) (inr (omega arith))
        ∙ read-append w.memory 0 n m
        ∙ ap₂ (λ a b. a ++ b) (w.before 0 n (omega arith) ∙ same)
            (ap (λ k. read w.memory k m) z ∙ w.there ∙ filling-text s src f r same))
      refl

-- string_append on a well-formed string and a view that may be read, also one of the string itself: it
-- appends the view's bytes and leaves a well-formed string, or fails and leaves the string alone.
pub append-Edited :
    (s : OwnedString) (src : Source) (fresh : Option Bytes)
    → IsValid s
    → Readable s src
    → Edited s (contents s ++ source_text s src) (append s src fresh)
append-Edited s src fresh v r =
    let ok_source = Readable-valid s src r in
    elim (Bool-cases (ltb (size_max - s.length) (source_length src))) [
      | inl e ↦ kept (unfold append in rw (ok_source, e) refl)
      | inr e ↦ elim (Bool-cases (source_length src == 0)) [
        | inl f ↦
            edited s (unfold append in rw (ok_source, e, f) refl) v
              (sym (
                ap (λ t. contents s ++ t)
                  (source_text-empty s src ((==_iff (source_length src) 0).0 f))
                ∙ append-nil (contents s)))
              refl
        | inr f ↦
            elim (reserve-Reservation s (s.length + source_length src) fresh v (
              omega (
                arith,
                le_of_not_ltb (size_max - s.length) (source_length src) e,
                Stored-le s.storage s.length s.capacity v.stored,
              ))) [
                | refused g ↦ kept (unfold append in rw (ok_source, e, f, g) refl)
                | made st c g q ↦ append-made s src fresh st c v r f e g q
              ]
      ]
    ]
