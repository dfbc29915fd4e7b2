-- ===== src/OwnedString/Insert.antt =====
-- string_prepend and string_copy of src/string/string.c.
use ceasy.Prelude.{
  ℕ, ◌+◌, ◌-◌, ◌≤◌, ◌≡◌, refl, sym, ap, ap₂, ◌∙◌, Bool, true, false, Option, none, some, ◌++◌,
  arith, size_max, ltb, leb, ◌==◌, inl, inr, Bool-cases, ==_iff, le_of_not_ltb, pos_of_not_zero,
}
use ceasy.OwnedString.Memory.{
  Bytes, write, write_self, move, read, read-append, read-write, read-move_part,
}
use ceasy.OwnedString.Types.{
  OwnedString, Source, outside, inside, source_length, source_valid, storage_offset, Run, fault, ok,
  ◌>>=◌, data_of,
}
use ceasy.OwnedString.Reserve.{reserve, terminated}
use ceasy.OwnedString.Edit.{prepend, copy}
use ceasy.OwnedString.Contents.{IsValid, contents, Readable, source_text}
use ceasy.OwnedString.Reserved.{Grown, Stored-le, refused, made, reserve-Reservation}
use ceasy.OwnedString.Filled.{filling, fill-Filled, storage_offset-inside}
use ceasy.OwnedString.Append.{Edited, kept, edited, Readable-valid, source_text-empty, filling-text}

-- Where the text has been moved up by `m` bytes, the view is read `m` bytes further on.
filling-moved :
    (s : OwnedString) (src : Source) (f : Bytes) (m : ℕ)
    → Readable s src
    → read f 0 s.length ≡ contents s
    → filling (move f m 0 (s.length + 1)) src m ≡ source_text s src
filling-moved s (outside v) f m r e = refl
filling-moved s (inside offset n) f m r e =
    let z : offset + m ≡ m + offset = omega arith in
    ap (λ k. read (move f m 0 (s.length + 1)) k n) z
    ∙ read-move_part f m 0 (s.length + 1) offset n (omega (arith, r.0))
    ∙ ap (λ k. read f k n) (let y : 0 + offset ≡ offset + 0 = omega arith in y)
    ∙ filling-text s (inside offset n) f r e

too_far-Readable :
    (s : OwnedString) (src : Source)
    → IsValid s
    → Readable s src
    → elim (storage_offset s src) as (λ x. Bool) [
      | none ↦ false
      | some o ↦ ltb (size_max - source_length src) o
    ]
      ≡ false
too_far-Readable s (outside w) v r = unfold storage_offset in refl
too_far-Readable s (inside offset n) v r =
    let b = Stored-le s.storage s.length s.capacity v.stored in
    rw (storage_offset-inside s offset n v r) (near n offset (omega (arith, r.0, b.0, b.1)))
  where
    near : (m o : ℕ) → m + o ≤ size_max → ltb (size_max - m) o ≡ false
    near m o h = ground arith

prepend-made :
    (s : OwnedString) (src : Source) (fresh : Option Bytes) (st : Option Bytes) (c : ℕ)
    → IsValid s
    → Readable s src
    → (source_length src == 0) ≡ false
    → ltb (size_max - s.length) (source_length src) ≡ false
    → Grown s.storage s.length s.capacity (s.length + source_length src) st c
    → reserve s (s.length + source_length src) fresh
      ≡ (true, record s { storage = st; capacity = c })
    → Edited s (source_text s src ++ contents s) (prepend s src fresh)
unfolding prepend
prepend-made s src fresh none c v r pos fits g e =
    absurd (omega (arith, g.stored.1, g.roomy, pos_of_not_zero (source_length src) pos))
prepend-made s src fresh (some f) c v r pos fits g e =
    let n = s.length in
    let m = source_length src in
    let moved = move f m 0 (n + 1) in
    let w = fill-Filled s src moved 0 m v r in
    let memory = write w.memory (n + m) 0 in
    let ok_source = Readable-valid s src r in
    let same : read f 0 n ≡ contents s = g.same_text in
    let swap : n + m ≡ m + n = omega arith in
    edited (record s { storage = some memory; capacity = c; length = n + m })
      (rw (ok_source, fits, pos, e, too_far-Readable s src v r)
        (ap
          (λ x. x >>= (λ bytes'. ok (
            true,
            record s { storage = some (write bytes' (n + m) 0); capacity = c; length = n + m },
          )))
          w.returned))
      (record { stored = (write_self w.memory (n + m) 0, g.roomy, g.stored.2) })
      (read-write w.memory (n + m) 0 0 (n + m) (inr (omega arith))
        ∙ ap (read w.memory 0) swap
        ∙ read-append w.memory 0 m n
        ∙ ap₂ (λ a b. a ++ b) (w.there ∙ filling-moved s src f m r same)
            (w.behind (0 + m) n (omega arith)
              ∙ ap (λ k. read moved k n) (let z : 0 + m ≡ m + 0 = omega arith in z)
              ∙ read-move_part f m 0 (n + 1) 0 n (omega arith)
              ∙ ap (λ k. read f k n) (let z : 0 + 0 ≡ 0 = omega arith in z)
              ∙ same))
      refl

-- string_prepend on a well-formed string and a view that may be read, also one of the string itself: it
-- puts the view's bytes in front and leaves a well-formed string, or fails and leaves the string alone.
pub prepend-Edited :
    (s : OwnedString) (src : Source) (fresh : Option Bytes)
    → IsValid s
    → Readable s src
    → Edited s (source_text s src ++ contents s) (prepend s src fresh)
prepend-Edited s src fresh v r =
    let ok_source = Readable-valid s src r in
    elim (Bool-cases (ltb (size_max - s.length) (source_length src))) [
      | inl e ↦ kept (unfold prepend in rw (ok_source, e) refl)
      | inr e ↦ elim (Bool-cases (source_length src == 0)) [
        | inl f ↦
            edited s (unfold prepend in rw (ok_source, e, f) refl) v
              (sym (
                ap (λ t. t ++ contents s)
                  (source_text-empty s src ((==_iff (source_length src) 0).0 f))))
              refl
        | inr f ↦
            elim (reserve-Reservation s (s.length + source_length src) fresh v (
              omega (
                arith,
                le_of_not_ltb (size_max - s.length) (source_length src) e,
                Stored-le s.storage s.length s.capacity v.stored,
              ))) [
                | refused g ↦ kept (unfold prepend in rw (ok_source, e, f, g) refl)
                | made st c g q ↦ prepend-made s src fresh st c v r f e g q
              ]
      ]
    ]

copy-made :
    (s : OwnedString) (src : Source) (fresh : Option Bytes) (st : Option Bytes) (c : ℕ)
    → IsValid s
    → Readable s src
    → (s.storage ≡ none → (source_length src == 0) ≡ false)
    → Grown s.storage s.length s.capacity (source_length src) st c
    → reserve s (source_length src) fresh ≡ (true, record s { storage = st; capacity = c })
    → Edited s (source_text s src) (copy s src fresh)
unfolding copy
copy-made s src fresh none c v r some_storage g e = absurd (
    omega (
      arith,
      g.stored.1,
      g.roomy,
      pos_of_not_zero (source_length src) (some_storage (g.stays refl)),
    ))
copy-made s src fresh (some f) c v r some_storage g e =
    let n = s.length in
    let m = source_length src in
    let ok_source = Readable-valid s src r in
    elim (Bool-cases (m == 0)) [
      | inl z ↦
          let is : m ≡ 0 = (==_iff m 0).0 z in
          edited (record s { storage = some (write f m 0); capacity = c; length = m })
            (rw (ok_source, e, z) refl)
            (record { stored = (write_self f m 0, g.roomy, g.stored.2) })
            (ap (read (write f m 0) 0) is ∙ (unfold read in sym (source_text-empty s src is))) refl
      | inr z ↦
          let w = fill-Filled s src f 0 0 v r in
          edited (record s { storage = some (write w.memory m 0); capacity = c; length = m })
            (rw (ok_source, e, z)
              (ap
                (λ x. x >>= (λ bytes'.
                  ok (
                    true,
                    record s { storage = some (write bytes' m 0); capacity = c; length = m },
                  )))
                w.returned))
            (record { stored = (write_self w.memory m 0, g.roomy, g.stored.2) })
            (read-write w.memory m 0 0 m (inr (omega arith))
              ∙ w.there
              ∙ filling-text s src f r g.same_text)
            refl
    ]

-- string_copy on a well-formed string and a view that may be read, also one of the string itself: the
-- string then holds the view's bytes and is well formed, or the copy fails and leaves the string alone.
-- Where the string has no storage yet the view is not empty, and no view is longer than SIZE_MAX.
pub copy-Edited :
    (s : OwnedString) (src : Source) (fresh : Option Bytes)
    → IsValid s
    → Readable s src
    → (s.storage ≡ none → (source_length src == 0) ≡ false)
    → source_length src ≤ size_max
    → Edited s (source_text s src) (copy s src fresh)
copy-Edited s src fresh v r some_storage short =
    elim (reserve-Reservation s (source_length src) fresh v short) [
      | refused g ↦ kept (unfold copy in rw (Readable-valid s src r, g) refl)
      | made st c g q ↦ copy-made s src fresh st c v r some_storage g q
    ]

reserve_fits :
    (s : OwnedString) (want : ℕ) (fresh : Option Bytes)
    → IsValid s
    → want ≤ s.capacity
    → reserve s want fresh ≡ (true, terminated s)
unfolding reserve
reserve_fits s want fresh v h =
    let b = (Stored-le s.storage s.length s.capacity v.stored).0 in
    let i : ltb s.capacity s.length ≡ false = ground arith in
    let j : leb want s.capacity ≡ true = ground arith in rw (i, j) refl

bind_fault : {A B : Type 0} (m : Run A) (k : A → Run B) → m ≡ fault → (m >>= k) ≡ fault
bind_fault m k e = rw e refl

data_of-terminated : (s : OwnedString) → s.storage ≡ none → data_of (terminated s) ≡ fault
unfolding terminated
data_of-terminated s e = rw e refl

-- On a string that has no storage yet, string_copy of an empty view writes the NUL through NULL.
pub copy-fault :
    (s : OwnedString) (src : Source) (fresh : Option Bytes)
    → IsValid s
    → s.storage ≡ none
    → source_valid src ≡ true
    → source_length src ≡ 0
    → copy s src fresh ≡ fault
unfolding copy
copy-fault s src fresh v none_yet ok_source empty =
    let r = reserve_fits s (source_length src) fresh v (omega (arith, empty)) in
    let d = data_of-terminated s none_yet in
    rw (ok_source, r) (bind_fault (data_of (terminated s)) _ d)
