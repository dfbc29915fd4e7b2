-- ===== src/OwnedString/Filled.antt =====
-- How the functions of src/string/string.c write a view into a string's storage, also one that lies in
-- the same storage.
use ceasy.Prelude.{
  ℕ, ◌+◌, ◌-◌, ◌≤◌, ◌≡◌, refl, sym, ap, ◌∙◌, true, ◌||◌, Option, none, some, List, arith, size_max,
  ltb, ◌==◌, if◌then◌else◌, inl, inr, length, take, drop,
}
use ceasy.StringView.{StringView, null, view, size, bytes_of, valid}
use ceasy.OwnedString.Memory.{
  Bytes, move, put, read, read-put, read-put_before, read-put_behind, read-move, read-move_outside,
  take-read, drop-read,
}
use ceasy.OwnedString.Types.{
  OwnedString, Source, outside, inside, source_length, storage_offset, Run, ok,
}
use ceasy.OwnedString.Edit.{fill}
use ceasy.OwnedString.Contents.{Stored, IsValid, Readable}

-- The length of a valid view is that of its bytes.
size-bytes_of : (v : StringView) → valid v ≡ true → length (bytes_of v) ≡ size v
size-bytes_of (null n) h = ground arith
size-bytes_of (view bs) h = refl

-- What a view in the storage covers is a part of the text.
pub read-part :
    (f : Bytes) (n offset m : ℕ)
    → offset + m ≤ n
    → read f offset m ≡ take m (drop offset (read f 0 n))
read-part f n offset m h =
    let z : 0 + offset ≡ offset = omega arith in
    let k : offset + (n - offset) ≡ n = omega arith in
    sym (
      ap (λ j. take m (drop offset (read f 0 j))) (sym k)
      ∙ ap (take m) (drop-read f 0 offset (n - offset))
      ∙ ap (λ j. take m (read f j (n - offset))) z
      ∙ take-read f offset m (n - offset) (omega arith))

-- The bytes that `fill` reads: those of another view, or those at the rebased place.
abbrev pub filling : Bytes → Source → ℕ → List ℕ
filling f (outside v) shift = bytes_of v
filling f (inside offset n) shift = read f (offset + shift) n

-- The memory with a view written at `target`: the view stands there, and all else is as it was.
pub record Filled (f : Bytes) (target : ℕ) (src : Source) (shift : ℕ) (result : Run Bytes)
    : Type 0 where
  pub memory : Bytes
  pub returned : result ≡ ok memory
  pub there : read memory target (source_length src) ≡ filling f src shift
  pub before : (start m : ℕ) → start + m ≤ target → read memory start m ≡ read f start m
  pub behind :
      (start m : ℕ) → target + source_length src ≤ start → read memory start m ≡ read f start m

pub storage_offset-inside :
    (s : OwnedString) (offset n : ℕ)
    → IsValid s
    → Readable s (inside offset n)
    → storage_offset s (inside offset n) ≡ some offset
unfolding storage_offset
storage_offset-inside s offset n v r = go s.storage v.stored
  where
    go :
        (st : Option Bytes)
        → Stored st s.length s.capacity
        → elim st as (λ x. Option ℕ) [
          | none ↦ none
          | some bytes ↦
              if s.capacity == size_max || ltb s.capacity offset then none else some offset
        ]
          ≡ some offset
    go none h = absurd (omega (arith, h, r))
    go (some f) h = ground (arith, h, r)

pub fill-Filled :
    (s : OwnedString) (src : Source) (f : Bytes) (target shift : ℕ)
    → IsValid s
    → Readable s src
    → Filled f target src shift (fill f target src (storage_offset s src) shift)
unfolding fill
fill-Filled s (outside v) f target shift valid r =
    let l = size-bytes_of v r in
    record {
      memory = put f target (bytes_of v);
      returned = refl;
      there = ap (read (put f target (bytes_of v)) target) (sym l) ∙ read-put f target (bytes_of v);
      before = λ start m h. read-put_before f target (bytes_of v) start m h;
      behind = λ start m h. read-put_behind f target (bytes_of v) start m (omega (arith, l));
    }
fill-Filled s (inside offset n) f target shift valid r = record {
  memory = move f target (offset + shift) n;
  returned = rw (storage_offset-inside s offset n valid r) refl;
  there = read-move f target (offset + shift) n;
  before = λ start m h. read-move_outside f target (offset + shift) n start m (inr h);
  behind = λ start m h. read-move_outside f target (offset + shift) n start m (inl h);
}
