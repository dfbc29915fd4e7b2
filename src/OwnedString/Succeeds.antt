-- ===== src/OwnedString/Succeeds.antt =====
-- When the functions of src/string/string.c that need memory succeed.
use ceasy.Prelude.{
  ◌≢◌, ℕ, ◌+◌, ◌-◌, ◌≤◌, ◌<◌, ◌≡◌, refl, Bool, true, false, ◌||◌, Option, some, ltb, leb, ◌==◌,
  arith, size_max, Bool-cases, inl, inr,
}
use ceasy.OwnedString.Memory.{Bytes, write}
use ceasy.OwnedString.Types.{
  OwnedString, Source, source_length, source_valid, storage_offset, Run, fault, ok, ◌>>=◌, data_of,
}
use ceasy.OwnedString.Reserve.{reserve, obtain}
use ceasy.OwnedString.Edit.{append, fill}
use ceasy.OwnedString.Contents.{IsValid, Readable}
use ceasy.OwnedString.Reserved.{Stored-le, new_capacity_lem}
use ceasy.OwnedString.Append.{kept, edited, append-Edited, Readable-valid}

reserve_succeeds :
    (s : OwnedString) (want : ℕ) (bytes : Bytes)
    → IsValid s
    → (s.allocator.realloc || s.allocator.alloc) ≡ true
    → want < size_max
    → (reserve s want (some bytes)).0 ≡ true
unfolding reserve obtain
reserve_succeeds s want bytes v memory small =
    let b = Stored-le s.storage s.length s.capacity v.stored in
    let a : ltb s.capacity s.length ≡ false = not_below s.capacity s.length b.0 in
    elim (Bool-cases (leb want s.capacity)) [
      | inl e ↦ rw (a, e) refl
      | inr e ↦
          let (c, f, l, m) = new_capacity_lem s.capacity want (omega (arith, b)) (omega arith) in
          let g = fits c s.length (m small) (omega (arith, b)) in rw (a, e, f, g, memory) refl
    ]
  where
    not_below : (x y : ℕ) → y ≤ x → ltb x y ≡ false
    not_below x y h = ground arith

    fits : (c n : ℕ) → c < size_max → n < size_max → (ltb (size_max - 1) c || n == size_max) ≡ false
    fits c n h k = ground arith

-- A run whose last step succeeds does not fail.
never_false :
    (m : Run Bytes) (h : Bytes → Run Bytes) (k : Bytes → OwnedString) (s : OwnedString)
    → ◌>>=◌ {B = Bool × OwnedString} m (λ b. h b >>= λ b'. ok (true, k b')) ≢ ok (false, s)
never_false fault h k s e = cc
never_false (ok b) h k s e = last (h b) e
  where
    last :
        (r : Run Bytes) → ◌>>=◌ {B = Bool × OwnedString} r (λ b'. ok (true, k b')) ≢ ok (false, s)
    last fault e = cc
    last (ok b') e = cc

append-ne-false :
    (s : OwnedString) (src : Source) (fresh : Option Bytes)
    → source_valid src ≡ true
    → ltb (size_max - s.length) (source_length src) ≡ false
    → (reserve s (s.length + source_length src) fresh).0 ≡ true
    → append s src fresh ≢ ok (false, s)
unfolding append
append-ne-false s src fresh ok_source fits done = elim (Bool-cases (source_length src == 0)) [
  | inl z ↦ rw (ok_source, fits, z) (λ e. cc)
  | inr z ↦
      let required = s.length + source_length src in
      let s' = (reserve s required fresh).1 in
      rw (ok_source, fits, z, done)
        (never_false (data_of s') (λ b. fill b s'.length src (storage_offset s src) 0)
          (λ b. record s' { storage = some (write b required 0); length = required }) s)
]

-- string_append succeeds on a well-formed string, for a view that may be read, if the allocator has a
-- function that allocates, gives memory, and the new text is shorter than SIZE_MAX.
pub append_succeeds :
    (s : OwnedString) (src : Source) (bytes : Bytes)
    → IsValid s
    → Readable s src
    → (s.allocator.realloc || s.allocator.alloc) ≡ true
    → s.length + source_length src < size_max
    → (s' : OwnedString) × (append s src (some bytes) ≡ ok (true, s'))
append_succeeds s src bytes v r memory small = elim (append-Edited s src (some bytes) v r) [
  | edited s' e w c a ↦ (s', e)
  | kept e ↦ absurd (
      append-ne-false s src (some bytes) (Readable-valid s src r)
        (room s.length (source_length src) (omega arith))
        (reserve_succeeds s (s.length + source_length src) bytes v memory small) e)
]
  where
    room : (n m : ℕ) → n + m ≤ size_max → ltb (size_max - n) m ≡ false
    room n m h = ground arith
