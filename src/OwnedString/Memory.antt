-- ===== src/OwnedString/Memory.antt =====
-- Memory as a function from positions to bytes: what `memmove`, `memcpy` and assignments do to it.
use ceasy.Prelude.{
  ℕ, zero, suc, ◌+◌, ◌-◌, ◌≤◌, ◌<◌, ◌≡◌, refl, sym, ap, ap₂, ◌∙◌, ◌⊎◌, ◌&&◌, List, [], ◌∷◌, ◌++◌,
  ltb, leb, ◌==◌, if◌then◌else◌, length, take, drop, drop-append, arith,
}

abbrev pub Bytes : Type 0
Bytes = ℕ → ℕ

-- `memory[i] = c`
unfoldable pub write : Bytes → ℕ → ℕ → Bytes
write f i c j = if j == i then c else f j

pub write_self : (f : Bytes) (i c : ℕ) → write f i c i ≡ c
unfolding write
write_self f i c = ground arith

-- `memmove(memory + target, memory + source, n)`
unfoldable pub move : Bytes → ℕ → ℕ → ℕ → Bytes
move f target source n j =
    if leb target j && ltb j (target + n) then f (source + (j - target)) else f j

-- `memmove(memory + target, bytes, length)`, from other memory.
unfoldable pub put : Bytes → ℕ → List ℕ → Bytes
put f target [] = f
put f target (c ∷ cs) = write (put f (target + 1) cs) target c

-- The `n` bytes from `start` on.
unfoldable pub read : Bytes → ℕ → ℕ → List ℕ
read f start zero = []
read f start (suc n) = f start ∷ read f (start + 1) n

pub length-read : (f : Bytes) (start n : ℕ) → length (read f start n) ≡ n
unfolding read
length-read f start zero = refl
length-read f start (suc n) = ap suc (length-read f (start + 1) n)

-- Two memories that agree on the bytes that are read.
pub read_congr :
    (f g : Bytes) (start target n : ℕ)
    → ((i : ℕ) → i < n → f (start + i) ≡ g (target + i))
    → read f start n ≡ read g target n
unfolding read
read_congr f g start target zero h = refl
read_congr f g start target (suc n) h =
    let e : f start ≡ g target =
      ap f (let z : start ≡ start + 0 = omega arith in z)
      ∙ h 0 (omega arith)
      ∙ ap g (let z : target + 0 ≡ target = omega arith in z) in
    let r = read_congr f g (start + 1) (target + 1) n (λ i lt.
      ap f (let z : start + 1 + i ≡ start + suc i = omega arith in z)
      ∙ h (suc i) (omega arith)
      ∙ ap g (let z : target + suc i ≡ target + 1 + i = omega arith in z)) in
    ap₂ (λ x xs. x ∷ xs) e r

pub read-append :
    (f : Bytes) (start m n : ℕ) → read f start (m + n) ≡ read f start m ++ read f (start + m) n
unfolding read
read-append f start zero n =
    ap₂ (read f) (let z : start ≡ start + 0 = omega arith in z)
      (let z : 0 + n ≡ n = omega arith in z)
read-append f start (suc m) n =
    let e : suc m + n ≡ suc (m + n) = omega arith in
    let z : start + 1 + m ≡ start + suc m = omega arith in
    ap (read f start) e
    ∙ ap (λ l. f start ∷ l)
        (read-append f (start + 1) m n ∙ ap (λ k. read f (start + 1) m ++ read f k n) z)

pub put_before : (f : Bytes) (t : ℕ) (cs : List ℕ) (j : ℕ) → j < t → put f t cs j ≡ f j
unfolding put write
put_before f t [] j h = refl
put_before f t (c ∷ cs) j h = let r = put_before f (t + 1) cs j (omega arith) in ground (arith, r)

pub put_behind : (f : Bytes) (t : ℕ) (cs : List ℕ) (j : ℕ) → t + length cs ≤ j → put f t cs j ≡ f j
unfolding put write
put_behind f t [] j h = refl
put_behind f t (c ∷ cs) j h = let r = put_behind f (t + 1) cs j (omega arith) in ground (arith, r)

pub read-put : (f : Bytes) (t : ℕ) (cs : List ℕ) → read (put f t cs) t (length cs) ≡ cs
unfolding read put
read-put f t [] = refl
read-put f t (c ∷ cs) =
    let g = put f (t + 1) cs in
    let e : write g t c t ≡ c = unfold write in ground arith in
    let r : read (write g t c) (t + 1) (length cs) ≡ read g (t + 1) (length cs) =
      read_congr (write g t c) g (t + 1) (t + 1) (length cs)
        (λ i lt. unfold write in ground arith) in
    ap₂ (λ x xs. x ∷ xs) e (r ∙ read-put f (t + 1) cs)

-- The memory in front of what is written.
pub read-put_before :
    (f : Bytes) (t : ℕ) (cs : List ℕ) (start n : ℕ)
    → start + n ≤ t
    → read (put f t cs) start n ≡ read f start n
read-put_before f t cs start n h =
    read_congr (put f t cs) f start start n (λ i lt. put_before f t cs (start + i) (omega arith))

pub read-put_behind :
    (f : Bytes) (t : ℕ) (cs : List ℕ) (start n : ℕ)
    → t + length cs ≤ start
    → read (put f t cs) start n ≡ read f start n
read-put_behind f t cs start n h =
    read_congr (put f t cs) f start start n (λ i lt. put_behind f t cs (start + i) (omega arith))

pub read-write :
    (f : Bytes) (t c start n : ℕ)
    → (t < start) ⊎ (start + n ≤ t)
    → read (write f t c) start n ≡ read f start n
unfolding write
read-write f t c start n h = read_congr (write f t c) f start start n (λ i lt. ground arith)

pub read-move_part :
    (f : Bytes) (target source n o k : ℕ)
    → o + k ≤ n
    → read (move f target source n) (target + o) k ≡ read f (source + o) k
unfolding move
read-move_part f target source n o k h =
    read_congr (move f target source n) f (target + o) (source + o) k (λ i lt.
      let e : source + (target + o + i - target) ≡ source + o + i = omega arith in
      ground (arith, ap f e))

pub read-move :
    (f : Bytes) (target source n : ℕ) → read (move f target source n) target n ≡ read f source n
read-move f target source n =
    ap (λ j. read (move f target source n) j n) (let z : target ≡ target + 0 = omega arith in z)
    ∙ read-move_part f target source n 0 n (omega arith)
    ∙ ap (λ j. read f j n) (let z : source + 0 ≡ source = omega arith in z)

pub read-move_outside :
    (f : Bytes) (target source n start m : ℕ)
    → (target + n ≤ start) ⊎ (start + m ≤ target)
    → read (move f target source n) start m ≡ read f start m
unfolding move
read-move_outside f target source n start m h =
    read_congr (move f target source n) f start start m (λ i lt. ground arith)

-- A part of what is read.
pub take-read : (f : Bytes) (start m n : ℕ) → m ≤ n → take m (read f start n) ≡ read f start m
unfolding read
take-read f start zero n h = refl
take-read f start (suc m) zero h = absurd (omega arith)
take-read f start (suc m) (suc n) h =
    ap (λ l. f start ∷ l) (take-read f (start + 1) m n (omega arith))

pub drop-read : (f : Bytes) (start m n : ℕ) → drop m (read f start (m + n)) ≡ read f (start + m) n
drop-read f start m n =
    ap (drop m) (read-append f start m n)
    ∙ ap (λ k. drop k (read f start m ++ read f (start + m) n)) (sym (length-read f start m))
    ∙ drop-append (read f start m) (read f (start + m) n)
