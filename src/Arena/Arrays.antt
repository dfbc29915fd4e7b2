-- ===== src/Arena/Arrays.antt =====
-- arena_alloc_array and arena_alloc_zero of src/memory/arena.c.
use ceasy.Prelude.{
  ℕ, zero, suc, ◌+◌, ◌*◌, ◌/◌, ◌%◌, ◌^◌, ◌≤◌, ◌<◌, ◌≡◌, ◌⊎◌, refl, ap, sym, ◌∙◌, false, not, ◌&&◌,
  Option, none, some, List, ◌∷◌, arith, size_max, ltb, leb, ◌==◌, if◌then◌else◌, Bool-cases, inl,
  inr, Option-cases,
}
use native.Mathlib.Nat.{div-lt_iff_lt-mul, mul_comm}
use mathlib.Core.Path.{subst₂}
use mathlib.Core.Option.{some-injective}
use ceasy.Arena.Types.{Block, Fresh, Arena, Place}
use ceasy.Arena.Allocate.{alloc, alloc_array, alloc_zero, clear}
use ceasy.Arena.Valid.{IsValid}
use ceasy.Arena.Alloc.{alloc-IsPlaced}

ltb_agree : (a b c d : ℕ) → (a < b → c < d) → (c < d → a < b) → ltb a b ≡ ltb c d
ltb_agree a b c d to back = elim (Bool-cases (ltb a b)) [
  | inl e ↦ let l = to (ground (arith, e)) in ground (arith, e, l)
  | inr e ↦ elim (Bool-cases (ltb c d)) [
    | inl f ↦ let l = back (ground (arith, f)) in ground (arith, e, l)
    | inr f ↦ rw (e, f) refl
  ]
]

-- The test in front of the multiplication is a test of the product.
overflows :
    (count element_size : ℕ)
    → (not (count == 0) && ltb (size_max / count) element_size)
      ≡ ltb size_max (count * element_size)
overflows zero element_size = ground arith
overflows (suc n) element_size =
    let (to, back) =
      div-lt_iff_lt-mul {k = suc n} {x = size_max} {y = element_size} (omega arith) in
    let c = mul_comm (suc n) element_size in
    let z : (suc n == 0) ≡ false = ground arith in
    rw (z, c) (ltb_agree (size_max / suc n) element_size size_max (element_size * suc n) to back)

no_wrap : (n : ℕ) → ltb size_max n ≡ false → n % 2 ^ 64 ≡ n
no_wrap n h = let l : n ≤ size_max = ground (arith, h) in omega (arith, l)

-- `arena_alloc_array` allocates the product of its two sizes, and where that is past SIZE_MAX it returns
-- NULL and leaves the arena as it is.
pub alloc_array_lem :
    (a : Arena) (count element_size : ℕ) (fresh : Option Fresh)
    → alloc_array a count element_size fresh ≡ (
        if ltb size_max (count * element_size)
        then (none, a)
        else alloc a (count * element_size) fresh)
unfolding alloc_array
alloc_array_lem a count element_size fresh =
    let n = count * element_size in
    rw (overflows count element_size) (elim (Bool-cases (ltb size_max n)) [
      | inl e ↦ rw e refl
      | inr e ↦ rw e (ap (λ x. alloc a x fresh) (no_wrap n e))
    ])

-- What `arena_alloc_zero` adds to `arena_alloc`: the bytes of the allocation are 0 and no other byte of
-- the block changes.
pub record IsCleared (p : Place) (size : ℕ) (before after : Arena) : Type 0 where
  pub block : Block
  pub cleared : Block
  pub rest : List Block
  pub from_block : before.upto ≡ block ∷ rest
  pub to_block : after ≡ record before { upto = cleared ∷ rest }
  pub other_fields : cleared ≡ record block { bytes = cleared.bytes }
  pub zeroed : (i : ℕ) → p.offset ≤ i → i < p.offset + size → cleared.bytes i ≡ 0
  pub untouched : (i : ℕ) → (i < p.offset) ⊎ (p.offset + size ≤ i) → cleared.bytes i ≡ block.bytes i

clear-IsCleared :
    (b : Arena) (block : Block) (rest : List Block) (p : Place) (size : ℕ)
    → b.upto ≡ block ∷ rest
    → IsCleared p size b (record b { upto = clear b.upto p.offset size })
unfolding clear
clear-IsCleared b block rest p size e = record {
  block = block;
  cleared = record block {
    bytes = λ i. if leb p.offset i && ltb i (p.offset + size) then 0 else block.bytes i;
  };
  rest = rest;
  from_block = e;
  to_block = rw e refl;
  other_fields = refl;
  zeroed = λ i from to. ground arith;
  untouched = λ i out. ground arith;
}

-- What `arena_alloc_zero` does with what `arena_alloc` returns.
abbrev cleared_after : ℕ → Option Place × Arena → Option Place × Arena
cleared_after size result = elim result.0 [
  | none ↦ (none, result.1)
  | some p ↦ (some p, record (result.1) { upto = clear result.1.upto p.offset size })
]

alloc_zero-clear :
    (a : Arena) (size : ℕ) (fresh : Option Fresh) (p : Place) (b : Arena)
    → alloc a size fresh ≡ (some p, b)
    → alloc_zero a size fresh ≡ (some p, record b { upto = clear b.upto p.offset size })
unfolding alloc_zero
alloc_zero-clear a size fresh p b e = ap (cleared_after size) e

alloc_zero-none :
    (a : Arena) (size : ℕ) (fresh : Option Fresh) (b : Arena)
    → alloc a size fresh ≡ (none, b)
    → alloc_zero a size fresh ≡ (none, b)
unfolding alloc_zero
alloc_zero-none a size fresh b e = ap (cleared_after size) e

-- What `arena_alloc_zero` returns on a well-formed arena, if not NULL, `arena_alloc` returns as well, and
-- the arenas differ only in the bytes of the allocation, which are 0.
pub alloc_zero-IsCleared :
    (a : Arena) (size : ℕ) (fresh : Option Fresh) (p : Place) (a' : Arena)
    → IsValid a
    → alloc_zero a size fresh ≡ (some p, a')
    → (b : Arena) × (alloc a size fresh ≡ (some p, b)) × IsCleared p size b a'
alloc_zero-IsCleared a size fresh p a' v h = elim (Option-cases (alloc a size fresh).0) [
  | inl e ↦
      let n =
        alloc_zero-none a size fresh (alloc a size fresh).1
          (ap (λ x. (x, (alloc a size fresh).1)) e) in
      absurd (cc)
  | inr (q, e) ↦
      let b = (alloc a size fresh).1 in
      let got : alloc a size fresh ≡ (some q, b) = ap (λ x. (x, b)) e in
      let placed = alloc-IsPlaced a size fresh q b v got in
      let same = sym (alloc_zero-clear a size fresh q b got) ∙ h in
      let is : q ≡ p = some-injective _ _ (ap (λ x. x.0) same) in
      (
        b,
        got ∙ ap (λ x. (some x, b)) is,
        subst₂ (λ x y. IsCleared x size b y) is (ap (λ x. x.1) same)
            (clear-IsCleared b placed.block placed.rest q size placed.current),
      )
]
