-- ===== src/Arena/Reset.antt =====
-- arena_reset of src/memory/arena.c: what it keeps, what it frees, and the marks that it ends.
use ceasy.Prelude.{
  ℕ, suc, ◌+◌, ◌-◌, ◌%◌, ◌^◌, ◌≤◌, ◌≡◌, refl, ap₂, false, List, [], ◌∷◌, arith, length, size_max,
  All, All-map, map, Bool-cases, inl, inr, if◌then◌else◌, ◌==◌,
}
use ceasy.Arena.Types.{Block, Arena, header, sub64, chain}
use ceasy.Arena.Release.{mark, restore, reset_loop, reset}
use ceasy.Arena.Valid.{total, IsBlock, IsIdle, IsValid}
use ceasy.Arena.Mark.Restore.{length-chain, total-chain}

-- The block with nothing in it.
abbrev pub emptied : Block → Block
emptied b = record b { used = 0; allocation_count = 0 }

-- The blocks that are not oversized, emptied.
abbrev pub kept : List Block → List Block
kept [] = []
kept (b ∷ bs) = let rest = kept bs in if b.oversized then rest else emptied b ∷ rest

abbrev pub oversized : List Block → List Block
oversized [] = []
oversized (b ∷ bs) = let rest = oversized bs in if b.oversized then b ∷ rest else rest

abbrev addresses : List Block → List ℕ
addresses bs = map (λ b. b.address) bs

reset_loop_lem :
    (bs : List Block) (n c : ℕ)
    → length bs ≤ n
    → n ≤ size_max
    → total (λ b. b.capacity) bs ≤ c
    → c ≤ size_max
    → reset_loop bs n c ≡ (
      kept bs,
      addresses (oversized bs),
      n - length (oversized bs),
      c - total (λ b. b.capacity) (oversized bs),
    )
unfolding reset_loop
reset_loop_lem [] n c hn n_small hc c_small =
    ap₂ (λ x y. ([], [], x, y)) (omega arith) (omega arith)
reset_loop_lem (b ∷ bs) n c hn n_small hc c_small = elim (Bool-cases b.oversized) [
  | inl e ↦
      let i : sub64 n 1 ≡ n - 1 = omega arith in
      let j : sub64 c b.capacity ≡ c - b.capacity = omega arith in
      let r =
        reset_loop_lem bs (n - 1) (c - b.capacity) (omega arith) (omega arith) (omega arith)
          (omega arith) in
      let f : n - 1 - length (oversized bs) ≡ n - suc (length (oversized bs)) = omega arith in
      let g : c - b.capacity - total (λ x. x.capacity) (oversized bs)
          ≡ c - (b.capacity + total (λ x. x.capacity) (oversized bs)) =
        omega arith in
      rw (e, i, j, r) (ap₂ (λ x y. (kept bs, b.address ∷ addresses (oversized bs), x, y)) f g)
  | inr e ↦
      let r = reset_loop_lem bs n c (omega arith) (omega arith) (omega arith) (omega arith) in
      rw (e, r) refl
]

length-kept : (bs : List Block) → length (kept bs) + length (oversized bs) ≡ length bs
length-kept [] = refl
length-kept (b ∷ bs) =
    let r = length-kept bs in
    elim (Bool-cases b.oversized) [ inl e ↦ rw e (omega arith) | inr e ↦ rw e (omega arith) ]

total-kept :
    (bs : List Block)
    → total (λ b. b.capacity) (kept bs) + total (λ b. b.capacity) (oversized bs)
      ≡ total (λ b. b.capacity) bs
total-kept [] = refl
total-kept (b ∷ bs) =
    let r = total-kept bs in
    elim (Bool-cases b.oversized) [ inl e ↦ rw e (omega arith) | inr e ↦ rw e (omega arith) ]

All-chain :
    (P : Block → Type 0) (upto ahead : List Block)
    → All P upto
    → All P ahead
    → All P (chain upto ahead)
unfolding chain
All-chain P [] ahead h k = k
All-chain P (b ∷ upto) ahead h k = All-chain P upto (b ∷ ahead) h.1 (h.0, k)

kept-IsIdle :
    (bs : List Block)
    → All (λ (b : Block). b.capacity + header ≤ size_max) bs
    → All IsIdle (kept bs)
kept-IsIdle [] h = tt
kept-IsIdle (b ∷ bs) h =
    let r = kept-IsIdle bs h.1 in
    elim (Bool-cases b.oversized) [
      | inl e ↦ rw e r
      | inr e ↦ rw e (record { unused = refl; unallocated = refl; fits = h.0 }, r)
    ]

-- What is left of an arena whose blocks are `bs`, all of them empty.
abbrev pub with_blocks : Arena → List Block → Arena
with_blocks a bs = record a {
  upto = elim bs [ [] ↦ [] | b ∷ rest ↦ b ∷ [] ];
  ahead = elim bs [ [] ↦ [] | b ∷ rest ↦ rest ];
  block_count = length bs;
  capacity = total (λ b. b.capacity) bs;
  used = 0;
  allocation_count = 0;
  generation = if a.generation == size_max then 1 else a.generation + 1;
}

-- The generation after a reset.
next_generation :
    (g : ℕ)
    → g ≤ size_max
    → (if (g + 1) % 2 ^ 64 == 0 then 1 else (g + 1) % 2 ^ 64) ≡ (if g == size_max then 1 else g + 1)
next_generation g h = ground arith

-- `arena_reset` on a well-formed arena keeps the blocks that are not oversized, in their order and emptied, the first one as the
-- current one, and frees the others; it counts what it keeps, and begins a new generation.
pub reset_lem :
    (a : Arena)
    → IsValid a
    → a.generation ≤ size_max
    → reset a ≡ (
      map (λ b. b.address) (oversized (chain a.upto a.ahead)),
      with_blocks a (kept (chain a.upto a.ahead)),
    )
unfolding reset
reset_lem a v g =
    let bs = chain a.upto a.ahead in
    let n = length-chain a.upto a.ahead in
    let t = total-chain (λ b. b.capacity) a.upto a.ahead in
    let r =
      reset_loop_lem bs a.block_count a.capacity (omega (arith, n, v.counted)) v.countable
        (omega (arith, t, v.reserved)) v.reservable in
    let m : a.block_count - length (oversized bs) ≡ length (kept bs) =
      omega (arith, length-kept bs, n, v.counted) in
    let c : a.capacity - total (λ b. b.capacity) (oversized bs)
        ≡ total (λ b. b.capacity) (kept bs) =
      omega (arith, total-kept bs, t, v.reserved) in
    let i = v.initialised in
    let ng = next_generation a.generation g in
    let d : (a.default_block_size == 0) ≡ false = ground (arith, i) in rw (d, r, m, c) (rw ng refl)

with_blocks-IsValid :
    (a : Arena) (bs : List Block)
    → IsValid a
    → All IsIdle bs
    → length bs ≤ size_max
    → total (λ b. b.capacity) bs ≤ size_max
    → IsValid (with_blocks a bs)
with_blocks-IsValid a [] v h n c = record {
  initialised = v.initialised;
  default_fits = v.default_fits;
  upto_blocks = tt;
  ahead_blocks = tt;
  no_current = λ e. refl;
  counted = refl;
  countable = n;
  reserved = refl;
  reservable = c;
  in_use = refl;
  allocations = refl;
}
with_blocks-IsValid a (b ∷ bs) v h n c = record {
  initialised = v.initialised;
  default_fits = v.default_fits;
  upto_blocks = (record { within = let u = h.0.unused in omega (arith, u); fits = h.0.fits }, tt);
  ahead_blocks = h.1;
  no_current = λ e. absurd (cc);
  counted = omega arith;
  countable = n;
  reserved = omega arith;
  reservable = c;
  in_use = omega (arith, h.0.unused);
  allocations = omega (arith, h.0.unallocated);
}

-- `arena_reset` keeps a well-formed arena well formed.
pub reset-IsValid : (a : Arena) → IsValid a → a.generation ≤ size_max → IsValid (reset a).1
reset-IsValid a v g =
    let bs = chain a.upto a.ahead in
    let fits : Block → Type 0 = λ b. b.capacity + header ≤ size_max in
    let upto = All-map IsBlock fits a.upto (λ b h. h.fits) v.upto_blocks in
    let ahead = All-map IsIdle fits a.ahead (λ b h. h.fits) v.ahead_blocks in
    rw (reset_lem a v g) (
      with_blocks-IsValid a (kept bs) v (kept-IsIdle bs (All-chain fits a.upto a.ahead upto ahead))
        (omega (arith, length-kept bs, length-chain a.upto a.ahead, v.counted, v.countable))
        (omega (
          arith,
          total-kept bs,
          total-chain (λ b. b.capacity) a.upto a.ahead,
          v.reserved,
          v.reservable,
        )))

-- A mark of an arena is refused after an `arena_reset` of that arena as it was marked, and the arena
-- stays as it is.
pub restore-reset : (a : Arena) → restore (reset a).1 (mark a) ≡ (false, [], (reset a).1)
unfolding restore reset mark
restore-reset a = elim (Bool-cases (a.default_block_size == 0)) [
  | inl e ↦ ground (arith, e)
  | inr e ↦
      let n : ((a.generation
            == (if (a.generation + 1) % 2 ^ 64 == 0 then 1 else (a.generation + 1) % 2 ^ 64)))
          ≡ false =
        ground arith in
      rw (e, n)
        (elim (Bool-cases (a.self == (reset a).1.self)) [ inl s ↦ rw s refl | inr s ↦ rw s refl ])
]
