-- ===== src/Arena/Alloc.antt =====
-- arena_alloc of src/memory/arena.c: where the memory lies, and that the arena stays well formed.
use ceasy.Prelude.{
  ℕ, ◌+◌, ◌-◌, ◌%◌, ◌^◌, ◌≤◌, ◌<◌, ◌≡◌, ◌⊎◌, refl, sym, ap, ◌∙◌, false, List, ◌∷◌, arith, length,
  size_max, All, Option, none, some, Option-cases, Bool-cases, inl, inr, ltb, ◌==◌, ◌||◌,
}
use mathlib.Core.Path.{subst, subst₂}
use mathlib.Core.Option.{some-injective}
use ceasy.Arena.Types.{Block, Fresh, Arena, Place, header, sub64}
use ceasy.Arena.Allocate.{ready, bump, place, alloc}
use ceasy.Arena.Valid.{total, IsBlock, IsValid, total-used-le}
use ceasy.Arena.Grow.{HasRoom, can_allocate-HasRoom}
use ceasy.Arena.Ready.{IsReady, ready-IsReady, ready_succeeds}

-- The block with `size` bytes taken at `off`.
abbrev pub taken : Block → ℕ → ℕ → Block
taken b off size = record b {
  used = off + size;
  allocation_count = (b.allocation_count + 1) % 2 ^ 64;
}

-- The arena with `size` bytes taken at `off` of its current block, which is `b`.
abbrev pub after : Arena → Block → List Block → ℕ → ℕ → Arena
after a b bs off size = record a {
  upto = taken b off size ∷ bs;
  used = a.used + (off + size - b.used);
  allocation_count = (a.allocation_count + 1) % 2 ^ 64;
}

used_bounded :
    (a : Arena) (b : Block) (bs : List Block) (size off : ℕ)
    → IsValid a
    → a.upto ≡ b ∷ bs
    → HasRoom b size off
    → a.used + (off + size - b.used) ≤ size_max
used_bounded a b bs size off v e r =
    let upto : All IsBlock (b ∷ bs) = subst (All IsBlock) e v.upto_blocks in
    omega (
      arith,
      v.in_use,
      v.reserved,
      v.reservable,
      ap (total (λ x. x.used)) e,
      ap (total (λ x. x.capacity)) e,
      total-used-le bs upto.1,
      r.below,
    )

bump-taken : (b : Block) (size off : ℕ) → off + size ≤ size_max → bump b off size ≡ taken b off size
unfolding bump
bump-taken b size off h = let e : (off + size) % 2 ^ 64 ≡ off + size = omega arith in rw e

place-after :
    (a : Arena) (b : Block) (bs : List Block) (size off : ℕ)
    → IsValid a
    → a.upto ≡ b ∷ bs
    → HasRoom b size off
    → place a size ≡ (some (record { block = b.address; offset = off }), after a b bs off size)
place-after a b bs size off v e r =
    let upto : All IsBlock (b ∷ bs) = subst (All IsBlock) e v.upto_blocks in
    let fits = upto.0.fits in
    let t : bump b off size ≡ taken b off size = bump-taken b size off (omega (arith, r.below)) in
    let room : ltb (sub64 b.capacity off) size ≡ false = let below = r.below in ground arith in
    let grows : sub64 (off + size) b.used ≡ off + size - b.used = omega (arith, r.below, r.above) in
    let sum : (a.used + (off + size - b.used)) % 2 ^ 64 ≡ a.used + (off + size - b.used) =
      omega (arith, used_bounded a b bs size off v e r) in
    unfold place in ground (arith, e, r.offset, room, t, grows, sum)

after-IsValid :
    (a : Arena) (b : Block) (bs : List Block) (size off : ℕ)
    → IsValid a
    → a.upto ≡ b ∷ bs
    → HasRoom b size off
    → IsValid (after a b bs off size)
after-IsValid a b bs size off v e r =
    let upto : All IsBlock (b ∷ bs) = subst (All IsBlock) e v.upto_blocks in
    record {
      initialised = v.initialised;
      default_fits = v.default_fits;
      upto_blocks = (record { within = r.below; fits = upto.0.fits }, upto.1);
      ahead_blocks = v.ahead_blocks;
      no_current = λ f. absurd (cc);
      counted = omega (arith, v.counted, ap length e);
      countable = v.countable;
      reserved = omega (arith, v.reserved, ap (total (λ x. x.capacity)) e);
      reservable = v.reservable;
      in_use = omega (arith, v.in_use, ap (total (λ x. x.used)) e, r.above);
      allocations = omega (arith, v.allocations, ap (total (λ x. x.allocation_count)) e);
    }

-- The two ways that an allocation can end.
pub data Outcome (a : Arena) (size : ℕ) (fresh : Option Fresh) (result : Option Place × Arena)
    : Type 0 where
  refuses : result ≡ (none, a) → Outcome a size fresh result
  takes :
      (a' : Arena) (r : IsReady a a' size fresh) (off : ℕ)
      → HasRoom r.block size off
      → result ≡ (
        some (record { block = r.block.address; offset = off }),
        after a' r.block r.rest off size,
      )
      → Outcome a size fresh result

pub alloc-Outcome :
    (a : Arena) (size : ℕ) (fresh : Option Fresh)
    → IsValid a
    → Outcome a size fresh (alloc a size fresh)
unfolding alloc
alloc-Outcome a size fresh v = elim (Bool-cases (a.default_block_size == 0 || size == 0)) [
  | inl e ↦ refuses (ground (arith, e))
  | inr e ↦ elim (Option-cases (ready a size fresh)) [
    | inl f ↦ refuses (ground (arith, e, f))
    | inr (a', f) ↦
        let r = ready-IsReady a size fresh a' v f in
        let (off, room) = can_allocate-HasRoom r.block size r.room in
        takes a' r off room (
          let p = place-after a' r.block r.rest size off r.valid r.current room in
          ground (arith, e, f, p))
  ]
]

-- `arena_alloc` keeps a well-formed arena well formed, whatever the size and whatever `malloc` returns;
-- when it returns NULL the arena is as it was.
pub alloc-IsValid :
    (a : Arena) (size : ℕ) (fresh : Option Fresh)
    → IsValid a
    → IsValid (alloc a size fresh).1 × ((alloc a size fresh).0 ≡ none → (alloc a size fresh).1 ≡ a)
alloc-IsValid a size fresh v = elim (alloc-Outcome a size fresh v) [
  | refuses e ↦ rw e (v, λ h. refl)
  | takes a' r off room e ↦
      rw e (after-IsValid a' r.block r.rest size off r.valid r.current room, λ h. absurd (cc))
]

-- Where the memory of an allocation lies: in the current block of the new arena, at an aligned offset,
-- and up to what is now used of the block, which is inside it. In front of it lies all that was used
-- before: either this was the current block already, or nothing of it was used.
pub record IsPlaced (a : Arena) (size : ℕ) (p : Place) (a' : Arena) : Type 0 where
  pub block : Block
  pub rest : List Block
  pub current : a'.upto ≡ block ∷ rest
  pub address : p.block ≡ block.address
  pub aligned : p.offset % 16 ≡ 0
  pub ends : p.offset + size ≡ block.used
  pub inside : block.used ≤ block.capacity
  pub beyond :
      ((old : Block) × (a.upto ≡ old ∷ rest)
        × (old.address ≡ block.address)
        × (old.used ≤ p.offset))
      ⊎ (a.upto ≡ rest)

after-IsPlaced :
    (a a' : Arena) (size off : ℕ) {fresh : Option Fresh} (r : IsReady a a' size fresh)
    → HasRoom r.block size off
    → IsPlaced a size
        (record { block = r.block.address; offset = off })
        (after a' r.block r.rest off size)
after-IsPlaced a a' size off r room = record {
  block = taken r.block off size;
  rest = r.rest;
  current = refl;
  address = refl;
  aligned = room.aligned;
  ends = refl;
  inside = room.below;
  beyond = elim r.from_before [ inl e ↦ inl (r.block, e, refl, room.above) | inr e ↦ inr e.0 ];
}

-- The memory that `arena_alloc` returns on a well-formed arena has an offset in its block's data that is a
-- multiple of 16, and lies inside the block that is then current, which it fills up to `used`; it begins behind all that was used of that block
-- before, or the block is put in front of those that were in use.
pub alloc-IsPlaced :
    (a : Arena) (size : ℕ) (fresh : Option Fresh) (p : Place) (a' : Arena)
    → IsValid a
    → alloc a size fresh ≡ (some p, a')
    → IsPlaced a size p a'
alloc-IsPlaced a size fresh p a' v h = elim (alloc-Outcome a size fresh v) [
  | refuses e ↦ absurd (cc)
  | takes a₁ r off room e ↦
      let same = sym e ∙ h in
      subst₂ (IsPlaced a size) (some-injective _ _ (ap (λ x. x.0) same)) (ap (λ x. x.1) same)
        (after-IsPlaced a a₁ size off r room)
]

-- `arena_alloc` succeeds on a well-formed arena for a positive size if `malloc` returns memory and none
-- of these passes SIZE_MAX: the size of a new block with its header, the capacity of all blocks with the
-- new one, and the number of blocks.
pub alloc_succeeds :
    (a : Arena) (size : ℕ) (memory : Fresh)
    → IsValid a
    → 0 < size
    → size + 15 + header ≤ size_max
    → a.default_block_size + header ≤ size_max
    → a.capacity + a.default_block_size ≤ size_max
    → a.capacity + size + 15 ≤ size_max
    → a.block_count < size_max
    → (p : Place) × (a' : Arena) × (alloc a size (some memory) ≡ (some p, a'))
alloc_succeeds a size memory v pos fits fits_default room_default room count =
    elim (Option-cases (ready a size (some memory))) [
      | inl e ↦ absurd (ready_succeeds a size memory fits fits_default room_default room count e)
      | inr (a', e) ↦
          let r = ready-IsReady a size (some memory) a' v e in
          let (off, has) = can_allocate-HasRoom r.block size r.room in
          let p = place-after a' r.block r.rest size off r.valid r.current has in
          let i = v.initialised in
          (
            record { block = r.block.address; offset = off },
            after a' r.block r.rest off size,
            unfold alloc in ground (arith, e, p, i),
          )
    ]
