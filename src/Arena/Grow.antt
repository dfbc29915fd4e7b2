-- ===== src/Arena/Grow.antt =====
-- arena_add_block of src/memory/arena.c: the room in a block, and the arena with one more.
use ceasy.Prelude.{
  ◌≢◌, ℕ, ◌+◌, ◌%◌, ◌≤◌, ◌<◌, ◌≡◌, refl, sym, true, List, [], ◌∷◌, arith, size_max, Option, none,
  some, Option-cases, inl, inr, if◌then◌else◌, ltb,
}
use ceasy.Arena.Types.{
  Block, Fresh, Arena, header, align_up, required_capacity, is_oversized, block_create,
  block_can_allocate,
}
use ceasy.Arena.Allocate.{behind, add_block}
use ceasy.Arena.Valid.{IsValid}

pub align_up_lem : (v a : ℕ) → align_up v ≡ some a → (a % 16 ≡ 0) × (v ≤ a) × (a < v + 16)
unfolding align_up
align_up_lem v a h = ground arith

align_up_zero : align_up 0 ≡ some 0
unfolding align_up
align_up_zero = refl

-- Room for `size` bytes at the aligned offset `off` of the block.
pub record HasRoom (b : Block) (size off : ℕ) : Type 0 where
  pub aligned : off % 16 ≡ 0
  pub offset : align_up b.used ≡ some off
  pub above : b.used ≤ off
  pub below : off + size ≤ b.capacity

pub can_allocate-HasRoom :
    (b : Block) (size : ℕ) → block_can_allocate b size ≡ true → (off : ℕ) × HasRoom b size off
can_allocate-HasRoom b size h = elim (Option-cases (align_up b.used)) [
  | inl e ↦ absurd (unfold block_can_allocate in ground (arith, e))
  | inr (off, e) ↦ (
    off,
    record {
      aligned = (align_up_lem b.used off e).0;
      offset = e;
      above = (align_up_lem b.used off e).1;
      below = unfold block_can_allocate in ground (arith, e, h);
    },
  )
]

-- The arena with a new block of `cap` bytes in front of `current->next`.
abbrev pub grown : Arena → ℕ → Fresh → Arena
grown a cap memory = record a {
  upto =
      record {
        address = memory.address;
        capacity = cap;
        used = 0;
        allocation_count = 0;
        oversized = is_oversized a cap;
        bytes = memory.bytes;
      }
      ∷ a.upto;
  block_count = a.block_count + 1;
  capacity = a.capacity + cap;
}

pub record Grows (a : Arena) (size : ℕ) (fresh : Option Fresh) (a' : Arena) : Type 0 where
  pub memory : Fresh
  pub cap : ℕ
  pub got : fresh ≡ some memory
  pub enough : size + 15 ≤ cap
  pub fits : cap + header ≤ size_max
  pub reservable : a.capacity + cap ≤ size_max
  pub countable : a.block_count < size_max
  pub result : a' ≡ grown a cap memory

pub required_capacity_lem :
    (size r : ℕ) → required_capacity size ≡ some r → (r ≡ size + 15) × (r ≤ size_max)
unfolding required_capacity
required_capacity_lem size r h = ground arith

block_create_lem :
    (a : Arena) (cap : ℕ) (fresh : Option Fresh) (b : Block)
    → block_create a cap fresh ≡ some b
    → (memory : Fresh) × (fresh ≡ some memory)
      × (cap + header ≤ size_max)
      × (b ≡ record {
        address = memory.address;
        capacity = cap;
        used = 0;
        allocation_count = 0;
        oversized = is_oversized a cap;
        bytes = memory.bytes;
      })
unfolding block_create
block_create_lem a cap none b h = absurd (ground arith)
block_create_lem a cap (some memory) b h = (memory, refl, ground arith, ground arith)

behind_lem : (upto ahead : List Block) → (upto ≡ [] → ahead ≡ []) → behind upto ahead ≡ ahead
unfolding behind
behind_lem [] ahead h = sym (h refl)
behind_lem (b ∷ bs) ahead h = refl

pub add_block-Grows :
    (a : Arena) (size : ℕ) (fresh : Option Fresh) (a' : Arena)
    → IsValid a
    → add_block a size fresh ≡ some a'
    → Grows a size fresh a'
unfolding add_block
add_block-Grows a size fresh a' v h = elim (Option-cases (required_capacity size)) [
  | inl e ↦ absurd (ground (arith, e))
  | inr (r, e) ↦
      let cap : ℕ = (if ltb a.default_block_size r then r else a.default_block_size) in
      elim (Option-cases (block_create a cap fresh)) [
        | inl k ↦ absurd (ground (arith, e, k))
        | inr (b, k) ↦
            let (memory, got, fits, is) = block_create_lem a cap fresh b k in
            let (re, rs) = required_capacity_lem size r e in
            record {
              memory = memory;
              cap = cap;
              got = got;
              enough = ground (arith, re);
              fits = fits;
              reservable = ground (arith, e, k);
              countable = ground (arith, e, k);
              result = ground (arith, e, k, is, behind_lem a.upto a.ahead v.no_current);
            }
      ]
]

pub grown-IsValid :
    (a : Arena) (cap : ℕ) (memory : Fresh)
    → IsValid a
    → cap + header ≤ size_max
    → a.capacity + cap ≤ size_max
    → a.block_count < size_max
    → IsValid (grown a cap memory)
grown-IsValid a cap memory v fits reservable countable = record {
  initialised = v.initialised;
  default_fits = v.default_fits;
  upto_blocks = (record { within = omega arith; fits = fits }, v.upto_blocks);
  ahead_blocks = v.ahead_blocks;
  no_current = λ e. absurd (cc);
  counted = omega (arith, v.counted);
  countable = omega arith;
  reserved = omega (arith, v.reserved);
  reservable = reservable;
  in_use = omega (arith, v.in_use);
  allocations = omega (arith, v.allocations);
}

pub can_allocate-fresh :
    (b : Block) (size : ℕ) → b.used ≡ 0 → size ≤ b.capacity → block_can_allocate b size ≡ true
unfolding block_can_allocate
can_allocate-fresh b size e h =
    let z : align_up b.used ≡ some 0 = rw e align_up_zero in ground (arith, z)

pub add_block_succeeds :
    (a : Arena) (size : ℕ) (memory : Fresh)
    → size + 15 + header ≤ size_max
    → a.default_block_size + header ≤ size_max
    → a.capacity + a.default_block_size ≤ size_max
    → a.capacity + size + 15 ≤ size_max
    → a.block_count < size_max
    → add_block a size (some memory) ≢ none
unfolding add_block required_capacity block_create
add_block_succeeds a size memory fits fits_default room_default room count = ground arith
