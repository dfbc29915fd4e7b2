-- ===== src/Arena/Types.antt =====
-- The data of src/memory/arena.c and its functions on sizes; Arena describes the representation.
use ceasy.Prelude.{
  ℕ, ◌+◌, ◌-◌, ◌*◌, ◌/◌, ◌%◌, ◌^◌, Bool, false, not, ◌&&◌, Option, none, some, List, [], ◌∷◌, ltb,
  ◌==◌, if◌then◌else◌, size_max,
}

-- `struct ArenaBlock`; `bytes` is its flexible array.
pub record Block : Type 0 where
  pub address : ℕ
  pub capacity : ℕ
  pub used : ℕ
  pub allocation_count : ℕ
  pub oversized : Bool
  pub bytes : ℕ → ℕ

-- A successful `malloc`: an address, and whatever the memory holds.
pub record Fresh : Type 0 where
  pub address : ℕ
  pub bytes : ℕ → ℕ

pub record Arena : Type 0 where
  pub self : ℕ
  pub upto : List Block
  pub ahead : List Block
  pub default_block_size : ℕ
  pub block_count : ℕ
  pub capacity : ℕ
  pub used : ℕ
  pub allocation_count : ℕ
  pub generation : ℕ

pub record ArenaMark : Type 0 where
  pub arena : Option ℕ
  pub block : Option ℕ
  pub used : ℕ
  pub allocation_count : ℕ
  pub total_used : ℕ
  pub total_allocations : ℕ
  pub generation : ℕ

pub record ArenaStats : Type 0 where
  pub block_count : ℕ
  pub capacity : ℕ
  pub used : ℕ
  pub allocation_count : ℕ

-- Where allocated memory lies: a block's address, and an offset into its bytes.
pub record Place : Type 0 where
  pub block : ℕ
  pub offset : ℕ

-- arena_alignment
abbrev pub alignment : ℕ
alignment = 16

-- sizeof(ArenaBlock)
abbrev pub header : ℕ
header = 80

-- `a - b` on 64-bit words.
abbrev pub sub64 : ℕ → ℕ → ℕ
sub64 a b = (a + 2 ^ 64 - b) % 2 ^ 64

-- arena_align_up
unfoldable pub align_up : ℕ → Option ℕ
align_up value =
    let remainder = value % alignment in
    let padding = alignment - remainder in
    if remainder == 0
    then some value
    else if ltb (size_max - padding) value
    then none
    else some (value + padding)

-- arena_required_capacity
unfoldable pub required_capacity : ℕ → Option ℕ
required_capacity size =
    if ltb (size_max - (alignment - 1)) size then none else some (size + (alignment - 1))

-- arena_capacity_is_oversized
unfoldable pub is_oversized : Arena → ℕ → Bool
is_oversized arena capacity =
    if ltb (size_max / 4) arena.default_block_size
    then false
    else ltb (arena.default_block_size * 4) capacity

-- arena_block_create
unfoldable pub block_create : Arena → ℕ → Option Fresh → Option Block
unfolding is_oversized
block_create arena capacity fresh = if ltb (size_max - header) capacity then none else elim fresh [
  | none ↦ none
  | some memory ↦ some (record {
    address = memory.address;
    capacity = capacity;
    used = 0;
    allocation_count = 0;
    oversized = is_oversized arena capacity;
    bytes = memory.bytes;
  })
]

-- arena_block_can_allocate
unfoldable pub block_can_allocate : Block → ℕ → Bool
unfolding align_up
block_can_allocate block size = elim (align_up block.used) [
  | none ↦ false
  | some aligned_used ↦
      not (ltb block.capacity aligned_used) && not (ltb (block.capacity - aligned_used) size)
]

-- The chain from `first`.
unfoldable pub chain : List Block → List Block → List Block
chain [] ahead = ahead
chain (b ∷ upto) ahead = chain upto (b ∷ ahead)
