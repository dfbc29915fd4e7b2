-- ===== src/Arena/Valid.antt =====
-- When an arena of src/memory/arena.c is well formed.
use ceasy.Prelude.{
  ℕ, ◌+◌, ◌%◌, ◌^◌, ◌≤◌, ◌<◌, ◌≡◌, refl, List, [], ◌∷◌, arith, length, size_max, All, some,
}
use ceasy.Arena.Types.{Block, Arena, header}
use ceasy.Arena.Allocate.{init}

abbrev pub total : (Block → ℕ) → List Block → ℕ
total f [] = 0
total f (b ∷ bs) = f b + total f bs

-- A block's header and bytes fit into memory, and so do its allocations into its bytes.
pub record IsBlock (b : Block) : Type 0 where
  pub within : b.used ≤ b.capacity
  pub fits : b.capacity + header ≤ size_max

-- A block that a reset has emptied.
pub record IsIdle (b : Block) : Type 0 where
  pub unused : b.used ≡ 0
  pub unallocated : b.allocation_count ≡ 0
  pub fits : b.capacity + header ≤ size_max

-- The counters are those of the blocks, and nothing stands in the blocks behind the current one. The
-- number of allocations is counted modulo 2^64.
pub record IsValid (a : Arena) : Type 0 where
  pub initialised : 0 < a.default_block_size
  pub default_fits : a.default_block_size ≤ size_max
  pub upto_blocks : All IsBlock a.upto
  pub ahead_blocks : All IsIdle a.ahead
  pub no_current : a.upto ≡ [] → a.ahead ≡ []
  pub counted : a.block_count ≡ length a.upto + length a.ahead
  pub countable : a.block_count ≤ size_max
  pub reserved : a.capacity ≡ total (λ b. b.capacity) a.upto + total (λ b. b.capacity) a.ahead
  pub reservable : a.capacity ≤ size_max
  pub in_use : a.used ≡ total (λ b. b.used) a.upto
  pub allocations : a.allocation_count ≡ total (λ b. b.allocation_count) a.upto % 2 ^ 64

pub total-used-le :
    (bs : List Block) → All IsBlock bs → total (λ b. b.used) bs ≤ total (λ b. b.capacity) bs
total-used-le [] h = omega arith
total-used-le (b ∷ bs) h = omega (arith, h.0.within, total-used-le bs h.1)

-- An arena with no block, as `arena_init` makes it.
abbrev pub empty : ℕ → ℕ → Arena
empty self size = record {
  self = self;
  upto = [];
  ahead = [];
  default_block_size = size;
  block_count = 0;
  capacity = 0;
  used = 0;
  allocation_count = 0;
  generation = 1;
}

pub init-empty : (self size : ℕ) → 0 < size → init self size ≡ some (empty self size)
unfolding init
init-empty self size h = ground arith

pub empty-IsValid : (self size : ℕ) → 0 < size → size ≤ size_max → IsValid (empty self size)
empty-IsValid self size h k = record {
  initialised = h;
  default_fits = k;
  upto_blocks = tt;
  ahead_blocks = tt;
  no_current = λ e. refl;
  counted = refl;
  countable = omega arith;
  reserved = refl;
  reservable = omega arith;
  in_use = refl;
  allocations = refl;
}
