-- ===== src/Arena/Allocate.antt =====
-- src/memory/arena.c: arena_init and the functions that allocate.
use ceasy.Prelude.{
  ℕ, ◌+◌, ◌-◌, ◌*◌, ◌/◌, ◌%◌, ◌^◌, not, ◌&&◌, ◌||◌, Option, none, some, List, [], ◌∷◌, ltb, leb,
  ◌==◌, if◌then◌else◌, size_max,
}
use ceasy.Arena.Types.{
  Block, Fresh, Arena, Place, sub64, align_up, required_capacity, block_create, block_can_allocate,
}

-- What the new block's `next` is set to: `current->next`, or NULL where there is no current block.
unfoldable pub behind : List Block → List Block → List Block
behind [] ahead = []
behind (b ∷ bs) ahead = ahead

-- arena_add_block: the arena with the new block as its current one; `none` is `false`, and leaves the
-- arena alone.
unfoldable pub add_block : Arena → ℕ → Option Fresh → Option Arena
unfolding required_capacity block_create behind
add_block arena size fresh = elim (required_capacity size) [
  | none ↦ none
  | some required ↦
      let capacity =
        (if ltb arena.default_block_size required then required else arena.default_block_size) in
      if arena.block_count == size_max || ltb (size_max - capacity) arena.capacity
      then none
      else elim (block_create arena capacity fresh) [
        | none ↦ none
        | some block ↦ some (record arena {
          upto = block ∷ arena.upto;
          ahead = behind arena.upto arena.ahead;
          block_count = arena.block_count + 1;
          capacity = arena.capacity + capacity;
        })
      ]
]

-- arena_init, on the memory at `self`; `none` is `false`.
unfoldable pub init : ℕ → ℕ → Option Arena
init self block_size =
    if block_size == 0
    then none
    else some (record {
      self = self;
      upto = [];
      ahead = [];
      default_block_size = block_size;
      block_count = 0;
      capacity = 0;
      used = 0;
      allocation_count = 0;
      generation = 1;
    })

-- The first part of arena_alloc: the arena whose current block is to hold the allocation.
unfoldable pub ready : Arena → ℕ → Option Fresh → Option Arena
unfolding block_can_allocate add_block
ready arena size fresh = elim arena.upto [
  | [] ↦ add_block arena size fresh
  | b ∷ bs ↦ if block_can_allocate b size then some arena else elim arena.ahead [
    | [] ↦ add_block arena size fresh
    | n ∷ ns ↦
        if block_can_allocate n size
        then some (record arena { upto = n ∷ b ∷ bs; ahead = ns })
        else add_block arena size fresh
  ]
]

-- The block with `size` bytes taken at `aligned_used`.
unfoldable pub bump : Block → ℕ → ℕ → Block
bump block aligned_used size = record block {
  used = (aligned_used + size) % 2 ^ 64;
  allocation_count = (block.allocation_count + 1) % 2 ^ 64;
}

-- The second part of arena_alloc, at the current block.
unfoldable pub place : Arena → ℕ → Option Place × Arena
unfolding align_up bump
place arena size = elim arena.upto [
  | [] ↦ (none, arena)
  | b ∷ bs ↦ elim (align_up b.used) [
    | none ↦ (none, arena)
    | some aligned_used ↦ if ltb (sub64 b.capacity aligned_used) size then (none, arena) else (
      some (record { block = b.address; offset = aligned_used }),
      record arena {
        upto = bump b aligned_used size ∷ bs;
        used = (arena.used + sub64 (bump b aligned_used size).used b.used) % 2 ^ 64;
        allocation_count = (arena.allocation_count + 1) % 2 ^ 64;
      },
    )
  ]
]

-- arena_alloc
unfoldable pub alloc : Arena → ℕ → Option Fresh → Option Place × Arena
unfolding ready place
alloc arena size fresh =
    if arena.default_block_size == 0 || size == 0
    then (none, arena)
    else elim (ready arena size fresh) [ none ↦ (none, arena) | some arena' ↦ place arena' size ]

-- memset(memory, 0, size), at an offset of the current block.
unfoldable pub clear : List Block → ℕ → ℕ → List Block
clear [] offset size = []
clear (b ∷ bs) offset size =
    record b { bytes = λ i. if leb offset i && ltb i (offset + size) then 0 else b.bytes i } ∷ bs

unfoldable pub alloc_zero : Arena → ℕ → Option Fresh → Option Place × Arena
unfolding alloc clear
alloc_zero arena size fresh =
    let (memory, arena') = alloc arena size fresh in
    elim memory [
      | none ↦ (none, arena')
      | some p ↦ (some p, record arena' { upto = clear arena'.upto p.offset size })
    ]

unfoldable pub alloc_array : Arena → ℕ → ℕ → Option Fresh → Option Place × Arena
unfolding alloc
alloc_array arena count element_size fresh =
    if not (count == 0) && ltb (size_max / count) element_size
    then (none, arena)
    else alloc arena (count * element_size % 2 ^ 64) fresh
