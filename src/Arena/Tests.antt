-- ===== src/Arena/Tests.antt =====
-- Runs of an arena, and the theorems about it at a concrete one.
use ceasy.Prelude.{
  ◌++◌, ℕ, ◌≡◌, refl, true, false, Option, none, some, List, [], ◌∷◌, arith, ◌^◌, map, leb, ltb,
  ◌&&◌, if◌then◌else◌,
}
use ceasy.Arena.Types.{
  Fresh, Arena, Place, align_up, required_capacity, is_oversized, block_create, block_can_allocate,
  chain,
}
use ceasy.Arena.Allocate.{
  behind, add_block, ready, bump, place, alloc, alloc_array, alloc_zero, clear,
}
use ceasy.Arena.Release.{mark, restore, reset_loop, reset}
use ceasy.Arena.Valid.{IsValid, empty}
use ceasy.Arena.Alloc.{alloc-IsValid, IsPlaced, alloc-IsPlaced, alloc_succeeds}
use ceasy.Arena.Arrays.{alloc_array_lem}
use ceasy.Arena.Mark.{run}
use ceasy.Arena.Mark.Released.{addresses}
use ceasy.Arena.Mark.Restore.{rewound, restore-rewound}
use ceasy.Arena.Reset.{oversized, kept, with_blocks, reset_lem, reset-IsValid, restore-reset}

abbrev memory_at : ℕ → Fresh
memory_at address = record { address = address; bytes = λ i. 0 }

-- An arena with blocks of 64 bytes; 24 bytes of its one block, at 1000, are used.
abbrev one_block : Arena
one_block = record (empty 7 64) {
  upto =
      record {
        address = 1000;
        capacity = 64;
        used = 24;
        allocation_count = 1;
        oversized = false;
        bytes = λ i. 0;
      }
      ∷ [];
  block_count = 1;
  capacity = 64;
  used = 24;
  allocation_count = 1;
}

one_block-alloc : (alloc (empty 7 64) 24 (some (memory_at 1000))).1 ≡ one_block
unfolding alloc ready add_block behind bump place align_up required_capacity is_oversized
    block_create
one_block-alloc = refl

one_block-IsValid : IsValid one_block
one_block-IsValid = record {
  initialised = omega arith;
  default_fits = omega arith;
  upto_blocks = (record { within = omega arith; fits = omega arith }, tt);
  ahead_blocks = tt;
  no_current = λ e. refl;
  counted = refl;
  countable = omega arith;
  reserved = refl;
  reservable = omega arith;
  in_use = refl;
  allocations = refl;
}

alloc-IsValid_example :
    IsValid (alloc one_block 40 (some (memory_at 2000))).1
    × ((alloc one_block 40 (some (memory_at 2000))).0 ≡ none
        → (alloc one_block 40 (some (memory_at 2000))).1 ≡ one_block)
alloc-IsValid_example = alloc-IsValid one_block 40 (some (memory_at 2000)) one_block-IsValid

-- The offset 24 is aligned up to 32, and 8 bytes are taken there.
abbrev at_32 : Arena
at_32 = record one_block {
  upto =
      record {
        address = 1000;
        capacity = 64;
        used = 40;
        allocation_count = 2;
        oversized = false;
        bytes = λ i. 0;
      }
      ∷ [];
  used = 40;
  allocation_count = 2;
}

alloc-at_32 : alloc one_block 8 none ≡ (some (record { block = 1000; offset = 32 }), at_32)
unfolding alloc ready block_can_allocate bump place align_up
alloc-at_32 = refl

alloc-IsPlaced_example : IsPlaced one_block 8 (record { block = 1000; offset = 32 }) at_32
alloc-IsPlaced_example =
    alloc-IsPlaced one_block 8 none (record { block = 1000; offset = 32 }) at_32 one_block-IsValid
      alloc-at_32

alloc_succeeds_example :
    (p : Place) × (a' : Arena) × (alloc one_block 300 (some (memory_at 2000)) ≡ (some p, a'))
alloc_succeeds_example =
    alloc_succeeds one_block 300 (memory_at 2000) one_block-IsValid (omega arith) (omega arith)
      (omega arith) (omega arith) (omega arith) (omega arith)

-- An allocation in the marked block, and one for which an oversized block is created.
abbrev two_more : List (ℕ × Option Fresh)
two_more = (8, none) ∷ (300, some (memory_at 2000)) ∷ []

restore-rewound_example :
    (released : List ℕ) × (restore (run one_block two_more) (mark one_block)
      ≡ (true, released, rewound one_block))
    × (addresses (chain (run one_block two_more).upto (run one_block two_more).ahead)
        ≡ addresses (chain one_block.upto []) ++ released)
restore-rewound_example =
    restore-rewound one_block
      (record {
        address = 1000;
        capacity = 64;
        used = 24;
        allocation_count = 1;
        oversized = false;
        bytes = λ i. 0;
      })
      [] two_more one_block-IsValid refl tt (tt, (omega arith, tt)) (omega arith)

reset_lem_example : reset one_block ≡ (
  map (λ b. b.address) (oversized (chain one_block.upto one_block.ahead)),
  with_blocks one_block (kept (chain one_block.upto one_block.ahead)),
)
reset_lem_example = reset_lem one_block one_block-IsValid (omega arith)

reset-IsValid_example : IsValid (reset one_block).1
reset-IsValid_example = reset-IsValid one_block one_block-IsValid (omega arith)

restore-reset_example :
    restore (reset one_block).1 (mark one_block) ≡ (false, [], (reset one_block).1)
restore-reset_example = restore-reset one_block

-- The oversized block of 315 bytes is freed, the other one is kept.
reset_frees : (reset (run one_block two_more)).0 ≡ 2000 ∷ []
unfolding alloc ready add_block behind bump place align_up required_capacity is_oversized
    block_create block_can_allocate reset reset_loop chain
reset_frees = refl

alloc_array_lem_example : alloc_array one_block (2 ^ 63) 2 none ≡ (none, one_block)
alloc_array_lem_example = alloc_array_lem one_block (2 ^ 63) 2 none

-- The allocation at 32, with its bytes set to 0.
abbrev zero_at_32 : Arena
zero_at_32 = record at_32 {
  upto =
      record {
        address = 1000;
        capacity = 64;
        used = 40;
        allocation_count = 2;
        oversized = false;
        bytes = λ i. if leb 32 i && ltb i 40 then 0 else 0;
      }
      ∷ [];
}

alloc_zero-at_32 :
    alloc_zero one_block 8 none ≡ (some (record { block = 1000; offset = 32 }), zero_at_32)
unfolding alloc_zero clear alloc ready block_can_allocate bump place align_up
alloc_zero-at_32 = refl
