-- ===== src/Arena/Release.antt =====
-- src/memory/arena.c: marks, and the functions that release memory.
use ceasy.Prelude.{
  ℕ, ◌+◌, ◌%◌, ◌^◌, Bool, true, false, not, ◌||◌, Option, none, some, List, [], ◌∷◌, map, ltb, ◌==◌,
  if◌then◌else◌,
}
use ceasy.Arena.Types.{Block, Arena, ArenaMark, ArenaStats, sub64, chain}

-- arena_mark
unfoldable pub mark : Arena → ArenaMark
mark arena =
    if arena.default_block_size == 0
    then record {
      arena = none;
      block = none;
      used = 0;
      allocation_count = 0;
      total_used = 0;
      total_allocations = 0;
      generation = 0;
    }
    else record {
      arena = some arena.self;
      block = elim arena.upto [ [] ↦ none | b ∷ bs ↦ some b.address ];
      used = elim arena.upto [ [] ↦ 0 | b ∷ bs ↦ b.used ];
      allocation_count = elim arena.upto [ [] ↦ 0 | b ∷ bs ↦ b.allocation_count ];
      total_used = arena.used;
      total_allocations = arena.allocation_count;
      generation = arena.generation;
    }

-- arena_contains_block: the chain cut behind the block with this address, which comes first, and what
-- is cut off.
unfoldable pub find_upto : ℕ → List Block → List Block → Option (Block × List Block × List Block)
find_upto target [] cut = none
find_upto target (b ∷ bs) cut =
    let rest = find_upto target bs (b ∷ cut) in
    if b.address == target then some (b, bs, cut) else rest

unfoldable pub find_ahead : ℕ → List Block → List Block → Option (Block × List Block × List Block)
find_ahead target upto [] = none
find_ahead target upto (b ∷ bs) =
    let rest = find_ahead target (b ∷ upto) bs in
    if b.address == target then some (b, upto, bs) else rest

unfoldable pub find_block : ℕ → Arena → Option (Block × List Block × List Block)
unfolding find_upto find_ahead
find_block target arena = elim (find_upto target arena.upto arena.ahead) [
  | none ↦ find_ahead target arena.upto arena.ahead
  | some found ↦ some found
]

-- arena_reset_to_empty
unfoldable pub reset_to_empty : Arena → List ℕ × Arena
unfolding chain
reset_to_empty arena = (
  map (λ b. b.address) (chain arena.upto arena.ahead),
  record arena {
    upto = [];
    ahead = [];
    block_count = 0;
    capacity = 0;
    used = 0;
    allocation_count = 0;
  },
)

-- The loop at the end of arena_restore.
unfoldable pub recount : List Block → ℕ → ℕ → ℕ × ℕ
recount [] count capacity = (count, capacity)
recount (b ∷ bs) count capacity =
    recount bs ((count + 1) % 2 ^ 64) ((capacity + b.capacity) % 2 ^ 64)

-- arena_restore behind its checks: `block` is the marked one, `front` what is in front of it.
unfoldable pub restore_block :
    Arena → ArenaMark → Block → List Block → List Block → Bool × List ℕ × Arena
unfolding chain recount
restore_block arena m block front released =
    let block' = record block { used = m.used; allocation_count = m.allocation_count } in
    let (count, capacity) = recount (chain (block' ∷ front) []) 0 0 in
    (
      true,
      map (λ b. b.address) released,
      record arena {
        upto = block' ∷ front;
        ahead = [];
        block_count = count;
        capacity = capacity;
        used = m.total_used;
        allocation_count = m.total_allocations;
      },
    )

-- arena_restore: whether it succeeds, the addresses of the blocks that it frees, and the arena.
unfoldable pub restore : Arena → ArenaMark → Bool × List ℕ × Arena
unfolding find_block reset_to_empty restore_block
restore arena m =
    let same_arena : Bool = elim m.arena [ none ↦ false | some a ↦ a == arena.self ] in
    if not same_arena || not (m.generation == arena.generation)
    then (false, [], arena)
    else elim m.block [
      | none ↦
          if not (m.total_used == 0) || not (m.total_allocations == 0)
          then (false, [], arena)
          else (true, (reset_to_empty arena).0, (reset_to_empty arena).1)
      | some target ↦ elim (find_block target arena) [
        | none ↦ (false, [], arena)
        | some (block, front, released) ↦
            if ltb block.used m.used || ltb block.allocation_count m.allocation_count
            then (false, [], arena)
            else restore_block arena m block front released
      ]
    ]

-- The loop of arena_reset: the blocks kept and the addresses freed, with the two counters.
unfoldable pub reset_loop : List Block → ℕ → ℕ → List Block × List ℕ × ℕ × ℕ
reset_loop [] count capacity = ([], [], count, capacity)
reset_loop (b ∷ bs) count capacity =
    let freed = reset_loop bs (sub64 count 1) (sub64 capacity b.capacity) in
    let kept = reset_loop bs count capacity in
    if b.oversized
    then (freed.0, b.address ∷ freed.1, freed.2, freed.3)
    else (record b { used = 0; allocation_count = 0 } ∷ kept.0, kept.1, kept.2, kept.3)

unfoldable pub reset : Arena → List ℕ × Arena
unfolding chain reset_loop
reset arena =
    let (kept, freed, count, capacity) =
      reset_loop (chain arena.upto arena.ahead) arena.block_count arena.capacity in
    let generation = (arena.generation + 1) % 2 ^ 64 in
    if arena.default_block_size == 0 then ([], arena) else (
      freed,
      record arena {
        upto = elim kept [ [] ↦ [] | b ∷ bs ↦ b ∷ [] ];
        ahead = elim kept [ [] ↦ [] | b ∷ bs ↦ bs ];
        block_count = count;
        capacity = capacity;
        used = 0;
        allocation_count = 0;
        generation = if generation == 0 then 1 else generation;
      },
    )

-- arena_destroy
unfoldable pub destroy : Arena → List ℕ × Arena
unfolding chain
destroy arena = (
  map (λ b. b.address) (chain arena.upto arena.ahead),
  record {
    self = arena.self;
    upto = [];
    ahead = [];
    default_block_size = 0;
    block_count = 0;
    capacity = 0;
    used = 0;
    allocation_count = 0;
    generation = 0;
  },
)

-- arena_stats
unfoldable pub stats : Arena → ArenaStats
stats arena = record {
  block_count = arena.block_count;
  capacity = arena.capacity;
  used = arena.used;
  allocation_count = arena.allocation_count;
}
