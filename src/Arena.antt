-- ===== src/Arena.antt =====
-- src/memory/arena.c and include/ceasy/memory/arena.h: the arena of linked blocks. `bytes` of a
-- Block is its `data`.
-- The chain from `first` along `next` is kept in two lists: `upto` has the current block and those in
-- front of it, the current one first, and `ahead` has those behind it, in order. So `current` is NULL
-- where `upto` is empty. A block and an arena are known by their addresses. What `malloc` returns is
-- an argument, `none` for NULL; `free` is seen in the list of addresses that an operation frees.
-- `size_t` and `uint64_t` have 64 bits, `max_align_t` has alignment 16, and a block's header 80 bytes.
pub mod Types
mod Allocate
mod Release
pub mod Valid
pub mod Grow
pub mod Ready
pub mod Alloc
pub mod Arrays
pub mod Mark
pub mod Reset
mod Tests
pub use Types.{Block, Fresh, Arena, ArenaMark, ArenaStats, Place, alignment, header}
unfoldable pub use Allocate.{init, alloc, alloc_zero, alloc_array}
unfoldable pub use Release.{mark, restore, reset, destroy, stats}
