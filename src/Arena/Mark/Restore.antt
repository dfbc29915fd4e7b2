-- ===== src/Arena/Mark/Restore.antt =====
-- arena_restore of src/memory/arena.c gives a marked arena back after any allocations.
use ceasy.Prelude.{
  ℕ, ◌+◌, ◌%◌, ◌^◌, ◌≤◌, ◌<◌, ◌≡◌, refl, sym, ap, ap₂, ◌∙◌, true, List, [], ◌++◌, ◌∷◌, arith,
  length, size_max, map, Option, some, ◌==◌, ==_iff,
}
use ceasy.Arena.Types.{Block, Fresh, Arena, ArenaMark, chain}
use ceasy.Arena.Release.{mark, find_block, recount, restore_block, restore}
use ceasy.Arena.Valid.{total, IsValid}
use ceasy.Arena.Ready.{Avoids}
use ceasy.Arena.Mark.Released.{addresses, addresses-Past}
use ceasy.Arena.Mark.{run, AllFresh, Past, Past-run, find_upto-Avoids, with_counters}

pub length-chain :
    (upto ahead : List Block) → length (chain upto ahead) ≡ length upto + length ahead
unfolding chain
length-chain [] ahead = omega arith
length-chain (b ∷ upto) ahead = omega (arith, length-chain upto (b ∷ ahead))

pub total-chain :
    (f : Block → ℕ) (upto ahead : List Block)
    → total f (chain upto ahead) ≡ total f upto + total f ahead
unfolding chain
total-chain f [] ahead = omega arith
total-chain f (b ∷ upto) ahead = omega (arith, total-chain f upto (b ∷ ahead))

recount_lem :
    (bs : List Block) (n c : ℕ)
    → n + length bs ≤ size_max
    → c + total (λ b. b.capacity) bs ≤ size_max
    → recount bs n c ≡ (n + length bs, c + total (λ b. b.capacity) bs)
unfolding recount
recount_lem [] n c h k = ap₂ (λ x y. (x, y)) (omega arith) (omega arith)
recount_lem (b ∷ bs) n c h k =
    let i : (n + 1) % 2 ^ 64 ≡ n + 1 = omega arith in
    let j : (c + b.capacity) % 2 ^ 64 ≡ c + b.capacity = omega arith in
    rw (i, j)
      (recount_lem bs (n + 1) (c + b.capacity) (omega arith) (omega arith)
        ∙ ap₂ (λ x y. (x, y)) (omega arith) (omega arith))

-- The mark of an arena with current block `b`.
abbrev marked : Arena → Block → ArenaMark
marked a b = record {
  arena = some a.self;
  block = some b.address;
  used = b.used;
  allocation_count = b.allocation_count;
  total_used = a.used;
  total_allocations = a.allocation_count;
  generation = a.generation;
}

mark-marked :
    (a : Arena) (b : Block) (bs : List Block)
    → 0 < a.default_block_size
    → a.upto ≡ b ∷ bs
    → mark a ≡ marked a b
unfolding mark
mark-marked a b bs h e = ground (arith, e)

restore_found :
    (q a : Arena) (b block : Block) (front released : List Block)
    → q.self ≡ a.self
    → q.generation ≡ a.generation
    → find_block b.address q ≡ some (block, front, released)
    → b.used ≤ block.used
    → b.allocation_count ≤ block.allocation_count
    → restore q (marked a b) ≡ restore_block q (marked a b) block front released
unfolding restore
restore_found q a b block front released s g f u c =
    let i : (a.self == q.self) ≡ true = (==_iff a.self q.self).1 (sym s) in
    let j : (a.generation == q.generation) ≡ true = (==_iff a.generation q.generation).1 (sym g) in
    ground (arith, i, j, f)

-- The arena `a` with what is behind its current block released.
abbrev pub cut : Arena → Arena → Arena
cut q a = record q {
  upto = a.upto;
  ahead = [];
  block_count = length a.upto;
  capacity = total (λ b. b.capacity) a.upto;
  used = a.used;
  allocation_count = a.allocation_count;
}

restore_block-cut :
    (q a : Arena) (b now : Block) (bs released : List Block)
    → IsValid a
    → a.upto ≡ b ∷ bs
    → with_counters now b ≡ b
    → restore_block q (marked a b) now bs released ≡ (true, map (λ x. x.address) released, cut q a)
unfolding restore_block
restore_block-cut q a b now bs released v e s =
    let n = length-chain (b ∷ bs) [] in
    let t = total-chain (λ x. x.capacity) (b ∷ bs) [] in
    let r : recount (chain (b ∷ bs) []) 0 0 ≡ (length (b ∷ bs), total (λ x. x.capacity) (b ∷ bs)) =
      recount_lem (chain (b ∷ bs) []) 0 0 (omega (arith, n, v.counted, v.countable, ap length e))
        (omega (arith, t, v.reserved, v.reservable, ap (total (λ x. x.capacity)) e))
      ∙ ap₂ (λ x y. (x, y)) (omega (arith, n)) (omega (arith, t)) in
    rw (s, r) (rw e refl)

-- An arena with the blocks behind its current one released.
abbrev pub rewound : Arena → Arena
rewound a = record a {
  ahead = [];
  block_count = length a.upto;
  capacity = total (λ b. b.capacity) a.upto;
}

pub rewound-IsValid : (a : Arena) → IsValid a → IsValid (rewound a)
rewound-IsValid a v = record {
  initialised = v.initialised;
  default_fits = v.default_fits;
  upto_blocks = v.upto_blocks;
  ahead_blocks = tt;
  no_current = λ e. refl;
  counted = omega arith;
  countable = omega (arith, v.counted, v.countable);
  reserved = omega arith;
  reservable = omega (arith, v.reserved, v.reservable);
  in_use = v.in_use;
  allocations = v.allocations;
}

cut-rewound :
    (q a : Arena)
    → q.self ≡ a.self
    → q.generation ≡ a.generation
    → q.default_block_size ≡ a.default_block_size
    → cut q a ≡ rewound a
cut-rewound q a s g d = rw (s, g, d) refl

find_block-Past :
    (a q : Arena) (b : Block) (bs : List Block) (n : ℕ) (p : Past a b bs n q)
    → find_block b.address q ≡ some (p.now, bs, chain p.extra q.ahead)
unfolding find_block
find_block-Past a q b bs n p =
    let f =
      find_upto-Avoids b.address p.extra p.now bs q.ahead p.extra_Avoids
        (ap (λ (x : Block). x.address) p.same) in
    let u = p.upto in ground (arith, u, f)

-- After any series of allocations `arena_restore` brings a marked, well-formed arena with a current block
-- back: it succeeds, and leaves the arena of the mark but for the blocks behind the current one, which
-- are released, with the number and the capacity of the blocks counted anew. What it frees are the blocks
-- that the chain then has behind those of the mark. No block behind the current
-- one has its address, nor does `malloc` return it, and the block's count of allocations stays below 2^64.
pub restore-rewound :
    (a : Arena) (b : Block) (bs : List Block) (ops : List (ℕ × Option Fresh))
    → IsValid a
    → a.upto ≡ b ∷ bs
    → Avoids b.address a.ahead
    → AllFresh b.address ops
    → b.allocation_count + length ops ≤ size_max
    → (released : List ℕ) × (restore (run a ops) (mark a) ≡ (true, released, rewound a))
      × (addresses (chain (run a ops).upto (run a ops).ahead)
          ≡ addresses (chain a.upto []) ++ released)
restore-rewound a b bs ops v e av fresh small =
    let start : Past a b bs 0 a = record {
      extra = [];
      now = b;
      upto = e;
      same = refl;
      used_grows = omega arith;
      count_grows = omega arith;
      count_bound = omega arith;
      extra_Avoids = tt;
      ahead_Avoids = av;
      self = refl;
      generation = refl;
      default_block_size = refl;
    } in
    let (n, p) = Past-run a b bs 0 a ops v start (omega arith) fresh in
    let q = run a ops in
    let released = chain p.extra q.ahead in
    (
      addresses released,
      ap (restore q) (mark-marked a b bs v.initialised e)
          ∙ restore_found q a b p.now bs released p.self p.generation (find_block-Past a q b bs n p)
              p.used_grows p.count_grows
          ∙ restore_block-cut q a b p.now bs released v e p.same
          ∙ ap (λ x. (true, addresses released, x))
              (cut-rewound q a p.self p.generation p.default_block_size),
      addresses-Past a q b bs n p ∙ ap (λ l. addresses (chain l []) ++ addresses released) (sym e),
    )
