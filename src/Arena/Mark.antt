-- ===== src/Arena/Mark.antt =====
-- arena_mark and arena_restore of src/memory/arena.c: going back behind any allocations.
pub mod Released
pub mod Restore
use ceasy.Prelude.{
  ◌≢◌, ℕ, suc, ◌+◌, ◌-◌, ◌%◌, ◌^◌, ◌≤◌, ◌<◌, ◌≡◌, ◌⊎◌, refl, sym, ap, ◌∙◌, Bool, true, false, List,
  [], ◌∷◌, ◌++◌, arith, length, length-append, size_max, All, map, Option, none, some, Option-cases,
  Bool-cases, inl, inr, if◌then◌else◌, ltb, ◌==◌, ==_iff,
}
use mathlib.Core.Path.{subst}
use ceasy.Arena.Types.{Block, Fresh, Arena, ArenaMark, Place, header, chain}
use ceasy.Arena.Allocate.{alloc}
use ceasy.Arena.Release.{mark, find_upto, find_block, recount, restore_block, restore}
use ceasy.Arena.Valid.{total, IsBlock, IsIdle, IsValid}
use ceasy.Arena.Ready.{Avoids, IsFresh, IsReady}
use ceasy.Arena.Alloc.{taken, after, Outcome, refuses, takes, alloc-Outcome, alloc-IsValid}

-- A series of allocations, each with its size and with what `malloc` returns if it is called.
abbrev pub run : Arena → List (ℕ × Option Fresh) → Arena
run a [] = a
run a ((size, fresh) ∷ rest) = run (alloc a size fresh).1 rest

-- `malloc` never returns the address `t` of a block that is in use.
abbrev pub AllFresh : ℕ → List (ℕ × Option Fresh) → Type 0
AllFresh t [] = Unit
AllFresh t ((size, fresh) ∷ rest) = IsFresh t fresh × AllFresh t rest

pub run-IsValid : (a : Arena) (ops : List (ℕ × Option Fresh)) → IsValid a → IsValid (run a ops)
run-IsValid a [] v = v
run-IsValid a ((size, fresh) ∷ rest) v =
    run-IsValid (alloc a size fresh).1 rest (alloc-IsValid a size fresh v).0

-- The block with the counters of another one.
abbrev pub with_counters : Block → Block → Block
with_counters now b = record now { used = b.used; allocation_count = b.allocation_count }

-- What at most `k` allocations leave of the current block `b` with `bs` in front of it: blocks with other
-- addresses behind it, and more allocations in it.
pub record Past (start : Arena) (b : Block) (bs : List Block) (k : ℕ) (a : Arena) : Type 0 where
  pub extra : List Block
  pub now : Block
  pub upto : a.upto ≡ extra ++ now ∷ bs
  pub same : with_counters now b ≡ b
  pub used_grows : b.used ≤ now.used
  pub count_grows : b.allocation_count ≤ now.allocation_count
  pub count_bound : now.allocation_count ≤ b.allocation_count + k
  pub extra_Avoids : Avoids b.address extra
  pub ahead_Avoids : Avoids b.address a.ahead
  pub self : a.self ≡ start.self
  pub generation : a.generation ≡ start.generation
  pub default_block_size : a.default_block_size ≡ start.default_block_size

Past-later :
    {start : Arena} {b : Block} {bs : List Block} {k : ℕ} {a : Arena}
    → Past start b bs k a
    → Past start b bs (suc k) a
Past-later p = record {
  extra = p.extra;
  now = p.now;
  upto = p.upto;
  same = p.same;
  used_grows = p.used_grows;
  count_grows = p.count_grows;
  count_bound = omega (arith, p.count_bound);
  extra_Avoids = p.extra_Avoids;
  ahead_Avoids = p.ahead_Avoids;
  self = p.self;
  generation = p.generation;
  default_block_size = p.default_block_size;
}

-- An allocation in a block that is current already: the marked one, or one behind it.
Past-same :
    (start : Arena) (b : Block) (bs : List Block) (k : ℕ) (a a' : Arena) (size off : ℕ)
    {fresh : Option Fresh} (r : IsReady a a' size fresh) (p : Past start b bs k a)
    → b.allocation_count + k < size_max
    → r.block.used ≤ off
    → (extra : List Block) → extra ++ p.now ∷ bs ≡ r.block ∷ r.rest
    → Avoids b.address extra
    → Past start b bs (suc k) (after a' r.block r.rest off size)
Past-same start b bs k a a' size off r p small above [] e av =
    let is : p.now ≡ r.block = cc in
    let n = ap (λ (x : Block). x.used) is in
    let m = ap (λ (x : Block). x.allocation_count) is in
    record {
      extra = [];
      now = taken r.block off size;
      upto = ap (λ l. taken r.block off size ∷ l) (let t : r.rest ≡ bs = cc in t);
      same = ap (λ x. with_counters x b) (sym is) ∙ p.same;
      used_grows = omega (arith, p.used_grows);
      count_grows = omega (arith, p.count_grows, p.count_bound);
      count_bound = omega (arith, p.count_bound);
      extra_Avoids = tt;
      ahead_Avoids = r.ahead_Avoids b.address p.ahead_Avoids;
      self = r.self ∙ p.self;
      generation = r.generation ∙ p.generation;
      default_block_size = r.default_block_size ∙ p.default_block_size;
    }
Past-same start b bs k a a' size off r p small above (x ∷ xs) e av =
    let is : x ≡ r.block = cc in
    record {
      extra = taken r.block off size ∷ xs;
      now = p.now;
      upto = ap (λ l. taken r.block off size ∷ l) (let t : r.rest ≡ xs ++ p.now ∷ bs = cc in t);
      same = p.same;
      used_grows = p.used_grows;
      count_grows = p.count_grows;
      count_bound = omega (arith, p.count_bound);
      extra_Avoids = (subst (λ (y : Block). y.address ≢ b.address) is av.0, av.1);
      ahead_Avoids = r.ahead_Avoids b.address p.ahead_Avoids;
      self = r.self ∙ p.self;
      generation = r.generation ∙ p.generation;
      default_block_size = r.default_block_size ∙ p.default_block_size;
    }

-- An allocation in another block.
Past-new :
    (start : Arena) (b : Block) (bs : List Block) (k : ℕ) (a a' : Arena) (size off : ℕ)
    {fresh : Option Fresh} (r : IsReady a a' size fresh)
    → Past start b bs k a
    → a.upto ≡ r.rest
    → r.block.address ≢ b.address
    → Past start b bs (suc k) (after a' r.block r.rest off size)
Past-new start b bs k a a' size off r p e ne = record {
  extra = taken r.block off size ∷ p.extra;
  now = p.now;
  upto = ap (λ l. taken r.block off size ∷ l) (sym e ∙ p.upto);
  same = p.same;
  used_grows = p.used_grows;
  count_grows = p.count_grows;
  count_bound = omega (arith, p.count_bound);
  extra_Avoids = (ne, p.extra_Avoids);
  ahead_Avoids = r.ahead_Avoids b.address p.ahead_Avoids;
  self = r.self ∙ p.self;
  generation = r.generation ∙ p.generation;
  default_block_size = r.default_block_size ∙ p.default_block_size;
}

Past-alloc :
    (start : Arena) (b : Block) (bs : List Block) (k : ℕ) (a : Arena) (size : ℕ)
    (fresh : Option Fresh)
    → IsValid a
    → Past start b bs k a
    → b.allocation_count + k < size_max
    → IsFresh b.address fresh
    → Past start b bs (suc k) (alloc a size fresh).1
Past-alloc start b bs k a size fresh v p small f = elim (alloc-Outcome a size fresh v) [
  | refuses e ↦ rw e (Past-later p)
  | takes a' r off room e ↦ rw e (elim r.from_before [
    | inl same ↦
        Past-same start b bs k a a' size off r p small room.above p.extra (sym p.upto ∙ same)
          p.extra_Avoids
    | inr new ↦ Past-new start b bs k a a' size off r p new.0 (new.2 b.address p.ahead_Avoids f)
  ])
]

pub Past-run :
    (start : Arena) (b : Block) (bs : List Block) (k : ℕ) (a : Arena)
    (ops : List (ℕ × Option Fresh))
    → IsValid a
    → Past start b bs k a
    → b.allocation_count + k + length ops ≤ size_max
    → AllFresh b.address ops
    → (n : ℕ) × Past start b bs n (run a ops)
Past-run start b bs k a [] v p small f = (k, p)
Past-run start b bs k a ((size, fresh) ∷ rest) v p small f =
    Past-run start b bs (suc k) (alloc a size fresh).1 rest (alloc-IsValid a size fresh v).0
      (Past-alloc start b bs k a size fresh v p (omega arith) f.0) (omega arith) f.1

-- The search for the marked block stops at it.
pub find_upto-Avoids :
    (t : ℕ) (extra : List Block) (now : Block) (bs cut : List Block)
    → Avoids t extra
    → now.address ≡ t
    → find_upto t (extra ++ now ∷ bs) cut ≡ some (now, bs, chain extra cut)
unfolding find_upto chain
find_upto-Avoids t [] now bs cut h e = ground (arith, e)
find_upto-Avoids t (x ∷ extra) now bs cut h e =
    let f = find_upto-Avoids t extra now bs (x ∷ cut) h.1 e in
    let ne = h.0 in ground (arith, f, ==_iff x.address t)
