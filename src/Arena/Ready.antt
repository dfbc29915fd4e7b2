-- ===== src/Arena/Ready.antt =====
-- The first part of arena_alloc in src/memory/arena.c: it finds a current block with room.
use ceasy.Prelude.{
  ◌≢◌, ℕ, ◌+◌, ◌≤◌, ◌<◌, ◌≡◌, ◌⊎◌, refl, ap, true, List, [], ◌∷◌, arith, length, size_max, All,
  Option, none, some, Bool-cases, inl, inr,
}
use mathlib.Core.Path.{subst}
use mathlib.Core.Option.{some-injective}
use ceasy.Arena.Types.{Block, Fresh, Arena, header, block_can_allocate}
use ceasy.Arena.Allocate.{add_block, ready}
use ceasy.Arena.Grow.{add_block-Grows, grown-IsValid, can_allocate-fresh, add_block_succeeds}
use ceasy.Arena.Valid.{total, IsBlock, IsIdle, IsValid}

-- No block of the list has the address `t`, and `malloc` did not return it.
abbrev pub Avoids : ℕ → List Block → Type 0
Avoids t bs = All (λ (b : Block). b.address ≢ t) bs

abbrev pub IsFresh : ℕ → Option Fresh → Type 0
IsFresh t none = Unit
IsFresh t (some memory) = memory.address ≢ t

-- The arena `a` is well formed, its current block has room, and it comes from `before`: its current
-- block is the same, or was unused and stands in front of the others.
pub record IsReady (before a : Arena) (size : ℕ) (fresh : Option Fresh) : Type 0 where
  pub valid : IsValid a
  pub block : Block
  pub rest : List Block
  pub current : a.upto ≡ block ∷ rest
  pub room : block_can_allocate block size ≡ true
  pub from_before :
      (before.upto ≡ block ∷ rest)
      ⊎ ((before.upto ≡ rest)
          × (block.used ≡ 0)
          × ((t : ℕ) → Avoids t before.ahead → IsFresh t fresh → block.address ≢ t))
  pub ahead_Avoids : (t : ℕ) → Avoids t before.ahead → Avoids t a.ahead
  pub self : a.self ≡ before.self
  pub generation : a.generation ≡ before.generation
  pub default_block_size : a.default_block_size ≡ before.default_block_size

fresh_address :
    (fresh : Option Fresh) (memory : Fresh) (t : ℕ)
    → fresh ≡ some memory
    → IsFresh t fresh
    → memory.address ≢ t
fresh_address none memory t e f = absurd (cc)
fresh_address (some m) memory t e f = subst (λ (x : Fresh). x.address ≢ t) (some-injective _ _ e) f

add_block-IsReady :
    (a : Arena) (size : ℕ) (fresh : Option Fresh) (a' : Arena)
    → IsValid a
    → add_block a size fresh ≡ some a'
    → IsReady a a' size fresh
add_block-IsReady a size fresh a' v h =
    let g = add_block-Grows a size fresh a' v h in
    rw g.result (record {
      valid = grown-IsValid a g.cap g.memory v g.fits g.reservable g.countable;
      block = _;
      rest = a.upto;
      current = refl;
      room = can_allocate-fresh _ size refl (omega (arith, g.enough));
      from_before = inr (refl, refl, λ t h f. fresh_address fresh g.memory t g.got f);
      ahead_Avoids = λ t h. h;
      self = refl;
      generation = refl;
      default_block_size = refl;
    })

moved-IsValid :
    (a : Arena) (b n : Block) (bs ns : List Block)
    → a.upto ≡ b ∷ bs
    → a.ahead ≡ n ∷ ns
    → IsValid a
    → IsValid (record a { upto = n ∷ b ∷ bs; ahead = ns })
moved-IsValid a b n bs ns eu ea v =
    let ahead : All IsIdle (n ∷ ns) = subst (All IsIdle) ea v.ahead_blocks in
    let upto : All IsBlock (b ∷ bs) = subst (All IsBlock) eu v.upto_blocks in
    let idle = ahead.0 in
    record {
      initialised = v.initialised;
      default_fits = v.default_fits;
      upto_blocks = (record { within = omega (arith, idle.unused); fits = idle.fits }, upto);
      ahead_blocks = ahead.1;
      no_current = λ e. absurd (cc);
      counted = omega (arith, v.counted, ap length eu, ap length ea);
      countable = v.countable;
      reserved =
          omega
            (arith, v.reserved, ap (total (λ b. b.capacity)) eu, ap (total (λ b. b.capacity)) ea);
      reservable = v.reservable;
      in_use = omega (arith, v.in_use, ap (total (λ b. b.used)) eu, idle.unused);
      allocations =
          omega (arith, v.allocations, ap (total (λ b. b.allocation_count)) eu, idle.unallocated);
    }

idle_unused : (n : Block) (ns : List Block) → All IsIdle (n ∷ ns) → n.used ≡ 0
idle_unused n ns h = h.0.unused

pub List-cases :
    (bs : List Block) → (bs ≡ []) ⊎ ((b : Block) × (rest : List Block) × (bs ≡ b ∷ rest))
List-cases [] = inl refl
List-cases (b ∷ bs) = inr (b, bs, refl)

-- Past `ready`, the current block has room, whether it had, or the next one has, or a new one.
pub ready-IsReady :
    (a : Arena) (size : ℕ) (fresh : Option Fresh) (a' : Arena)
    → IsValid a
    → ready a size fresh ≡ some a'
    → IsReady a a' size fresh
unfolding ready
ready-IsReady a size fresh a' v h = elim (List-cases a.upto) [
  | inl e ↦ add_block-IsReady a size fresh a' v (ground (arith, e))
  | inr (b, bs, e) ↦ elim (Bool-cases (block_can_allocate b size)) [
    | inl room ↦
        subst (λ x. IsReady a x size fresh) (ground (arith, e, room))
          (record {
            valid = v;
            block = b;
            rest = bs;
            current = e;
            room = room;
            from_before = inl e;
            ahead_Avoids = λ t h. h;
            self = refl;
            generation = refl;
            default_block_size = refl;
          })
    | inr full ↦ elim (List-cases a.ahead) [
      | inl f ↦ add_block-IsReady a size fresh a' v (ground (arith, e, full, f))
      | inr (n, ns, f) ↦ elim (Bool-cases (block_can_allocate n size)) [
        | inl room ↦
            subst (λ x. IsReady a x size fresh) (ground (arith, e, full, f, room))
              (record {
                valid = moved-IsValid a b n bs ns e f v;
                block = n;
                rest = b ∷ bs;
                current = refl;
                room = room;
                from_before = inr (
                  e,
                  idle_unused n ns (subst (All IsIdle) f v.ahead_blocks),
                  λ t h k. (subst (Avoids t) f h).0,
                );
                ahead_Avoids = λ t h. (subst (Avoids t) f h).1;
                self = refl;
                generation = refl;
                default_block_size = refl;
              })
        | inr full' ↦ add_block-IsReady a size fresh a' v (ground (arith, e, full, f, full'))
      ]
    ]
  ]
]

-- A block is found where `malloc` returns memory and no size passes SIZE_MAX.
pub ready_succeeds :
    (a : Arena) (size : ℕ) (memory : Fresh)
    → size + 15 + header ≤ size_max
    → a.default_block_size + header ≤ size_max
    → a.capacity + a.default_block_size ≤ size_max
    → a.capacity + size + 15 ≤ size_max
    → a.block_count < size_max
    → ready a size (some memory) ≢ none
unfolding ready
ready_succeeds a size memory fits fits_default room_default room count =
    let adds = add_block_succeeds a size memory fits fits_default room_default room count in
    elim (List-cases a.upto) [
      | inl e ↦ ground (arith, e, adds)
      | inr (b, bs, e) ↦ elim (List-cases a.ahead) [
        | inl f ↦ ground (arith, e, f, adds)
        | inr (n, ns, f) ↦ ground (arith, e, f, adds)
      ]
    ]
