-- ===== src/OwnedString/Reserved.antt =====
-- string_reserve of src/string/string.c: the capacity that it finds, and what it keeps.
use ceasy.Prelude.{
  ℕ, zero, suc, ◌+◌, ◌-◌, ◌*◌, ◌/◌, ◌^◌, ◌≤◌, ◌<◌, ◌≡◌, refl, sym, ap, ◌∙◌, Bool, true, false, ◌||◌,
  Option, none, some, arith, size_max, ltb, leb, ◌==◌, if◌then◌else◌, Bool-cases, inl, inr,
}
use mathlib.Core.Path.{subst}
use native.Mathlib.Nat.{pow-succ', mul_assoc}
use ceasy.OwnedString.Memory.{Bytes, write, read, read_congr, read-write}
use ceasy.OwnedString.Types.{OwnedString}
use ceasy.OwnedString.Reserve.{doubled, new_capacity, copied, obtain, terminated, reserve}
use ceasy.OwnedString.Contents.{text, Stored, IsValid}

pow_step : (new fuel : ℕ) → new * 2 ^ suc fuel ≡ new * 2 * 2 ^ fuel
pow_step new fuel = ap (λ x. new * x) (pow-succ' 2 fuel) ∙ sym (mul_assoc new 2 (2 ^ fuel))

-- The loop ends, at a capacity that is large enough.
doubled_lem :
    (fuel new capacity : ℕ)
    → 0 < new
    → new ≤ size_max
    → capacity < new * 2 ^ fuel
    → capacity ≤ size_max
    → (c : ℕ) × (doubled (suc fuel) new capacity ≡ some c) × (capacity ≤ c) × (c ≤ size_max)
unfolding doubled
doubled_lem zero new capacity pos fits h small =
    let n : ltb new capacity ≡ false = ground arith in (new, rw n refl, omega arith, fits)
doubled_lem (suc fuel) new capacity pos fits h small = elim (Bool-cases (ltb new capacity)) [
  | inl e ↦ elim (Bool-cases (ltb (size_max / 2) new)) [
    | inl f ↦ (capacity, rw (e, f) refl, omega arith, small)
    | inr f ↦
        let p = subst (λ x. capacity < x) (pow_step new fuel) h in
        let (c, g, l, m) =
          doubled_lem fuel (new * 2) capacity (omega arith) (ground (arith, f)) p small in
        (c, rw (e, f) g, l, m)
  ]
  | inr e ↦ (new, rw e refl, ground (arith, e), fits)
]

start_enough : (start capacity : ℕ) → 0 < start → capacity ≤ size_max → capacity < start * 2 ^ 64
start_enough start capacity h k = omega arith

-- The new capacity is large enough, and leaves room for the NUL where that is possible.
pub new_capacity_lem :
    (old capacity : ℕ)
    → old ≤ size_max
    → capacity ≤ size_max
    → (c : ℕ) × (new_capacity old capacity ≡ some c)
      × (capacity ≤ c)
      × (capacity < size_max → c < size_max)
unfolding new_capacity
new_capacity_lem old capacity fits small =
    let start : ℕ = (if old == 0 then 16 else old) in
    let pos : 0 < start = ground arith in
    let (c, e, l, m) =
      doubled_lem 64 start capacity pos (ground arith) (start_enough start capacity pos small)
        small in
    elim (Bool-cases (c == size_max)) [
      | inl f ↦ (capacity, ground (arith, e, f), omega arith, λ h. h)
      | inr f ↦ (c, ground (arith, e, f), l, λ h. ground (arith, f))
    ]

-- What a reservation makes of the storage: a well-formed one with the same text, and room.
pub record Grown (st : Option Bytes) (n capacity want : ℕ) (st' : Option Bytes) (capacity' : ℕ)
    : Type 0 where
  pub stored : Stored st' n capacity'
  pub same_text : text st' n ≡ text st n
  pub roomy : want ≤ capacity'
  pub grows : capacity ≤ capacity'
  pub stays : st' ≡ none → st ≡ none

abbrev terminated_storage : Option Bytes → ℕ → Option Bytes
terminated_storage st n = elim st [ none ↦ none | some bytes ↦ some (write bytes n 0) ]

terminated-Grown :
    (st : Option Bytes) (n capacity want : ℕ)
    → Stored st n capacity
    → want ≤ capacity
    → Grown st n capacity want (terminated_storage st n) capacity
terminated-Grown none n capacity want h w = record {
  stored = h;
  same_text = refl;
  roomy = w;
  grows = omega arith;
  stays = λ e. e;
}
terminated-Grown (some f) n capacity want h w = record {
  stored = (unfold write in ground arith, h.1, h.2);
  same_text = read-write f n 0 0 n (inr (omega arith));
  roomy = w;
  grows = omega arith;
  stays = λ e. cc;
}

copied-Grown :
    (st : Option Bytes) (n capacity want c : ℕ) (fresh : Bytes)
    → Stored st n capacity
    → want ≤ c
    → capacity ≤ c
    → c < size_max
    → Grown st n capacity want (some (write (copied st (n + 1) fresh) n 0)) c
unfolding read
copied-Grown none n capacity want c fresh h w l m = record {
  stored = (unfold write in ground arith, omega arith, m);
  same_text = ap (read (write (copied none (n + 1) fresh) n 0) 0) h.0;
  roomy = w;
  grows = l;
  stays = λ e. cc;
}
copied-Grown (some f) n capacity want c fresh h w l m = record {
  stored = (unfold write in ground arith, omega arith, m);
  same_text =
      read-write (copied (some f) (n + 1) fresh) n 0 0 n (inr (omega arith))
      ∙ read_congr (copied (some f) (n + 1) fresh) f 0 0 n (λ i lt. unfold copied in ground arith);
  roomy = w;
  grows = l;
  stays = λ e. cc;
}

-- string_reserve fails and leaves the string alone, or makes room and keeps the text.
pub data Reservation (s : OwnedString) (want : ℕ) (result : Bool × OwnedString) : Type 0 where
  refused : result ≡ (false, s) → Reservation s want result
  made :
      (st : Option Bytes) (c : ℕ)
      → Grown s.storage s.length s.capacity want st c
      → result ≡ (true, record s { storage = st; capacity = c })
      → Reservation s want result

pub Stored-le :
    (st : Option Bytes) (n capacity : ℕ)
    → Stored st n capacity
    → (n ≤ capacity) × (capacity < size_max)
Stored-le none n capacity h = omega arith
Stored-le (some f) n capacity h = (h.1, h.2)

beyond : (want capacity c : ℕ) → leb want capacity ≡ false → want ≤ c → capacity ≤ c
beyond want capacity c h l = ground arith

below_max : (c : ℕ) (b : Bool) → (ltb (size_max - 1) c || b) ≡ false → c < size_max
below_max c b h = ground arith

pub reserve-Reservation :
    (s : OwnedString) (want : ℕ) (fresh : Option Bytes)
    → IsValid s
    → want ≤ size_max
    → Reservation s want (reserve s want fresh)
unfolding reserve terminated obtain
reserve-Reservation s want fresh v small =
    let (inside, bounded) = Stored-le s.storage s.length s.capacity v.stored in
    let a : ltb s.capacity s.length ≡ false = ground arith in
    elim (Bool-cases (leb want s.capacity)) [
      | inl e ↦
          made (terminated_storage s.storage s.length) s.capacity
            (terminated-Grown s.storage s.length s.capacity want v.stored (ground (arith, e)))
            (rw (a, e) refl)
      | inr e ↦
          let (c, f, l, m) = new_capacity_lem s.capacity want (omega arith) small in
          elim (Bool-cases (ltb (size_max - 1) c || s.length == size_max)) [
            | inl g ↦ refused (rw (a, e, f, g) refl)
            | inr g ↦ elim (Bool-cases (s.allocator.realloc || s.allocator.alloc)) [
              | inr k ↦ refused (rw (a, e, f, g, k) refl)
              | inl k ↦ elim fresh as (λ x. Reservation s want (reserve s want x)) [
                | none ↦ refused (rw (a, e, f, g, k) refl)
                | some bytes ↦
                    made (some (write (copied s.storage (s.length + 1) bytes) s.length 0)) c
                      (copied-Grown s.storage s.length s.capacity want c bytes v.stored l
                        (beyond want s.capacity c e l) (below_max c (s.length == size_max) g))
                      (rw (a, e, f, g, k) refl)
              ]
            ]
          ]
    ]
