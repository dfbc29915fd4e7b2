-- ===== src/StringMap/Mask.antt =====
-- src/collection/string_map.c: with a capacity 2 ^ k, `& (capacity - 1)` is a remainder, and the steps
-- from slot to slot reach every slot.
use ceasy.Prelude.{ℕ, zero, suc, ◌+◌, ◌-◌, ◌*◌, ◌/◌, ◌%◌, ◌^◌, ◌≤◌, ◌<◌, ◌≡◌, ap, ◌∙◌, arith}
use Prim.Native.Nat.{bit_and, bit_and-bitwise, digits, min}
use native.Mathlib.Nat.{
  mod-add-mod, add-mod-mod, add-mul-mod_self_left, mul-add-mod_self_left, mod-lt, mod-eq_of_lt,
  div-add-mod, mul_assoc, mul_comm, mul-add,
}
use ceasy.StringMap.Probe.{next_index, first_index}

-- The slot that the probe reaches after `d` steps from `start`.
abbrev pub probe : ℕ → ℕ → ℕ → ℕ
probe capacity start d = (start + d) % capacity

-- A power of two, by its exponent.
abbrev pub IsPower : ℕ → Type 0
IsPower capacity = (k : ℕ) × (capacity ≡ 2 ^ k)

pub power_pos : (k : ℕ) → 0 < 2 ^ k
power_pos zero = omega arith
power_pos (suc k) = omega (arith, power_pos k)

power_suc : (k : ℕ) → 2 ^ suc k ≡ 2 * 2 ^ k
power_suc k = omega arith

half-mod : (k a : ℕ) → a % 2 ^ suc k ≡ a / 2 % 2 ^ k * 2 + a % 2
half-mod k a =
    let m = 2 ^ k in
    let cut : a ≡ m * 2 * (a / 2 / m) + (a / 2 % m * 2 + a % 2) = omega (
      arith,
      div-add-mod (a / 2) m,
      mul_assoc m 2 (a / 2 / m),
      mul_comm 2 (a / 2 / m),
      mul_assoc m (a / 2 / m) 2,
    ) in
    let small : a / 2 % m * 2 + a % 2 < 2 ^ suc k =
      omega (arith, mod-lt (a / 2) {m = m} (power_pos k), power_suc k) in
    ap (λ t. t % 2 ^ suc k) cut
    ∙ ap (λ w. (w * (a / 2 / m) + (a / 2 % m * 2 + a % 2)) % 2 ^ suc k) (omega (arith, power_suc k))
    ∙ mul-add-mod_self_left (2 ^ suc k) (a / 2 / m) (a / 2 % m * 2 + a % 2)
    ∙ mod-eq_of_lt small

-- `n` digits of a mask of ones keep the remainder.
masked : (n k a : ℕ) → a ≤ n → digits (λ b. zero) min n a (2 ^ k - 1) ≡ a % 2 ^ k
masked zero k a h = omega arith
masked (suc n) k zero h = omega arith
masked (suc n) zero (suc a) h = omega (arith, masked n zero (suc a / 2) (omega arith))
masked (suc n) (suc k) (suc a) h =
    let halved : (2 ^ suc k - 1) / 2 ≡ 2 ^ k - 1 = omega (arith, power_pos k, power_suc k) in
    let rest : digits (λ b. zero) min n (suc a / 2) ((2 ^ suc k - 1) / 2) ≡ suc a / 2 % 2 ^ k =
      ap (digits (λ b. zero) min n (suc a / 2)) halved ∙ masked n k (suc a / 2) (omega arith) in
    omega (arith, rest, half-mod k (suc a), power_pos k, power_suc k)

bit_and-mask : (k a : ℕ) → bit_and a (2 ^ k - 1) ≡ a % 2 ^ k
bit_and-mask k a = bit_and-bitwise a (2 ^ k - 1) ∙ masked a k a (omega arith)

pub next_index_lem :
    (capacity start d : ℕ)
    → IsPower capacity
    → next_index capacity (probe capacity start d) ≡ probe capacity start (d + 1)
next_index_lem capacity start d (k, e) =
    rw (e, bit_and-mask k) (mod-add-mod (start + d) (2 ^ k) 1 ∙ ap (λ t. t % 2 ^ k) (omega arith))

pub first_index_lem :
    (capacity hash : ℕ) → IsPower capacity → first_index capacity hash ≡ probe capacity hash 0
first_index_lem capacity hash (k, e) = rw (e, bit_and-mask k) (ap (λ t. t % 2 ^ k) (omega arith))

-- Every slot is reached within one round.
pub probe_reaches :
    (capacity start i : ℕ) → i < capacity → (d : ℕ) × (d < capacity) × (probe capacity start d ≡ i)
probe_reaches capacity start i h =
    let d = (i + (capacity - start % capacity)) % capacity in
    let whole : start + (i + (capacity - start % capacity))
        ≡ i + capacity * (start / capacity + 1) =
      omega (
        arith,
        div-add-mod start capacity,
        mod-lt start {m = capacity} (omega arith),
        mul-add capacity (start / capacity) 1,
      ) in
    (
      d,
      mod-lt (i + (capacity - start % capacity)) {m = capacity} (omega arith),
      add-mod-mod start (i + (capacity - start % capacity)) capacity
          ∙ ap (λ t. t % capacity) whole
          ∙ add-mul-mod_self_left i capacity (start / capacity + 1)
          ∙ mod-eq_of_lt h,
    )

pub next_index-lt : (capacity i : ℕ) → IsPower capacity → next_index capacity i < capacity
next_index-lt capacity i (k, e) = rw (e, bit_and-mask k) (mod-lt (i + 1) {m = 2 ^ k} (power_pos k))

pub first_index-lt : (capacity hash : ℕ) → IsPower capacity → first_index capacity hash < capacity
first_index-lt capacity hash (k, e) = rw (e, bit_and-mask k) (mod-lt hash {m = 2 ^ k} (power_pos k))
