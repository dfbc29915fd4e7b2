-- ===== src/StringMap/Iterated.antt =====
-- src/collection/string_map.c: an iterator visits the slots in their order.
use ceasy.Prelude.{
  ℕ, zero, suc, ◌+◌, ◌-◌, ◌≤◌, ◌<◌, ◌≡◌, ◌≢◌, ◌⊎◌, inl, inr, refl, Option, none, some, arith,
}
use ceasy.StringView.{StringView}
use ceasy.StringMap.Types.{Slots, StringMap, StringMapValue, slot_occupied}
use ceasy.StringMap.Lookup.{next, next_from}
use ceasy.StringMap.Found.{equal_or_less}
use ceasy.StringMap.Valid.{IsOccupied, SlotState-cases}

-- The slot at `r` is the first occupied one from `index` on, and the iterator goes on behind it; or
-- there is none, and the iterator is at the end.
abbrev pub IsNext : Slots → ℕ → ℕ → Option (StringView × StringMapValue) × ℕ → Type 0
IsNext slots capacity index result =
    ((r : ℕ) × (index ≤ r)
      × (r < capacity)
      × IsOccupied (slots r)
      × (result ≡ (some ((slots r).key, (slots r).value), r + 1))
      × ((j : ℕ) → index ≤ j → j < r → (slots j).state ≢ slot_occupied))
    ⊎ ((result.0 ≡ none) × ((j : ℕ) → index ≤ j → j < capacity → (slots j).state ≢ slot_occupied))

-- A slot that is not occupied is passed.
passed-IsNext :
    (slots : Slots) (capacity index : ℕ) (result : Option (StringView × StringMapValue) × ℕ)
    → (slots index).state ≢ slot_occupied
    → IsNext slots capacity (index + 1) result
    → IsNext slots capacity index result
passed-IsNext slots capacity index result free (inl (r, le, lt, occ, made, before)) = inl (
  r,
  omega arith,
  lt,
  occ,
  made,
  λ j j_le j_lt. elim (equal_or_less index j j_le) [
    | inl same ↦ rw (← same) free
    | inr less ↦ before j (omega arith) j_lt
  ],
)
passed-IsNext slots capacity index result free (inr (ended, before)) = inr (
  ended,
  λ j j_le j_lt. elim (equal_or_less index j j_le) [
    | inl same ↦ rw (← same) free
    | inr less ↦ before j (omega arith) j_lt
  ],
)

next_from-IsNext :
    (slots : Slots) (capacity rounds index : ℕ)
    → index + rounds ≡ capacity
    → IsNext slots capacity index (next_from slots rounds index)
unfolding next_from
next_from-IsNext slots capacity zero index e = inr (refl, λ j le lt. absurd (omega arith))
next_from-IsNext slots capacity (suc rounds) index e =
    let later = next_from-IsNext slots capacity rounds (index + 1) (omega arith) in
    let pass = passed-IsNext slots capacity index (next_from slots rounds (index + 1)) in
    elim (SlotState-cases (slots index).state) [
      | inl empty ↦
          let step : next_from slots rounds (index + 1) ≡ next_from slots (suc rounds) index =
            ground arith in
          coe 0 1 (i. IsNext slots capacity index (step i)) (pass (λ occ. ground arith) later)
      | inr (inl tombstone) ↦
          let step : next_from slots rounds (index + 1) ≡ next_from slots (suc rounds) index =
            ground arith in
          coe 0 1 (i. IsNext slots capacity index (step i)) (pass (λ occ. ground arith) later)
      | inr (inr occupied) ↦
          inl (
            index,
            omega arith,
            omega arith,
            occupied,
            ground arith,
            λ j le lt. absurd (omega arith),
          )
    ]

-- An iterator that is not behind the table goes to the first occupied slot from its index on, and then
-- stands behind it; it ends exactly where there is none.
pub next_lem :
    (map : StringMap) (slots : Slots) (index : ℕ)
    → map.slots ≡ some slots
    → index ≤ map.capacity
    → IsNext slots map.capacity index (next map index)
unfolding next
next_lem map slots index e le =
    rw (e) (next_from-IsNext slots map.capacity (map.capacity - index) index (omega arith))
