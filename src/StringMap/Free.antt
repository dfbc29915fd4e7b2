-- ===== src/StringMap/Free.antt =====
-- src/collection/string_map.c: the loops that look for a slot that is not occupied find one.
use ceasy.Prelude.{ℕ, zero, suc, ◌+◌, ◌≤◌, ◌<◌, ◌≡◌, ◌≢◌, inl, inr, refl, ap, sym, ◌∙◌, some, arith}
use native.Mathlib.Nat.{mod-lt}
use ceasy.StringMap.Types.{Slots, SlotState, slot_empty, slot_occupied}
use ceasy.StringMap.Probe.{free_index, next_index, first_index}
use ceasy.StringMap.Mask.{IsPower, probe, probe_reaches, next_index_lem, first_index_lem}
use ceasy.StringMap.Valid.{IsOccupied, Reaches, SlotState-cases, count, occupied_one}
use ceasy.StringMap.Found.{equal_or_less}

-- With fewer occupied slots than slots there is one that is not occupied.
vacancy :
    (slots : Slots) (n : ℕ)
    → count occupied_one slots n < n
    → (j : ℕ) × (j < n) × ((slots j).state ≢ slot_occupied)
vacancy slots zero h = absurd (omega arith)
vacancy slots (suc n) h = elim (SlotState-cases (slots n).state) [
  | inl empty ↦ (n, omega arith, λ occ. ground arith)
  | inr (inl tombstone) ↦ (n, omega arith, λ occ. ground arith)
  | inr (inr occupied) ↦
      let one : occupied_one (slots n) ≡ 1 = rw (occupied) refl in
      let (j, lt, free) = vacancy slots n (omega arith) in (j, omega arith, free)
]

occupied_not_empty : (state : SlotState) → state ≡ slot_occupied → state ≢ slot_empty
occupied_not_empty state occupied empty = ground arith

module _ (slots : Slots) (capacity : ℕ) (power : IsPower capacity) (h : ℕ) where
  -- The probe for the hash comes to `r`, which is not occupied, past occupied slots.
  abbrev pub Lands : ℕ → ℕ → Type 0
  Lands bound r =
      (e : ℕ) × (e < bound)
      × (probe capacity h e ≡ r)
      × ((slots r).state ≢ slot_occupied)
      × ((b : ℕ) → b < e → IsOccupied (slots (probe capacity h b)))

  free_index-Lands :
      (rounds i d e : ℕ)
      → i ≡ probe capacity h d
      → d ≤ e
      → e < d + rounds
      → (slots (probe capacity h e)).state ≢ slot_occupied
      → ((b : ℕ) → b < d → IsOccupied (slots (probe capacity h b)))
      → (r : ℕ) × (free_index slots capacity rounds i ≡ some r) × Lands (d + rounds) r
  unfolding free_index
  free_index-Lands zero i d e here le lt free before = absurd (omega arith)
  free_index-Lands (suc rounds) i d e here le lt free before =
      elim (SlotState-cases (slots i).state) [
        | inl empty ↦ (i, ground arith, (d, omega arith, sym here, (λ occ. ground arith), before))
        | inr (inl tomb) ↦
            (i, ground arith, (d, omega arith, sym here, (λ occ. ground arith), before))
        | inr (inr occupied) ↦
            let here' = ap (next_index capacity) here ∙ next_index_lem capacity h d power in
            let here_occupied : IsOccupied (slots (probe capacity h d)) = rw (← here) occupied in
            let further : d < e = elim (equal_or_less d e le) [
              | inl same ↦ absurd (free (rw (← same) here_occupied))
              | inr less ↦ less
            ] in
            let before_next : (b : ℕ) → b < d + 1 → IsOccupied (slots (probe capacity h b)) =
              (λ b lt. elim (equal_or_less b d (omega arith)) [
                | inl same ↦ rw (same) here_occupied
                | inr less ↦ before b less
              ]) in
            let (r, found, (e', lt', at, free', before')) =
              free_index-Lands rounds (next_index capacity i) (d + 1) e here' (omega arith)
                (omega arith) free before_next in
            (r, (ground arith), (e', omega arith, at, free', before'))
      ]

  -- With fewer occupied slots than slots the loop ends, at a slot that the probe for the hash comes to.
  pub free_index_lem :
      count occupied_one slots capacity < capacity
      → (r : ℕ) × (free_index slots capacity capacity (first_index capacity h) ≡ some r)
        × (r < capacity)
        × ((slots r).state ≢ slot_occupied)
        × Reaches slots capacity h r
  free_index_lem room =
      let (j, j_lt, free) = vacancy slots capacity room in
      let (e, e_lt, at) = probe_reaches capacity h j j_lt in
      let (r, found, (e', lt', at', free', before)) =
        free_index-Lands capacity (first_index capacity h) 0 e (first_index_lem capacity h power)
          (omega arith) (omega arith) (rw (at) free) (λ b lt. absurd (omega arith)) in
      (
        r,
        found,
        rw (← at') (mod-lt (h + e') {m = capacity} (omega arith)),
        free',
        (
          e',
          omega arith,
          at',
          λ b lt empty. occupied_not_empty (slots (probe capacity h b)).state (before b lt) empty,
        ),
      )
