-- ===== src/StringMap/Placed.antt =====
-- src/collection/string_map.c: what a write to one slot does to a table.
use ceasy.Prelude.{
  ℕ, zero, suc, ◌+◌, ◌≤◌, ◌<◌, ◌≡◌, ◌≢◌, ◌↔◌, ◌⊎◌, inl, inr, refl, ap, sym, ◌∙◌, true, ◌==◌, ==_iff,
  Bool-cases, arith,
}
use ceasy.StringView.{StringView, hash, equal, valid}
use ceasy.StringMap.Types.{Slot, Slots, StringMapValue, slot_empty, write}
use ceasy.StringMap.Mask.{probe}
use ceasy.StringMap.Valid.{IsOccupied, IsTable, Passes, Reaches, HasEntry, count}
use ceasy.StringMap.Found.{equal_sym, equal_or_less}

-- The slot `slot` may stand at `i`.
pub record Fits (slots : Slots) (capacity i : ℕ) (slot : Slot) : Type 0 where
  pub inside : i < capacity
  pub full : slot.state ≢ slot_empty
  pub hashed : IsOccupied slot → slot.hash ≡ hash slot.key
  pub keyed : IsOccupied slot → valid slot.key ≡ true
  pub reached : IsOccupied slot → Reaches slots capacity slot.hash i
  pub fresh :
      (j : ℕ)
      → j < capacity
      → j ≢ i
      → IsOccupied (slots j)
      → IsOccupied slot
      → ¬ (equal (slots j).key slot.key ≡ true)

module _ (slots : Slots) (i : ℕ) (slot : Slot) where
  -- A property of the slot at `j` after the write.
  pub write-at {ℓ} :
      (P : Slot → Type ℓ) (j : ℕ)
      → (j ≡ i → P slot)
      → (j ≢ i → P (slots j))
      → P (write slots i slot j)
  write-at P j here there = elim (Bool-cases (j == i)) [
    | inl same ↦ rw (same) (here ((==_iff j i).0 same))
    | inr other ↦ rw (other) (there (λ same. ground (arith, ==_iff j i)))
  ]

  pub Passes-write :
      (capacity h d : ℕ)
      → slot.state ≢ slot_empty
      → Passes slots capacity h d
      → Passes (write slots i slot) capacity h d
  Passes-write capacity h d full passes e lt =
      write-at (λ s. s.state ≢ slot_empty) (probe capacity h e) (λ same. full)
        (λ other. passes e lt)

  Reaches-write :
      (capacity h j : ℕ)
      → slot.state ≢ slot_empty
      → Reaches slots capacity h j
      → Reaches (write slots i slot) capacity h j
  Reaches-write capacity h j full (d, lt, at, passes) =
      (d, lt, at, Passes-write capacity h d full passes)

  pub write-IsTable :
      (capacity : ℕ)
      → IsTable slots capacity
      → Fits slots capacity i slot
      → IsTable (write slots i slot) capacity
  write-IsTable capacity table fits = record {
    power = table.power;
    hashed = λ j lt.
        write-at (λ s. IsOccupied s → s.hash ≡ hash s.key) j (λ same. fits.hashed)
          (λ other. table.hashed j lt);
    keyed = λ j lt.
        write-at (λ s. IsOccupied s → valid s.key ≡ true) j (λ same. fits.keyed)
          (λ other. table.keyed j lt);
    reached = λ j lt.
        write-at (λ s. IsOccupied s → Reaches (write slots i slot) capacity s.hash j) j
          (λ same occ. Reaches-write capacity slot.hash j fits.full (rw (same) (fits.reached occ)))
          (λ other occ. Reaches-write capacity (slots j).hash j fits.full (table.reached j lt occ));
    unique = λ j k j_lt k_lt.
        write-at
          (λ s.
            IsOccupied s
            → IsOccupied (write slots i slot k)
            → equal s.key (write slots i slot k).key ≡ true
            → j ≡ k)
          j
          (λ j_i.
            write-at (λ s. IsOccupied slot → IsOccupied s → equal slot.key s.key ≡ true → j ≡ k) k
              (λ k_i occ occ' same. j_i ∙ sym k_i)
              (λ k_i occ occ' same.
                absurd (fits.fresh k k_lt k_i occ' occ (equal_sym slot.key (slots k).key same))))
          (λ j_i.
            write-at
              (λ s. IsOccupied (slots j) → IsOccupied s → equal (slots j).key s.key ≡ true → j ≡ k)
              k (λ k_i occ occ' same. absurd (fits.fresh j j_lt j_i occ occ' same))
              (λ k_i. table.unique j k j_lt k_lt));
  }

  -- The entries after the write: the new one, and those of the other slots.
  abbrev pub HasOther : ℕ → StringView → StringMapValue → Type 0
  HasOther capacity key value =
      (j : ℕ) × (j ≢ i)
      × (j < capacity)
      × IsOccupied (slots j)
      × (equal (slots j).key key ≡ true)
      × ((slots j).value ≡ value)

  pub HasEntry-write_iff :
      (capacity : ℕ) (key : StringView) (value : StringMapValue)
      → i < capacity
      → HasEntry (write slots i slot) capacity key value ↔ (
          (IsOccupied slot × (equal slot.key key ≡ true) × (slot.value ≡ value))
          ⊎ HasOther capacity key value)
  HasEntry-write_iff capacity key value inside = (
    λ (j, lt, occ, same, at).
        write-at
          (λ s.
            IsOccupied s
            → equal s.key key ≡ true
            → s.value ≡ value
            → (IsOccupied slot × (equal slot.key key ≡ true) × (slot.value ≡ value))
              ⊎ HasOther capacity key value)
          j (λ j_i occ same at. inl (occ, same, at))
          (λ j_i occ same at. inr (j, j_i, lt, occ, same, at)) occ same at,
    λ entry. elim entry [
      | inl (occ, same, at) ↦
          let (occ', same', at') =
            write-at (λ s. IsOccupied s × (equal s.key key ≡ true) × (s.value ≡ value)) i
              (λ e. (occ, same, at)) (λ e. absurd (e refl)) in
          (i, inside, occ', same', at')
      | inr (j, j_i, lt, occ, same, at) ↦
          let (occ', same', at') =
            write-at (λ s. IsOccupied s × (equal s.key key ≡ true) × (s.value ≡ value)) j
              (λ e. absurd (j_i e)) (λ e. (occ, same, at)) in
          (j, lt, occ', same', at')
    ],
  )

  pub count-beyond :
      (one : Slot → ℕ) (n : ℕ) → n ≤ i → count one (write slots i slot) n ≡ count one slots n
  count-beyond one zero h = refl
  count-beyond one (suc n) h =
      let here = write-at (λ s. one s ≡ one (slots n)) n (λ e. absurd (omega arith)) (λ e. refl) in
      omega (arith, here, count-beyond one n (omega arith))

  pub count-write :
      (one : Slot → ℕ) (n : ℕ)
      → i < n
      → count one (write slots i slot) n + one (slots i) ≡ count one slots n + one slot
  count-write one zero h = absurd (omega arith)
  count-write one (suc n) h = elim (equal_or_less i n (omega arith)) [
    | inl same ↦
        let here = write-at (λ s. one s ≡ one slot) n (λ e. refl) (λ e. absurd (e (sym same))) in
        let before = count-beyond one n (omega arith) in
        let old : one (slots i) ≡ one (slots n) = ap (λ j. one (slots j)) same in omega arith
    | inr less ↦
        let here =
          write-at (λ s. one s ≡ one (slots n)) n (λ e. absurd (omega arith)) (λ e. refl) in
        let before = count-write one n less in omega arith
  ]
