-- ===== src/StringMap/Rehashed.antt =====
-- src/collection/string_map.c: string_map_rehash moves every entry of a table into a new one.
use ceasy.Prelude.{
  ℕ, zero, suc, ◌≤◌, ◌<◌, ◌≡◌, ◌≢◌, ◌↔◌, ◌⊎◌, inl, inr, refl, ap, true, some, arith,
}
use ceasy.StringView.{StringView, equal}
use ceasy.StringMap.Types.{
  Slot, Slots, StringMapValue, slot_occupied, slot_tombstone, write, zeroed_slot,
}
use ceasy.StringMap.Probe.{free_index, first_index}
use ceasy.StringMap.Rehash.{move_slot, moved}
use ceasy.StringMap.Mask.{IsPower}
use ceasy.StringMap.Valid.{
  IsOccupied, IsTable, HasEntry, Reaches, SlotState-cases, count, occupied_one,
}
use ceasy.StringMap.Placed.{HasOther, write-at, write-IsTable, HasEntry-write_iff, count-write}
use ceasy.StringMap.Free.{free_index_lem}
use ceasy.StringMap.Found.{equal_or_less}

-- A table that has the entries of the first `n` slots of another, and no tombstone.
pub record Copies (slots : Slots) (n capacity : ℕ) (copy : Slots) : Type 0 where
  pub table : IsTable copy capacity
  pub untombed : (j : ℕ) → (copy j).state ≢ slot_tombstone
  pub entries :
      (key : StringView) (value : StringMapValue)
      → HasEntry copy capacity key value ↔ HasEntry slots n key value
  pub counted : count occupied_one copy capacity ≡ count occupied_one slots n

-- The entries of one slot more.
HasEntry-suc :
    (slots : Slots) (n : ℕ) (key : StringView) (value : StringMapValue)
    → HasEntry slots (suc n) key value ↔ (
        (IsOccupied (slots n) × (equal (slots n).key key ≡ true) × ((slots n).value ≡ value))
        ⊎ HasEntry slots n key value)
HasEntry-suc slots n key value = (
  λ (i, lt, occ, same, at). elim (equal_or_less i n (omega arith)) [
    | inl e ↦ inl (rw (← e) occ, rw (← e) same, rw (← e) at)
    | inr less ↦ inr (i, less, occ, same, at)
  ],
  λ entry. elim entry [
    | inl (occ, same, at) ↦ (n, omega arith, occ, same, at)
    | inr (i, lt, occ, same, at) ↦ (i, omega arith, occ, same, at)
  ],
)

-- Where the slot was not occupied, the others are all entries.
pub HasOther-free :
    (slots : Slots) (i : ℕ) (slot : Slot) (capacity : ℕ) (key : StringView) (value : StringMapValue)
    → (slots i).state ≢ slot_occupied
    → HasOther slots i slot capacity key value ↔ HasEntry slots capacity key value
HasOther-free slots i slot capacity key value free = (
  λ (j, j_i, lt, occ, same, at). (j, lt, occ, same, at),
  λ (j, lt, occ, same, at). (j, (λ j_i. free (rw (← j_i) occ)), lt, occ, same, at),
)

pub not_occupied_one : (slot : Slot) → slot.state ≢ slot_occupied → occupied_one slot ≡ 0
not_occupied_one slot free = elim (SlotState-cases slot.state) [
  | inl empty ↦ rw (empty) refl
  | inr (inl tombstone) ↦ rw (tombstone) refl
  | inr (inr occupied) ↦ absurd (free occupied)
]

pub count_le :
    (one : Slot → ℕ) (slots : Slots) (n m : ℕ) → n ≤ m → count one slots n ≤ count one slots m
count_le one slots zero m le = omega arith
count_le one slots (suc n) zero le = absurd (omega arith)
count_le one slots (suc n) (suc m) le = elim (equal_or_less (suc n) (suc m) le) [
  | inl same ↦
      let equal_counts : count one slots (suc n) ≡ count one slots (suc m) =
        ap (count one slots) same in
      omega arith
  | inr less ↦ omega (arith, count_le one slots (suc n) m (omega arith))
]

move_slot-occupied :
    (capacity : ℕ) (slot : Slot) (copy : Slots) (r : ℕ)
    → IsOccupied slot
    → free_index copy capacity capacity (first_index capacity slot.hash) ≡ some r
    → move_slot capacity slot copy ≡ some (write copy r slot)
unfolding move_slot
move_slot-occupied capacity slot copy r occupied found = ground arith

-- A new table of zero bytes.
pub zeroed-Copies :
    (slots : Slots) (capacity : ℕ) → IsPower capacity → Copies slots 0 capacity (λ i. zeroed_slot)
zeroed-Copies slots capacity power = record {
  table = record {
    power = power;
    hashed = λ i lt occ. absurd (ground arith);
    keyed = λ i lt occ. absurd (ground arith);
    reached = λ i lt occ. absurd (ground arith);
    unique = λ i j lt lt' occ occ' same. absurd (ground arith);
  };
  untombed = λ j tombstone. ground arith;
  entries = λ key value. (
    λ (i, lt, occ, same, at). absurd (ground arith),
    λ (i, lt, occ, same, at). absurd (omega arith),
  );
  counted = none_counted capacity;
}
  where
    none_counted : (n : ℕ) → count occupied_one (λ i. zeroed_slot) n ≡ 0
    none_counted zero = refl
    none_counted (suc n) = omega (arith, none_counted n)

module _ (slots : Slots) (old capacity : ℕ) (table : IsTable slots old) where
  -- A slot that is not occupied is left behind.
  skipped :
      (n : ℕ) (copy : Slots)
      → (slots n).state ≢ slot_occupied
      → Copies slots n capacity copy
      → Copies slots (suc n) capacity copy
  skipped n copy free copies = record {
    table = copies.table;
    untombed = copies.untombed;
    entries = λ key value.
        let step = HasEntry-suc slots n key value in
        let before = copies.entries key value in
        (
          λ entry. step.1 (inr (before.0 entry)),
          λ entry. elim (step.0 entry) [
            | inl (occ, same, at) ↦ absurd (free occ)
            | inr earlier ↦ before.1 earlier
          ],
        );
    counted = omega (arith, copies.counted, not_occupied_one (slots n) free);
  }

  -- An occupied slot is put where the probe for its hash comes first to a free slot.
  placed :
      (n : ℕ) (copy : Slots) (r : ℕ)
      → n < old
      → IsOccupied (slots n)
      → r < capacity
      → (copy r).state ≢ slot_occupied
      → Reaches copy capacity (slots n).hash r
      → Copies slots n capacity copy
      → Copies slots (suc n) capacity (write copy r (slots n))
  placed n copy r lt occupied inside free reaches copies = record {
    table = write-IsTable copy r (slots n) capacity copies.table (record {
      inside = inside;
      full = λ empty. ground arith;
      hashed = table.hashed n lt;
      keyed = table.keyed n lt;
      reached = λ occ. reaches;
      fresh = λ j j_lt other occ occ' same.
          let (i, i_lt, i_occ, i_same, at) =
            (copies.entries (slots n).key (copy j).value).0 (j, j_lt, occ, same, refl) in
          let one = table.unique i n (omega arith) lt i_occ occupied i_same in omega arith;
    });
    untombed = λ j.
        write-at copy r (slots n) (λ s. s.state ≢ slot_tombstone) j (λ e tombstone. ground arith)
          (λ e. copies.untombed j);
    entries = λ key value.
        let step = HasEntry-suc slots n key value in
        let before = copies.entries key value in
        let written = HasEntry-write_iff copy r (slots n) capacity key value inside in
        let others = HasOther-free copy r (slots n) capacity key value free in
        (
          λ entry. step.1 (elim (written.0 entry) [
            | inl new ↦ inl new
            | inr other ↦ inr (before.0 (others.0 other))
          ]),
          λ entry. written.1 (elim (step.0 entry) [
            | inl new ↦ inl new
            | inr earlier ↦ inr (others.1 (before.1 earlier))
          ]),
        );
    counted =
        let counts = count-write copy r (slots n) occupied_one capacity inside in
        let one : occupied_one (slots n) ≡ 1 = rw (occupied) refl in
        omega (arith, copies.counted, not_occupied_one (copy r) free);
  }

  move-Copies :
      (n : ℕ) (copy : Slots)
      → n < old
      → count occupied_one slots n < capacity
      → Copies slots n capacity copy
      → (copy' : Slots) × (move_slot capacity (slots n) copy ≡ some copy')
        × Copies slots (suc n) capacity copy'
  unfolding move_slot
  move-Copies n copy lt room copies = elim (SlotState-cases (slots n).state) [
    | inl empty ↦ (copy, ground arith, skipped n copy (λ occ. ground arith) copies)
    | inr (inl tombstone) ↦ (copy, ground arith, skipped n copy (λ occ. ground arith) copies)
    | inr (inr occupied) ↦
        let (r, found, inside, free, reaches) =
          free_index_lem copy capacity copies.table.power (slots n).hash
            (omega (arith, copies.counted)) in
        (
          write copy r (slots n),
          move_slot-occupied capacity (slots n) copy r occupied found,
          placed n copy r lt occupied inside free reaches copies,
        )
  ]

  pub moved-Copies :
      (n : ℕ)
      → n ≤ old
      → count occupied_one slots old < capacity
      → IsPower capacity
      → (copy : Slots) × (moved slots capacity n ≡ some copy) × Copies slots n capacity copy
  unfolding moved
  moved-Copies zero le room power = ((λ i. zeroed_slot), refl, zeroed-Copies slots capacity power)
  moved-Copies (suc n) le room power =
      let (copy, made, copies) = moved-Copies n (omega arith) room power in
      let fewer = count_le occupied_one slots n old (omega arith) in
      let (copy', step, copies') = move-Copies n copy (omega arith) (omega arith) copies in
      (copy', rw (made) step, copies')
