-- ===== src/StringMap/Stored.antt =====
-- src/collection/string_map.c: what a map has after a value has been put into a slot.
use ceasy.Prelude.{
  ℕ, ◌+◌, ◌<◌, ◌≡◌, ◌≢◌, ◌↔◌, ◌⊎◌, inl, inr, refl, sym, ◌∙◌, true, false, some, List, Bool-cases,
  arith,
}
use ceasy.StringView.{StringView, hash, equal}
use ceasy.StringView.Text.{equal_iff}
use ceasy.StringMap.Types.{Slot, Slots, StringMap, StringMapValue, Memory, write, slot_occupied}
use ceasy.StringMap.Edit.{occupy}
use ceasy.StringMap.Valid.{IsOccupied, IsValid, Maps, Reaches, occupied_one, tombstone_one}
use ceasy.StringMap.Found.{equal_sym, equal_trans, hash-equal}
use ceasy.StringMap.Got.{HasSlots-some, Maps-some, Maps-equal}
use ceasy.StringMap.Placed.{Fits, write-IsTable, HasEntry-write_iff, count-write}
use ceasy.StringMap.Rehashed.{HasOther-free, not_occupied_one}
use ceasy.StringMap.Removed.{HasOther-iff}

-- A map that has `value` for `key`, and for all other keys what `map` has.
pub record Stores (map : StringMap) (key : StringView) (value : StringMapValue) (result : StringMap)
    : Type 0 where
  pub valid : IsValid result
  pub entries :
      (key' : StringView) (value' : StringMapValue)
      → Maps result key' value' ↔ (
          ((equal key key' ≡ true) × (value ≡ value'))
          ⊎ ((equal key key' ≡ false) × Maps map key' value'))

-- Equal keys are equal to the same keys.
alike : (a b c : StringView) → equal a b ≡ true → equal a c ≡ true → equal b c ≡ true
alike a b c one two = equal_trans b a c (equal_sym a b one) two

-- A map with another value in the slot `i`.
abbrev pub overwritten : StringMap → Slots → ℕ → StringMapValue → List Memory → StringMap
overwritten map slots i value released = record map {
  slots = some (write slots i (record (slots i) { value = value }));
  released = released;
}

pub overwritten-Stores :
    (map : StringMap) (slots : Slots) (key : StringView) (value : StringMapValue) (i : ℕ)
    (released : List Memory)
    → map.slots ≡ some slots
    → IsValid map
    → i < map.capacity
    → IsOccupied (slots i)
    → equal (slots i).key key ≡ true
    → Stores map key value (overwritten map slots i value released)
overwritten-Stores map slots key value i released e v inside occupied same =
    let (table, counted) = HasSlots-some map slots e v.has_slots in
    let slot : Slot = record (slots i) { value = value } in
    let fits : Fits slots map.capacity i slot = record {
      inside = inside;
      full = λ empty. ground arith;
      hashed = table.hashed i inside;
      keyed = table.keyed i inside;
      reached = table.reached i inside;
      fresh = λ j lt other occ occ' same'. other (table.unique j i lt inside occ occupied same');
    } in
    let occupied_count = count-write slots i slot occupied_one map.capacity inside in
    let tombstone_count = count-write slots i slot tombstone_one map.capacity inside in
    record {
      valid = record {
        ready = v.ready;
        has_slots = (
          write-IsTable slots i slot map.capacity table fits,
          record {
            fits = counted.fits;
            occupied = omega (arith, counted.occupied);
            tombstones = omega (arith, counted.tombstones);
            room = counted.room;
          },
        );
      };
      entries = λ key' value'.
          let written = HasEntry-write_iff slots i slot map.capacity key' value' inside in
          let others =
            HasOther-iff slots i slot map.capacity key key' value' table inside occupied same in
          let kept = Maps-some map slots key' value' e in
          (
            λ entry. elim (written.0 entry) [
              | inl (occ, same', at) ↦ inl (alike (slots i).key key key' same same', at)
              | inr other ↦ let (differ, maps) = others.0 other in inr (differ, kept.1 maps)
            ],
            λ entry. elim entry [
              | inl (same', at) ↦
                  written.1 (inl (occupied, equal_trans (slots i).key key key' same same', at))
              | inr (differ, maps) ↦ written.1 (inr (others.1 (differ, kept.0 maps)))
            ],
          );
    }

pub added-Stores :
    (map : StringMap) (slots : Slots) (key : StringView) (slot : Slot) (r tombstones : ℕ)
    → map.slots ≡ some slots
    → IsValid map
    → map.length + map.tombstone_count + 1 < map.capacity
    → IsOccupied slot
    → slot.hash ≡ hash key
    → equal slot.key key ≡ true
    → ((value : StringMapValue) → ¬ Maps map key value)
    → r < map.capacity
    → (slots r).state ≢ slot_occupied
    → Reaches slots map.capacity (hash key) r
    → tombstones + tombstone_one (slots r) ≡ map.tombstone_count
    → Stores map key slot.value (occupy (record map { tombstone_count = tombstones }) slots r slot)
added-Stores map slots key slot r tombstones e v spare occupied hashed same missing inside free
      reaches tombs =
    let (table, counted) = HasSlots-some map slots e v.has_slots in
    let (left, right, bytes) = (equal_iff slot.key key).0 same in
    let fits : Fits slots map.capacity r slot = record {
      inside = inside;
      full = λ empty. ground arith;
      hashed = λ occ. hashed ∙ sym (hash-equal slot.key key same);
      keyed = λ occ. left;
      reached = λ occ. rw (hashed) reaches;
      fresh = λ j lt other occ occ' same'. missing (slots j).value (
          (Maps-some map slots key (slots j).value e).1
            (j, lt, occ, equal_trans (slots j).key slot.key key same' same, refl));
    } in
    let occupied_count = count-write slots r slot occupied_one map.capacity inside in
    let tombstone_count = count-write slots r slot tombstone_one map.capacity inside in
    let one : occupied_one slot ≡ 1 = rw (occupied) refl in
    let no_tombstone : tombstone_one slot ≡ 0 = rw (occupied) refl in
    let not_one = not_occupied_one (slots r) free in
    record {
      valid = record {
        ready = v.ready;
        has_slots = (
          write-IsTable slots r slot map.capacity table fits,
          record {
            fits = counted.fits;
            occupied = omega (arith, counted.occupied, counted.fits);
            tombstones = omega (arith, counted.tombstones);
            room = omega (arith, counted.fits);
          },
        );
      };
      entries = λ key' value'.
          let written = HasEntry-write_iff slots r slot map.capacity key' value' inside in
          let others = HasOther-free slots r slot map.capacity key' value' free in
          let kept = Maps-some map slots key' value' e in
          (
            λ entry. elim (written.0 entry) [
              | inl (occ, same', at) ↦ inl (alike slot.key key key' same same', at)
              | inr other ↦
                  let maps = kept.1 (others.0 other) in
                  elim (Bool-cases (equal key key')) [
                    | inl one_key ↦
                        absurd (missing value' (Maps-equal map key key' value' one_key maps))
                    | inr differ ↦ inr (differ, maps)
                  ]
            ],
            λ entry. elim entry [
              | inl (same', at) ↦
                  written.1 (inl (occupied, equal_trans slot.key key key' same same', at))
              | inr (differ, maps) ↦ written.1 (inr (others.1 (kept.0 maps)))
            ],
          );
    }
