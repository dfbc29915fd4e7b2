-- ===== src/StringMap/Setting.antt =====
-- src/collection/string_map.c: what string_map_set_internal leaves.
use ceasy.Prelude.{
  ℕ, suc, ◌+◌, ◌≤◌, ◌<◌, ◌≡◌, ◌≢◌, inl, inr, refl, ap, sym, ◌∙◌, Bool, true, false, none, some,
  Option-cases, arith,
}
use ceasy.StringView.{StringView, hash, equal, valid}
use ceasy.Arena.Types.{sub64}
use native.Mathlib.Nat.{mod-lt}
use ceasy.StringMap.Types.{
  Slot, Slots, StringMap, StringMapValue, initialized, slot_tombstone, slot_occupied,
}
use ceasy.StringMap.Probe.{find_index, free_index, first_index}
use ceasy.StringMap.Edit.{
  occupy, release_key, release_value, replace_value, set_slots, set_prepared,
}
use ceasy.StringMap.Valid.{IsValid, SlotState-cases, tombstone_one}
use ceasy.StringMap.Mask.{first_index_lem, first_index-lt}
use ceasy.StringMap.Found.{find_loop-tombed, find_loop-untombed}
use ceasy.StringMap.Got.{HasSlots-some, found-HasKey, missed-Maps, find_index_lem}
use ceasy.StringMap.Free.{free_index_lem}
use ceasy.StringMap.Rehashed.{count_le}
use ceasy.StringMap.Stored.{Stores, overwritten, overwritten-Stores, added-Stores}

-- Releasing a key and a value changes only what has been freed.
pub replace_value-only :
    (map : StringMap) (slots : Slots) (owns : Bool) (key : StringView) (i : ℕ)
    (value : StringMapValue)
    → initialized map ≡ true
    → replace_value (release_key map owns key) slots i value
      ≡ overwritten map slots i value
          (release_value (release_key map owns key) (slots i).value).released
unfolding replace_value release_value
replace_value-only map slots true key i value ready = rw (ready) refl
replace_value-only map slots false key i value ready = rw (ready) refl

abbrev new_slot : StringView → StringView → Bool → StringMapValue → Slot
new_slot key stored_key owns value = record {
  hash = hash key;
  key = stored_key;
  value = value;
  state = slot_occupied;
  owns_key = owns;
}

set_slots-found :
    (map : StringMap) (slots : Slots) (key stored_key : StringView) (owns : Bool)
    (value : StringMapValue) (i : ℕ)
    → (find_index map key (hash key)).0 ≡ some i
    → set_slots map slots key stored_key owns value
      ≡ some (true, replace_value (release_key map owns stored_key) slots i value)
unfolding set_slots
set_slots-found map slots key stored_key owns value i found = simp (set_slots, found) refl

set_slots-tombstone :
    (map : StringMap) (slots : Slots) (key stored_key : StringView) (owns : Bool)
    (value : StringMapValue) (t : ℕ)
    → (find_index map key (hash key)).0 ≡ none
    → (find_index map key (hash key)).1 ≡ some t
    → set_slots map slots key stored_key owns value
      ≡ some (
        true,
        occupy
            (record map { tombstone_count = sub64 map.tombstone_count 1 })
            slots
            t
            (new_slot key stored_key owns value),
      )
unfolding set_slots
set_slots-tombstone map slots key stored_key owns value t missed marked =
    simp (set_slots, missed, marked) refl

set_slots-free :
    (map : StringMap) (slots : Slots) (key stored_key : StringView) (owns : Bool)
    (value : StringMapValue) (r : ℕ)
    → (find_index map key (hash key)).0 ≡ none
    → (find_index map key (hash key)).1 ≡ none
    → free_index slots map.capacity map.capacity (first_index map.capacity (hash key)) ≡ some r
    → set_slots map slots key stored_key owns value
      ≡ some (true, occupy map slots r (new_slot key stored_key owns value))
unfolding set_slots
set_slots-free map slots key stored_key owns value r missed unmarked found =
    simp (set_slots, missed, unmarked, found) refl

pub set_prepared-slots :
    (map : StringMap) (slots : Slots) (key stored_key : StringView) (owns : Bool)
    (value : StringMapValue)
    → map.slots ≡ some slots
    → set_prepared map key stored_key owns value ≡ set_slots map slots key stored_key owns value
unfolding set_prepared
set_prepared-slots map slots key stored_key owns value e = simp (set_prepared, e) refl

no_tombstone_one :
    (slot : Slot)
    → slot.state ≢ slot_occupied
    → slot.state ≢ slot_tombstone
    → tombstone_one slot ≡ 0
no_tombstone_one slot free untombed = elim (SlotState-cases slot.state) [
  | inl empty ↦ rw (empty) refl
  | inr (inl tombstone) ↦ absurd (untombed tombstone)
  | inr (inr occupied) ↦ absurd (free occupied)
]

-- With room for one more key the value is stored.
pub set_slots-Stores :
    (map : StringMap) (slots : Slots) (key stored_key : StringView) (owns : Bool)
    (value : StringMapValue)
    → map.slots ≡ some slots
    → IsValid map
    → map.length + map.tombstone_count + 1 < map.capacity
    → equal stored_key key ≡ true
    → valid key ≡ true
    → (m : StringMap) × (set_slots map slots key stored_key owns value ≡ some (true, m))
      × Stores map key value m
set_slots-Stores map slots key stored_key owns value e v spare same ok =
    let slot = new_slot key stored_key owns value in
    let (table, counted) = HasSlots-some map slots e v.has_slots in
    let loop = find_index_lem map slots key e v ok in
    let start = first_index_lem map.capacity (hash key) table.power in
    elim (Option-cases (find_index map key (hash key)).0) [
      | inr (i, found) ↦
          let (inside, occupied, has_key) = found-HasKey map slots key i e v ok found in
          (
            overwritten map slots i value
                (release_value (release_key map owns stored_key) (slots i).value).released,
            set_slots-found map slots key stored_key owns value i found
                ∙ ap (λ (x : StringMap). some (true, x))
                    (replace_value-only map slots owns stored_key i value v.ready),
            overwritten-Stores map slots key value i
                (release_value (release_key map owns stored_key) (slots i).value).released e v
                inside occupied has_key,
          )
      | inl missed ↦
          let missing = (λ (other : StringMapValue). missed-Maps map key other v ok missed) in
          elim (Option-cases (find_index map key (hash key)).1) [
            | inr (t, marked) ↦
                let (d, d_lt, at, passes, tombstone) =
                  find_loop-tombed slots map.capacity table.power key (hash key) map.capacity
                    (first_index map.capacity (hash key)) 0 t start
                    (first_index-lt map.capacity (hash key) table.power)
                    (sym (ap (λ p. p.1) loop) ∙ marked) (λ b lt. absurd (omega arith)) in
                let inside : t < map.capacity =
                  rw (← at) (mod-lt (hash key + d) {m = map.capacity} (omega arith)) in
                let one : tombstone_one (slots t) ≡ 1 = rw (tombstone) refl in
                let positive : 1 ≤ map.tombstone_count = omega (
                  arith,
                  counted.tombstones,
                  count_le tombstone_one slots (suc t) map.capacity (omega arith),
                ) in
                (
                  occupy (record map { tombstone_count = sub64 map.tombstone_count 1 }) slots t
                      slot,
                  set_slots-tombstone map slots key stored_key owns value t missed marked,
                  added-Stores map slots key slot t (sub64 map.tombstone_count 1) e v spare refl
                      refl same missing inside (λ occ. ground arith) (d, omega arith, at, passes)
                      (omega (arith, counted.fits)),
                )
            | inl unmarked ↦
                let (r, found, inside, free, (d, d_lt, at, passes)) =
                  free_index_lem slots map.capacity table.power (hash key)
                    (omega (arith, counted.occupied)) in
                let untombed =
                  find_loop-untombed slots map.capacity table.power key (hash key) map.capacity
                    (first_index map.capacity (hash key)) 0 d start
                    (sym (ap (λ p. p.0) loop) ∙ missed) (sym (ap (λ p. p.1) loop) ∙ unmarked)
                    (omega arith) (omega arith) passes in
                (
                  occupy map slots r slot,
                  set_slots-free map slots key stored_key owns value r missed unmarked found,
                  added-Stores map slots key slot r map.tombstone_count e v spare refl refl same
                      missing inside free (d, d_lt, at, passes)
                      (omega (arith, no_tombstone_one (slots r) free (rw (← at) untombed))),
                )
          ]
    ]
