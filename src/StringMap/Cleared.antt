-- ===== src/StringMap/Cleared.antt =====
-- src/collection/string_map.c: what sm_clear leaves.
use ceasy.Prelude.{
  ℕ, zero, suc, ◌≡◌, ◌≢◌, inl, inr, refl, ap, sym, ◌∙◌, true, none, some, List, Option-cases,
  Bool-cases, arith,
}
use ceasy.StringView.{StringView}
use ceasy.StringMap.Types.{
  Slots, StringMap, StringMapValue, Memory, zeroed_slot, initialized, slot_occupied,
}
use ceasy.StringMap.Edit.{clear, release_slots, slot_release}
use ceasy.StringMap.Valid.{IsValid, Maps, SlotState-cases}
use ceasy.StringMap.Got.{HasSlots-none, HasSlots-some, Maps-none}
use ceasy.StringMap.Grown.{no_tombstones}
use ceasy.StringMap.Rehashed.{zeroed-Copies}
use ceasy.StringMap.Removed.{slot_release-only}

abbrev with_released : StringMap → List Memory → StringMap
with_released map released = record map { released = released }

release_slots-only :
    (map : StringMap) (slots : Slots) (n : ℕ)
    → initialized map ≡ true
    → release_slots map slots n ≡ with_released map (release_slots map slots n).released
unfolding release_slots
release_slots-only map slots zero ready = refl
release_slots-only map slots (suc n) ready =
    let earlier = release_slots-only map slots n ready in
    let before = release_slots map slots n in
    let skip : (slots n).state ≢ slot_occupied → release_slots map slots (suc n) ≡ before =
      (λ free. ground arith) in
    elim (SlotState-cases (slots n).state) [
      | inl empty ↦ skipped (skip (λ occ. ground arith)) earlier
      | inr (inl tombstone) ↦ skipped (skip (λ occ. ground arith)) earlier
      | inr (inr occupied) ↦
          let step : release_slots map slots (suc n) ≡ slot_release before (slots n) =
            ground arith in
          let moved = step ∙ ap (λ (m : StringMap). slot_release m (slots n)) earlier in
          moved
          ∙ slot_release-only (with_released map before.released) (slots n) ready
          ∙ ap (λ (m : StringMap). with_released map m.released) (sym moved)
    ]
  where
    skipped :
        {a b : StringMap}
        → a ≡ b
        → b ≡ with_released map b.released
        → a ≡ with_released map a.released
    skipped step e = step ∙ e ∙ ap (λ (m : StringMap). with_released map m.released) (sym step)

-- A map with a table of zero bytes.
abbrev emptied : StringMap → List Memory → StringMap
emptied map released = record map {
  slots = some (λ i. zeroed_slot);
  length = 0;
  tombstone_count = 0;
  released = released;
}

clear-some :
    (map : StringMap) (slots : Slots) (released : List Memory)
    → map.slots ≡ some slots
    → initialized map ≡ true
    → release_slots map slots map.capacity ≡ with_released map released
    → clear map ≡ emptied map released
unfolding clear
clear-some map slots released e ready freed =
    rw (ready, e)
      (ap
        (λ (m : StringMap). record m {
          slots = some (λ i. zeroed_slot);
          length = 0;
          tombstone_count = 0;
        })
        freed)

clear-none : (map : StringMap) → map.slots ≡ none → clear map ≡ map
unfolding clear
clear-none map e = elim (Bool-cases (initialized map)) [
  | inl ready ↦ simp (clear, ready, e) refl
  | inr raw ↦ simp (clear, raw) refl
]

-- What sm_clear leaves: a well-formed map of the same capacity, with no entry, tombstone or key.
pub record IsEmptied (map result : StringMap) : Type 0 where
  pub valid : IsValid result
  pub length : result.length ≡ 0
  pub tombstones : result.tombstone_count ≡ 0
  pub capacity : result.capacity ≡ map.capacity
  pub entries : (key : StringView) (value : StringMapValue) → ¬ Maps result key value

emptied-IsEmptied :
    (map : StringMap) (slots : Slots) (released : List Memory)
    → map.slots ≡ some slots
    → IsValid map
    → IsEmptied map (emptied map released)
emptied-IsEmptied map slots released e v =
    let (table, counted) = HasSlots-some map slots e v.has_slots in
    let copies = zeroed-Copies slots map.capacity table.power in
    record {
      valid = record {
        ready = v.ready;
        has_slots = (
          copies.table,
          record {
            fits = counted.fits;
            occupied = sym copies.counted;
            tombstones = sym (no_tombstones (λ i. zeroed_slot) map.capacity copies.untombed);
            room = omega (arith, counted.room);
          },
        );
      };
      length = refl;
      tombstones = refl;
      capacity = refl;
      entries = λ key value (i, lt, occ, same, at). ground arith;
    }

-- On a well-formed map sm_clear leaves a well-formed map of the same capacity, with no entry, no
-- tombstone and the length 0.
pub clear-IsEmptied : (map : StringMap) → IsValid map → IsEmptied map (clear map)
clear-IsEmptied map v = elim (Option-cases map.slots) [
  | inl e ↦
      let cleared = HasSlots-none map e v.has_slots in
      rw (clear-none map e) record {
        valid = v;
        length = cleared.length;
        tombstones = cleared.tombstones;
        capacity = refl;
        entries = λ key value. Maps-none map key value e;
      }
  | inr (slots, e) ↦
      let released = (release_slots map slots map.capacity).released in
      let freed = release_slots-only map slots map.capacity v.ready in
      rw (clear-some map slots released e v.ready freed) (emptied-IsEmptied map slots released e v)
]
