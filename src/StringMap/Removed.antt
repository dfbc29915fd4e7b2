-- ===== src/StringMap/Removed.antt =====
-- src/collection/string_map.c: what sm_remove leaves.
use ceasy.Prelude.{
  ℕ, ◌+◌, ◌%◌, ◌^◌, ◌<◌, ◌≡◌, ◌≢◌, ◌↔◌, ◌⊎◌, inl, inr, refl, ap, ◌∙◌, Bool, true, false, none, some,
  Bool-cases, Option-cases, List, arith,
}
use ceasy.StringView.{StringView, hash, equal, valid}
use ceasy.Arena.Types.{sub64}
use ceasy.StringMap.Types.{
  Slot, Slots, StringMap, StringMapValue, Memory, slot_tombstone, write, zeroed_slot, initialized,
}
use ceasy.StringMap.Probe.{find_index}
use ceasy.StringMap.Edit.{remove, slot_release, release_value}
use ceasy.StringMap.Valid.{
  IsOccupied, IsTable, IsValid, HasEntry, Maps, occupied_one, tombstone_one,
}
use ceasy.StringMap.Found.{equal_sym, equal_trans}
use ceasy.StringMap.Got.{
  HasSlots-some, Maps-some, Maps-none, Maps-equal, Maps-valid, found-HasKey, missed-Maps,
}
use ceasy.StringMap.Placed.{Fits, HasOther, write-IsTable, HasEntry-write_iff, count-write}

-- Slots other than the one with a key are those with other keys.
pub HasOther-iff :
    (slots : Slots) (i : ℕ) (slot : Slot) (capacity : ℕ) (key key' : StringView)
    (value : StringMapValue)
    → IsTable slots capacity
    → i < capacity
    → IsOccupied (slots i)
    → equal (slots i).key key ≡ true
    → HasOther slots i slot capacity key' value
      ↔ ((equal key key' ≡ false) × HasEntry slots capacity key' value)
HasOther-iff slots i slot capacity key key' value table inside occupied same = (
  λ (j, j_i, lt, occ, same', at). elim (Bool-cases (equal key key')) [
    | inl one ↦ absurd (
        j_i (
          table.unique j i lt inside occ occupied (
            equal_trans (slots j).key key' (slots i).key same'
              (equal_sym (slots i).key key' (equal_trans (slots i).key key key' same one)))))
    | inr differ ↦ (differ, (j, lt, occ, same', at))
  ],
  λ (differ, entry).
      let (j, lt, occ, same', at) = entry in (j, apart j differ same', lt, occ, same', at),
)
  where
    apart : (j : ℕ) → equal key key' ≡ false → equal (slots j).key key' ≡ true → j ≢ i
    apart j differ same' j_i =
        let moved : equal (slots i).key key' ≡ true = rw (← j_i) same' in
        let alike = equal_trans key (slots i).key key' (equal_sym (slots i).key key same) moved in
        ground arith

pub slot_release-only :
    (map : StringMap) (slot : Slot)
    → initialized map ≡ true
    → slot_release map slot ≡ record map { released = (slot_release map slot).released }
unfolding slot_release release_value
slot_release-only map slot ready = elim (Bool-cases slot.owns_key) [
  | inl owns ↦ rw (owns, ready) refl
  | inr not_owned ↦ rw (not_owned, ready) refl
]

abbrev tombstone : Slot
tombstone = record zeroed_slot { state = slot_tombstone }

-- The map after the slot `i` has been made a tombstone.
abbrev buried : StringMap → Slots → ℕ → List Memory → StringMap
buried map slots i released = record map {
  slots = some (write slots i tombstone);
  length = sub64 map.length 1;
  tombstone_count = (map.tombstone_count + 1) % 2 ^ 64;
  released = released;
}

buried-IsValid :
    (map : StringMap) (slots : Slots) (i : ℕ) (released : List Memory)
    → map.slots ≡ some slots
    → IsValid map
    → i < map.capacity
    → IsOccupied (slots i)
    → IsValid (buried map slots i released)
buried-IsValid map slots i released e v inside occupied =
    let (table, counted) = HasSlots-some map slots e v.has_slots in
    let occupied_now : occupied_one (slots i) ≡ 1 = rw (occupied) refl in
    let no_tombstone : tombstone_one (slots i) ≡ 0 = rw (occupied) refl in
    let occupied_count = count-write slots i tombstone occupied_one map.capacity inside in
    let tombstone_count = count-write slots i tombstone tombstone_one map.capacity inside in
    let fits : Fits slots map.capacity i tombstone = record {
      inside = inside;
      full = λ empty. ground arith;
      hashed = λ occ. absurd (ground arith);
      keyed = λ occ. absurd (ground arith);
      reached = λ occ. absurd (ground arith);
      fresh = λ j lt other occ occ'. absurd (ground arith);
    } in
    record {
      ready = v.ready;
      has_slots = (
        write-IsTable slots i tombstone map.capacity table fits,
        record {
          fits = counted.fits;
          occupied = omega (arith, counted.fits, counted.occupied, counted.room);
          tombstones = omega (arith, counted.fits, counted.tombstones, counted.room);
          room = omega (arith, counted.fits, counted.room, counted.occupied);
        },
      );
    }

remove-found :
    (map : StringMap) (slots : Slots) (key : StringView) (i : ℕ) (released : List Memory)
    → map.slots ≡ some slots
    → initialized map ≡ true
    → valid key ≡ true
    → (find_index map key (hash key)).0 ≡ some i
    → (slot_release map (slots i)).released ≡ released
    → remove map key ≡ (true, buried map slots i released)
unfolding remove
remove-found map slots key i released e ready ok found freed =
    rw (ok, e, found)
      (ap
        (λ (m : StringMap). (
          true,
          record m {
            slots = some (write slots i tombstone);
            length = sub64 map.length 1;
            tombstone_count = (map.tombstone_count + 1) % 2 ^ 64;
          },
        ))
        (slot_release-only map (slots i) ready
          ∙ ap (λ (r : List Memory). record map { released = r }) freed))

remove-invalid :
    (map : StringMap) (key : StringView) → valid key ≡ false → remove map key ≡ (false, map)
unfolding remove
remove-invalid map key bad = rw (bad) refl

remove-missed :
    (map : StringMap) (key : StringView)
    → valid key ≡ true
    → (map.slots ≡ none) ⊎ ((find_index map key (hash key)).0 ≡ none)
    → remove map key ≡ (false, map)
unfolding remove
remove-missed map key ok (inl e) = simp (ok, e) refl
remove-missed map key ok (inr nothing) = elim (Option-cases map.slots) [
  | inl e ↦ simp (ok, e) refl
  | inr (slots, e) ↦ simp (ok, e, nothing) refl
]

-- What sm_remove may leave: a well-formed map that has what it had for the other keys, and nothing for
-- the removed one; it returns true exactly where there was something.
pub record Removal (map : StringMap) (key : StringView) (result : Bool × StringMap) : Type 0 where
  pub valid : IsValid result.1
  pub had : (result.0 ≡ true) ↔ ((value : StringMapValue) × Maps map key value)
  pub entries :
      (key' : StringView) (value : StringMapValue)
      → Maps result.1 key' value ↔ ((equal key key' ≡ false) × Maps map key' value)

missed-Removal :
    (map : StringMap) (key : StringView)
    → IsValid map
    → ((value : StringMapValue) → ¬ Maps map key value)
    → Removal map key (false, map)
missed-Removal map key v missing = record {
  valid = v;
  had = (λ held. absurd (ground arith), λ (value, maps). absurd (missing value maps));
  entries = λ key' value. (λ maps. (differs key' value maps, maps), λ (differ, maps). maps);
}
  where
    differs :
        (key' : StringView) (value : StringMapValue) → Maps map key' value → equal key key' ≡ false
    differs key' value maps = elim (Bool-cases (equal key key')) [
      | inl alike ↦ absurd (missing value (Maps-equal map key key' value alike maps))
      | inr differ ↦ differ
    ]

found-Removal :
    (map : StringMap) (slots : Slots) (key : StringView) (i : ℕ) (released : List Memory)
    → map.slots ≡ some slots
    → IsValid map
    → i < map.capacity
    → IsOccupied (slots i)
    → equal (slots i).key key ≡ true
    → Removal map key (true, buried map slots i released)
found-Removal map slots key i released e v inside occupied same =
    let (table, counted) = HasSlots-some map slots e v.has_slots in
    record {
      valid = buried-IsValid map slots i released e v inside occupied;
      had = (
        λ held. (
          (slots i).value,
          (Maps-some map slots key (slots i).value e).1 (i, inside, occupied, same, refl),
        ),
        λ had. refl,
      );
      entries = λ key' value.
          let written = HasEntry-write_iff slots i tombstone map.capacity key' value inside in
          let others =
            HasOther-iff slots i tombstone map.capacity key key' value table inside occupied same in
          let kept = Maps-some map slots key' value e in
          (
            λ maps. elim (written.0 maps) [
              | inl (occ, same', at) ↦ absurd (ground arith)
              | inr other ↦ let (differ, entry) = others.0 other in (differ, kept.1 entry)
            ],
            λ (differ, maps). written.1 (inr (others.1 (differ, kept.0 maps))),
          );
    }

-- On a well-formed map sm_remove takes away what the map has for the key and nothing else, tells
-- whether it had something, and leaves the map well formed.
pub remove-Removal :
    (map : StringMap) (key : StringView) → IsValid map → Removal map key (remove map key)
remove-Removal map key v = elim (Bool-cases (valid key)) [
  | inr bad ↦
      rw (remove-invalid map key bad)
        (missed-Removal map key v (λ value maps. ground (arith, Maps-valid map key value maps)))
  | inl ok ↦ elim (Option-cases map.slots) [
    | inl e ↦
        rw (remove-missed map key ok (inl e))
          (missed-Removal map key v (λ value. Maps-none map key value e))
    | inr (slots, e) ↦ elim (Option-cases (find_index map key (hash key)).0) [
      | inl missed ↦
          rw (remove-missed map key ok (inr missed))
            (missed-Removal map key v (λ value. missed-Maps map key value v ok missed))
      | inr (i, found) ↦
          let (inside, occupied, same) = found-HasKey map slots key i e v ok found in
          rw
            (remove-found map slots key i (slot_release map (slots i)).released e v.ready ok found
              refl)
            (found-Removal map slots key i (slot_release map (slots i)).released e v inside occupied
              same)
    ]
  ]
]
