-- ===== src/StringMap/Grown.antt =====
-- src/collection/string_map.c: string_map_rehash keeps what a map has.
use ceasy.Prelude.{
  ℕ, zero, suc, ◌+◌, ◌*◌, ◌/◌, ◌≤◌, ◌<◌, ◌≡◌, ◌≢◌, ◌↔◌, ◌⊎◌, inl, inr, refl, ap, sym, ◌∙◌, Bool,
  true, false, none, some, List, ◌∷◌, ◌==◌, Bool-cases, Option-cases, size_max, arith,
}
use ceasy.StringView.{StringView}
use ceasy.StringMap.Types.{
  Slots, StringMap, StringMapValue, Memory, table_of, initialized, slot_bytes, slot_size,
  slot_tombstone, zeroed_slot,
}
use ceasy.StringMap.Rehash.{rehash, moved}
use ceasy.StringMap.Mask.{IsPower}
use ceasy.StringMap.Valid.{
  IsCleared, IsValid, HasEntry, Maps, SlotState-cases, count, occupied_one, tombstone_one,
}
use ceasy.StringMap.Got.{HasSlots-none, HasSlots-some, Maps-some, Maps-none}
use ceasy.StringMap.Rehashed.{Copies, zeroed-Copies, moved-Copies}

-- Twice the slots are no more bytes than a size_t counts.
abbrev pub CanDouble : StringMap → Type 0
CanDouble map = map.capacity * 2 ≤ size_max / slot_size

-- What may become of a map whose table is made ready for one more key.
pub record Grown (map : StringMap) (given : Bool) (result : Bool × StringMap) : Type 0 where
  pub valid : IsValid result.1
  pub entries :
      (key : StringView) (value : StringMapValue) → Maps result.1 key value ↔ Maps map key value
  pub granted : given ≡ true → CanDouble map → result.0 ≡ true
  pub spare : result.0 ≡ true → result.1.length + result.1.tombstone_count + 1 < result.1.capacity

pub unchanged :
    (map : StringMap) (given : Bool)
    → (given ≡ true → CanDouble map → false ≡ true)
    → IsValid map
    → Grown map given (false, map)
unchanged map given never v = record {
  granted = never;
  valid = v;
  entries = λ key value. (λ m. m, λ m. m);
  spare = λ held. absurd (ground arith);
}

pub no_tombstones :
    (slots : Slots) (n : ℕ)
    → ((j : ℕ) → (slots j).state ≢ slot_tombstone)
    → count tombstone_one slots n ≡ 0
no_tombstones slots zero none_there = refl
no_tombstones slots (suc n) none_there = elim (SlotState-cases (slots n).state) [
  | inl empty ↦
      let here : tombstone_one (slots n) ≡ 0 = rw (empty) refl in
      omega (arith, no_tombstones slots n none_there)
  | inr (inl tombstone) ↦ absurd (none_there n tombstone)
  | inr (inr occupied) ↦
      let here : tombstone_one (slots n) ≡ 0 = rw (occupied) refl in
      omega (arith, no_tombstones slots n none_there)
]

slot_bytes-fits :
    (capacity bytes : ℕ) → slot_bytes capacity ≡ some bytes → capacity ≤ size_max / slot_size
unfolding slot_bytes
slot_bytes-fits capacity bytes h = ground arith

slot_bytes-none :
    (capacity : ℕ) → capacity ≤ size_max / slot_size → 0 < capacity → slot_bytes capacity ≢ none
unfolding slot_bytes
slot_bytes-none capacity fits positive h = ground arith

-- A map with a copy of its table.
abbrev with_table : StringMap → Slots → ℕ → List Memory → StringMap
with_table map copy capacity released = record map {
  slots = some copy;
  capacity = capacity;
  tombstone_count = 0;
  released = released;
}

with_table-Grown :
    (map : StringMap) (slots copy : Slots) (capacity : ℕ) (released : List Memory)
    → initialized map ≡ true
    → capacity ≤ size_max / slot_size
    → map.length + 1 < capacity
    → map.length ≡ count occupied_one slots map.capacity
    → ((key : StringView) (value : StringMapValue)
        → HasEntry slots map.capacity key value ↔ Maps map key value)
    → IsValid map
    → Copies slots map.capacity capacity copy
    → Grown map true (true, with_table map copy capacity released)
with_table-Grown map slots copy capacity released ready fits room counted same v copies = record {
  granted = λ held fits'. refl;
  valid = record {
    ready = ready;
    has_slots = (
      copies.table,
      record {
        fits = fits;
        occupied = omega (arith, copies.counted);
        tombstones = sym (no_tombstones copy capacity copies.untombed);
        room = omega arith;
      },
    );
  };
  entries = λ key value. (
    λ m. (same key value).0 ((copies.entries key value).0 m),
    λ m. (copies.entries key value).1 ((same key value).1 m),
  );
  spare = λ held. omega arith;
}

rehash-fresh :
    (map : StringMap) (capacity bytes : ℕ)
    → slot_bytes capacity ≡ some bytes
    → initialized map ≡ true
    → map.slots ≡ none
    → map.capacity ≡ 0
    → rehash map capacity true
      ≡ some (true, with_table map (λ i. zeroed_slot) capacity map.released)
unfolding rehash
rehash-fresh map capacity bytes b ready e z =
    let zero' : (map.capacity == 0) ≡ true = ground arith in simp (rehash, b, ready, e, zero') refl

rehash-moved :
    (map : StringMap) (slots copy : Slots) (capacity bytes : ℕ)
    → slot_bytes capacity ≡ some bytes
    → initialized map ≡ true
    → map.slots ≡ some slots
    → moved slots capacity map.capacity ≡ some copy
    → rehash map capacity true
      ≡ some (true, with_table map copy capacity (table_of map.capacity ∷ map.released))
unfolding rehash
rehash-moved map slots copy capacity bytes b ready e made = simp (rehash, b, ready, e, made) refl

rehash-refused :
    (map : StringMap) (capacity : ℕ) (given : Bool)
    → (slot_bytes capacity ≡ none) ⊎ (given ≡ false)
    → rehash map capacity given ≡ some (false, map)
unfolding rehash
rehash-refused map capacity given (inl b) = simp (rehash, b) refl
rehash-refused map capacity given (inr g) = elim (Option-cases (slot_bytes capacity)) [
  | inl b ↦ simp (rehash, b) refl
  | inr (bytes, b) ↦ elim (Bool-cases (initialized map)) [
    | inl ready ↦ simp (rehash, b, g, ready) refl
    | inr raw ↦ simp (rehash, b, raw) refl
  ]
]

-- The result of string_map_rehash on a well-formed map.
pub rehash-Grown :
    (map : StringMap) (capacity : ℕ) (given : Bool)
    → IsValid map
    → IsPower capacity
    → map.length + 1 < capacity
    → (CanDouble map → capacity ≤ size_max / slot_size)
    → (result : Bool × StringMap) × (rehash map capacity given ≡ some result)
      × Grown map given result
rehash-Grown map capacity given v power room fits = elim (Option-cases (slot_bytes capacity)) [
  | inl b ↦ (
    (false, map),
    rehash-refused map capacity given (inl b),
    unchanged map given (λ held can. absurd (slot_bytes-none capacity (fits can) (omega arith) b))
        v,
  )
  | inr (bytes, b) ↦ elim (Bool-cases given) [
    | inr g ↦ (
      (false, map),
      rehash-refused map capacity given (inr g),
      unchanged map given (λ held can. absurd (ground arith)) v,
    )
    | inl g ↦ elim (Option-cases map.slots) [
      | inl e ↦
          let cleared : IsCleared map = HasSlots-none map e v.has_slots in
          let empty_count : (s : Slots) → map.length ≡ count occupied_one s map.capacity =
            (λ s. cleared.length ∙ sym (ap (count occupied_one s) cleared.capacity)) in
          let copies : Copies (λ i. zeroed_slot) map.capacity capacity (λ i. zeroed_slot) =
            rw (cleared.capacity) (zeroed-Copies (λ i. zeroed_slot) capacity power) in
          (
            (true, with_table map (λ i. zeroed_slot) capacity map.released),
            rw (g) (rehash-fresh map capacity bytes b v.ready e cleared.capacity),
            rw (g) (
                with_table-Grown map (λ i. zeroed_slot) (λ i. zeroed_slot) capacity map.released
                  v.ready (slot_bytes-fits capacity bytes b) room (empty_count (λ i. zeroed_slot))
                  (λ key value. (
                    λ (i, lt, occ, same, at). absurd (omega (arith, cleared.capacity)),
                    λ m. absurd (Maps-none map key value e m),
                  ))
                  v copies),
          )
      | inr (slots, e) ↦
          let (table, counted) = HasSlots-some map slots e v.has_slots in
          let (copy, made, copies) =
            moved-Copies slots map.capacity capacity table map.capacity (omega arith)
              (omega (arith, counted.occupied)) power in
          let released = table_of map.capacity ∷ map.released in
          (
            (true, with_table map copy capacity released),
            rw (g) (rehash-moved map slots copy capacity bytes b v.ready e made),
            rw (g) (
                with_table-Grown map slots copy capacity released v.ready
                  (slot_bytes-fits capacity bytes b) room counted.occupied
                  (λ key value.
                    let (there, back) = Maps-some map slots key value e in (back, there))
                  v copies),
          )
    ]
  ]
]
