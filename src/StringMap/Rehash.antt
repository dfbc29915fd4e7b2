-- ===== src/StringMap/Rehash.antt =====
-- How the table of src/collection/string_map.c grows. A result `none` is a loop without an end or an
-- access through NULL; `given` tells whether the allocator has memory.
use ceasy.Prelude.{
  ℕ, zero, suc, ◌+◌, ◌-◌, ◌*◌, ◌/◌, Bool, true, false, not, ◌&&◌, ◌||◌, Option, none, some, ◌∷◌,
  ltb, leb, ◌==◌, if◌then◌else◌, size_max,
}
use ceasy.StringMap.Types.{
  Slot, Slots, StringMap, slot_occupied, initialized, slot_bytes, write, zeroed_slot, table_of,
}
use ceasy.StringMap.Probe.{first_index, free_index}

-- STRING_MAP_INITIAL_CAPACITY
abbrev pub initial_capacity : ℕ
initial_capacity = 16

-- One round of the loop of string_map_rehash.
unfoldable pub move_slot : ℕ → Slot → Slots → Option Slots
move_slot capacity slot new_slots = elim slot.state [
  | slot_occupied ↦ elim (free_index new_slots capacity capacity (first_index capacity slot.hash)) [
    | none ↦ none
    | some index ↦ some (write new_slots index slot)
  ]
  | _ ↦ some new_slots
]

-- The new slots after so many rounds of the loop.
unfoldable pub moved : Slots → ℕ → ℕ → Option Slots
moved slots capacity zero = some (λ i. zeroed_slot)
moved slots capacity (suc index) = elim (moved slots capacity index) [
  | none ↦ none
  | some new_slots ↦ move_slot capacity (slots index) new_slots
]

-- string_map_rehash
unfoldable pub rehash : StringMap → ℕ → Bool → Option (Bool × StringMap)
rehash map new_capacity given = elim (slot_bytes new_capacity) [
  | none ↦ some (false, map)
  | some bytes ↦ if not (initialized map) || not given then some (false, map) else elim map.slots [
    | none ↦
        if map.capacity == 0
        then some (
          true,
          record map {
            slots = some (λ i. zeroed_slot);
            capacity = new_capacity;
            tombstone_count = 0;
          },
        )
        else none
    | some slots ↦ elim (moved slots new_capacity map.capacity) [
      | none ↦ none
      | some new_slots ↦ some (
        true,
        record map {
          slots = some new_slots;
          capacity = new_capacity;
          tombstone_count = 0;
          released = table_of map.capacity ∷ map.released;
        },
      )
    ]
  ]
]

-- string_map_load_reached
unfoldable pub load_reached : ℕ → ℕ → Bool
load_reached capacity used =
    let threshold = capacity / 2 + capacity / 5 in threshold == 0 || leb threshold used

-- string_map_prepare_capacity where there is a table
unfoldable pub prepare_table : StringMap → Bool → Option (Bool × StringMap)
prepare_table map given =
    if ltb (size_max - map.tombstone_count) map.length
      || map.length + map.tombstone_count == size_max
    then some (false, map)
    else if not (load_reached map.capacity (map.length + map.tombstone_count + 1))
    then some (true, map)
    else if ltb map.length (map.capacity / 2) && ltb 0 map.tombstone_count
    then rehash map map.capacity given
    else if ltb (size_max / 2) map.capacity
    then some (false, map)
    else rehash map (map.capacity * 2) given

-- string_map_prepare_capacity
unfoldable pub prepare_capacity : StringMap → Bool → Option (Bool × StringMap)
prepare_capacity map given = elim map.slots [
  | none ↦ rehash map initial_capacity given
  | some slots ↦ prepare_table map given
]
