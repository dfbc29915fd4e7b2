-- ===== src/StringMap/Edit.antt =====
-- The functions of src/collection/string_map.c that change a map. A result `none` is a loop without an
-- end or an access through NULL.
use ceasy.Prelude.{
  ℕ, zero, suc, ◌+◌, ◌%◌, ◌^◌, Bool, true, false, not, ◌||◌, Option, none, some, List, ◌∷◌, ◌++◌,
  ltb, ◌==◌, if◌then◌else◌,
}
use ceasy.StringView.{StringView, hash, valid, size}
use ceasy.OwnedString.Types.{Allocator}
use ceasy.Arena.Types.{sub64}
use ceasy.StringMap.Types.{
  Slot, Slots, StringMap, StringMapValue, Memory, slot_occupied, slot_tombstone, empty_value,
  string_value, object_value, bytes_at, table_of, zeroed_slot, write, initialized, value_memory,
  copy_bytes,
}
use ceasy.StringMap.Probe.{find_index, first_index, free_index}
use ceasy.StringMap.Rehash.{prepare_capacity}

-- Whether the allocator has memory for the key, and for a table.
pub record Given : Type 0 where
  pub key_given : Bool
  pub table_given : Bool

-- string_map_value_release
unfoldable pub release_value : StringMap → StringMapValue → StringMap
unfolding value_memory
release_value map value =
    if not (initialized map)
    then map
    else record map { released = value_memory value ++ map.released }

abbrev pub release_key : StringMap → Bool → StringView → StringMap
release_key map owns key =
    if owns then record map { released = bytes_at key ∷ map.released } else map

-- Puts a value in place of the one in the slot at `index`.
unfoldable pub replace_value : StringMap → Slots → ℕ → StringMapValue → StringMap
replace_value map slots index value = record (release_value map (slots index).value) {
  slots = some (write slots index (record (slots index) { value = value }));
}

-- The values that string_map_set_internal refuses.
abbrev pub refused : StringMapValue → Bool
refused value = elim value.payload [
  | empty_value ↦ true
  | string_value v ↦ not (valid v)
  | object_value v ↦ not (valid v) || size v == 0
  | _ ↦ false
]

-- The end of string_map_set_internal: puts a slot at `index`.
abbrev pub occupy : StringMap → Slots → ℕ → Slot → StringMap
occupy map slots index slot = record map {
  slots = some (write slots index slot);
  length = (map.length + 1) % 2 ^ 64;
}

-- string_map_set_internal after the table has been prepared, in the slots of the map.
unfoldable pub set_slots :
    StringMap → Slots → StringView → StringView → Bool → StringMapValue → Option (Bool × StringMap)
set_slots map slots key stored_key owns value =
    let found = find_index map key (hash key) in
    let slot : Slot = record {
      hash = hash key;
      key = stored_key;
      value = value;
      state = slot_occupied;
      owns_key = owns;
    } in
    elim found.0 [
      | some index ↦ some (true, replace_value (release_key map owns stored_key) slots index value)
      | none ↦ elim found.1 [
        | some index ↦ some (
          true,
          occupy (record map { tombstone_count = sub64 map.tombstone_count 1 }) slots index slot,
        )
        | none ↦
            elim (free_index slots map.capacity map.capacity
              (first_index map.capacity (hash key))) [
                | none ↦ none
                | some index ↦ some (true, occupy map slots index slot)
              ]
      ]
    ]

-- The same, with an access through NULL if the map has no slots.
unfoldable pub set_prepared :
    StringMap → StringView → StringView → Bool → StringMapValue → Option (Bool × StringMap)
set_prepared map key stored_key owns value = elim map.slots [
  | none ↦ none
  | some slots ↦ set_slots map slots key stored_key owns value
]

-- string_map_set_internal for a key that the map does not have, with its stored form.
unfoldable pub set_new :
    StringMap → StringView → StringView → Bool → StringMapValue → Bool → Option (Bool × StringMap)
set_new map key stored_key owns value given = elim (prepare_capacity map given) [
  | none ↦ none
  | some prepared ↦
      if prepared.0
      then set_prepared prepared.1 key stored_key owns value
      else some (false, release_value (release_key prepared.1 owns stored_key) value)
]

-- string_map_set_internal where the key is not found.
unfoldable pub set_absent :
    StringMap → StringView → StringMapValue → Bool → Given → Option (Bool × StringMap)
set_absent map key value copy_key given =
    if not copy_key
    then set_new map key key false value given.table_given
    else elim (copy_bytes key given.key_given) [
      | none ↦ some (false, release_value map value)
      | some copy ↦ set_new map key copy (ltb 0 (size copy)) value given.table_given
    ]

-- string_map_set_internal where the arguments are good.
unfoldable pub set_checked :
    StringMap → StringView → StringMapValue → Bool → Given → Option (Bool × StringMap)
set_checked map key value copy_key given = elim map.slots [
  | none ↦ set_absent map key value copy_key given
  | some slots ↦ elim (find_index map key (hash key)).0 [
    | some index ↦ some (true, replace_value map slots index value)
    | none ↦ set_absent map key value copy_key given
  ]
]

-- string_map_set_internal
unfoldable pub set_internal :
    StringMap → StringView → StringMapValue → Bool → Given → Option (Bool × StringMap)
set_internal map key value copy_key given =
    if not (initialized map) || not (valid key) || refused value
    then some (false, release_value map value)
    else set_checked map key value copy_key given

-- sm_set_value and sm_set_value_borrowed_key
unfoldable pub set_value :
    StringMap → StringView → StringMapValue → Given → Option (Bool × StringMap)
set_value map key value given = set_internal map key value true given

unfoldable pub set_value_borrowed_key :
    StringMap → StringView → StringMapValue → Given → Option (Bool × StringMap)
set_value_borrowed_key map key value given = set_internal map key value false given

-- string_map_slot_release, with the state that follows it in sm_remove and sm_clear.
unfoldable pub slot_release : StringMap → Slot → StringMap
slot_release map slot = release_value (release_key map slot.owns_key slot.key) slot.value

unfoldable pub remove : StringMap → StringView → Bool × StringMap
remove map key = if not (valid key) then (false, map) else elim map.slots [
  | none ↦ (false, map)
  | some slots ↦ elim (find_index map key (hash key)).0 [
    | none ↦ (false, map)
    | some index ↦ (
      true,
      record (slot_release map (slots index)) {
        slots = some (write slots index (record zeroed_slot { state = slot_tombstone }));
        length = sub64 map.length 1;
        tombstone_count = (map.tombstone_count + 1) % 2 ^ 64;
      },
    )
  ]
]

-- The loop of sm_clear after so many rounds.
unfoldable pub release_slots : StringMap → Slots → ℕ → StringMap
release_slots map slots zero = map
release_slots map slots (suc index) =
    let released = release_slots map slots index in
    elim (slots index).state [ slot_occupied ↦ slot_release released (slots index) | _ ↦ released ]

unfoldable pub clear : StringMap → StringMap
clear map = if not (initialized map) then map else elim map.slots [
  | none ↦ map
  | some slots ↦ record (release_slots map slots map.capacity) {
    slots = some (λ i. zeroed_slot);
    length = 0;
    tombstone_count = 0;
  }
]

-- `(StringMap){0}`, with what has been freed.
abbrev pub zeroed_map : List Memory → StringMap
zeroed_map released = record {
  allocator = record { alloc = false; realloc = false; free = false };
  slots = none;
  capacity = 0;
  length = 0;
  tombstone_count = 0;
  released = released;
}

unfoldable pub destroy : StringMap → StringMap
unfolding clear release_slots slot_release release_value
destroy map = if not (initialized map) then zeroed_map map.released else elim map.slots [
  | none ↦ zeroed_map map.released
  | some slots ↦ zeroed_map (table_of map.capacity ∷ (clear map).released)
]

-- sm_init
unfoldable pub init : StringMap → Allocator → Bool × StringMap
init map allocator =
    if not allocator.alloc || not allocator.free
    then (false, map)
    else if initialized map
    then (false, map)
    else (true, record (zeroed_map map.released) { allocator = allocator })

-- allocator_heap and arena_allocator: none of the three functions is NULL.
abbrev pub full_allocator : Allocator
full_allocator = record { alloc = true; realloc = true; free = true }

-- sm_init_in, with whether the arena is not NULL.
unfoldable pub init_in : StringMap → Bool → Bool × StringMap
unfolding init
init_in map has_arena = if not has_arena then (false, map) else init map full_allocator

-- sm_init_heap
unfoldable pub init_heap : StringMap → Bool × StringMap
unfolding init
init_heap map = init map full_allocator
