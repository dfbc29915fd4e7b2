-- ===== src/StringMap/Tests.antt =====
-- Runs of the string map.
use ceasy.Prelude.{ℕ, ◌≡◌, ◌↔◌, ◌≤◌, refl, Bool, true, Option, none, some, codes, arith, []}
use ceasy.Prelude.Int.{ℤ, pos}
use ceasy.StringView.{StringView, view, equal, hash, hash_from}
use ceasy.StringView.Bytes.{same}
use ceasy.OwnedString.Types.{Allocator}
use ceasy.StringMap.Types.{
  StringMap, Slots, value_memory, copy_bytes, slot_bytes, zeroed_slot, int64_value, bool_value,
  string_value, pointer_value,
}
use ceasy.StringMap.Probe.{find_loop, find_index, free_index}
use ceasy.StringMap.Rehash.{move_slot, moved, rehash, load_reached, prepare_table, prepare_capacity}
use ceasy.StringMap.Edit.{
  Given, zeroed_map, release_value, replace_value, set_slots, set_prepared, set_new, set_absent,
  set_checked, set_internal, set_value, slot_release, remove, release_slots, clear, destroy, init,
  init_heap,
}
use ceasy.StringMap.Lookup.{
  get, get_int, get_bool, get_string, get_pointer, contains, next, next_from,
}
use ceasy.StringMap.Values.{sm_int, sm_bool, set_int}
use ceasy.StringMap.Valid.{IsValid, Maps}
use ceasy.StringMap.Got.{get_iff}
use ceasy.StringMap.NewKey.{Outcome}
use ceasy.StringMap.Outcomes.{set_internal-Outcome, set_internal-IsValid}
use ceasy.StringMap.Removed.{Removal, remove-Removal}
use ceasy.StringMap.Cleared.{IsEmptied, clear-IsEmptied}
use ceasy.StringMap.Typed.{HasPayload, getters_iff}
use ceasy.StringMap.Iterated.{IsNext, next_lem}

program : Unit {0}
unfolding equal hash hash_from same value_memory copy_bytes slot_bytes find_loop find_index
    free_index move_slot moved rehash load_reached prepare_table prepare_capacity release_value
    replace_value set_slots set_prepared set_new set_absent set_checked set_internal set_value
    slot_release remove release_slots clear destroy init init_heap get get_int get_bool get_string
    contains next next_from sm_int sm_bool set_int
program = tt

abbrev nothing : StringMap
nothing = zeroed_map []

abbrev heap : Allocator
heap = record { alloc = true; realloc = true; free = true }

abbrev given : Given
given = record { key_given = true; table_given = true }

-- A new map on the heap.
fresh : StringMap
fresh = (init_heap nothing).1

abbrev or_else : Option (Bool × StringMap) → StringMap → StringMap
or_else none map = map
or_else (some result) map = result.1

abbrev id_key : StringView
id_key = view (codes "id")

abbrev name_key : StringView
name_key = view (codes "name")

one_key : StringMap
one_key = or_else (set_value fresh id_key (sm_int (pos 7)) given) fresh

two_keys : StringMap
two_keys = or_else (set_int one_key name_key (pos 1) given) one_key

-- The number 1 has become a Boolean.
two_keys-get :
    (get_int two_keys id_key ≡ some (pos 7))
    × (get_int two_keys name_key ≡ none)
    × (get_bool two_keys name_key ≡ some true)
    × (two_keys.length ≡ 2)
unfolding program fresh one_key two_keys
two_keys-get = (refl, refl, refl, refl)

remove-get :
    ((remove two_keys id_key).0 ≡ true)
    × (get (remove two_keys id_key).1 id_key ≡ none)
    × (get_bool (remove two_keys id_key).1 name_key ≡ some true)
unfolding program fresh one_key two_keys
remove-get = (refl, refl, refl)

fresh-IsValid : IsValid fresh
unfolding program fresh
fresh-IsValid = record {
  ready = refl;
  has_slots = record { capacity = refl; length = refl; tombstones = refl };
}

one_key-set : set_internal fresh id_key (sm_int (pos 7)) true given ≡ some (true, one_key)
unfolding program fresh one_key
one_key-set = refl

one_key-IsValid : IsValid one_key
one_key-IsValid =
    set_internal-IsValid fresh id_key (sm_int (pos 7)) true given (true, one_key) fresh-IsValid
      one_key-set

two_keys-set : set_internal one_key name_key (sm_bool true) true given ≡ some (true, two_keys)
unfolding program fresh one_key two_keys
two_keys-set = refl

two_keys-IsValid : IsValid two_keys
two_keys-IsValid =
    set_internal-IsValid one_key name_key (sm_bool true) true given (true, two_keys) one_key-IsValid
      two_keys-set

-- A second key beside a first one.
set_internal-Outcome_example :
    (result : Bool × StringMap) × (set_internal one_key name_key (sm_bool true) true given
      ≡ some result)
    × Outcome one_key name_key (sm_bool true) given result
set_internal-Outcome_example =
    set_internal-Outcome one_key name_key (sm_bool true) true given one_key-IsValid

get_iff_example :
    (get two_keys id_key ≡ some (sm_int (pos 7))) ↔ Maps two_keys id_key (sm_int (pos 7))
get_iff_example = get_iff two_keys id_key (sm_int (pos 7)) two_keys-IsValid

remove-Removal_example : Removal two_keys id_key (remove two_keys id_key)
remove-Removal_example = remove-Removal two_keys id_key two_keys-IsValid

clear-IsEmptied_example : IsEmptied two_keys (clear two_keys)
clear-IsEmptied_example = clear-IsEmptied two_keys two_keys-IsValid

getters_iff_example :
    ((n : ℤ) → (get_int two_keys id_key ≡ some n) ↔ HasPayload two_keys id_key (int64_value n))
    × ((b : Bool) → (get_bool two_keys id_key ≡ some b) ↔ HasPayload two_keys id_key (bool_value b))
    × ((s : StringView)
        → (get_string two_keys id_key ≡ some s) ↔ HasPayload two_keys id_key (string_value s))
    × ((p : Option ℕ)
        → (get_pointer two_keys id_key ≡ some p) ↔ HasPayload two_keys id_key (pointer_value p))
getters_iff_example = getters_iff two_keys id_key two_keys-IsValid

-- The slots of the map with two keys.
abbrev slots_of : StringMap → Slots
slots_of map = elim map.slots [ none ↦ (λ i. zeroed_slot) | some slots ↦ slots ]

two_keys-slots : two_keys.slots ≡ some (slots_of two_keys)
unfolding program fresh one_key two_keys
two_keys-slots = refl

two_keys-capacity : 0 ≤ two_keys.capacity
two_keys-capacity = omega arith

next_lem_example : IsNext (slots_of two_keys) two_keys.capacity 0 (next two_keys 0)
next_lem_example = next_lem two_keys (slots_of two_keys) 0 two_keys-slots two_keys-capacity
