-- ===== src/StringMap/Lookup.antt =====
-- The functions of src/collection/string_map.c that read a map. A pointer to a slot's value is the
-- value, and NULL is `none`.
use ceasy.Prelude.{
  ℕ, zero, suc, ◌+◌, ◌-◌, Bool, true, false, not, Option, none, some, ◌==◌, if◌then◌else◌,
}
use ceasy.Prelude.Int.{ℤ}
use ceasy.StringView.{StringView, hash, valid, size}
use ceasy.StringMap.Types.{
  Slots, StringMap, StringMapValue, slot_occupied, int64_value, bool_value, string_value,
  pointer_value, object_value,
}
use ceasy.StringMap.Probe.{find_index}

-- sm_get and sm_get_const
unfoldable pub get : StringMap → StringView → Option StringMapValue
get map key = if not (valid key) then none else elim map.slots [
  | none ↦ none
  | some slots ↦ elim (find_index map key (hash key)).0 [
    | none ↦ none
    | some index ↦ some (slots index).value
  ]
]

unfoldable pub get_int : StringMap → StringView → Option ℤ
get_int map key = elim (get map key) [
  | none ↦ none
  | some value ↦ elim value.payload [ int64_value n ↦ some n | _ ↦ none ]
]

unfoldable pub get_bool : StringMap → StringView → Option Bool
get_bool map key = elim (get map key) [
  | none ↦ none
  | some value ↦ elim value.payload [ bool_value b ↦ some b | _ ↦ none ]
]

unfoldable pub get_string : StringMap → StringView → Option StringView
get_string map key = elim (get map key) [
  | none ↦ none
  | some value ↦ elim value.payload [ string_value v ↦ some v | _ ↦ none ]
]

-- The pointer that was read may itself be NULL.
unfoldable pub get_pointer : StringMap → StringView → Option (Option ℕ)
get_pointer map key = elim (get map key) [
  | none ↦ none
  | some value ↦ elim value.payload [ pointer_value p ↦ some p | _ ↦ none ]
]

-- sm_get_object and sm_get_object_const
unfoldable pub get_object : StringMap → StringView → ℕ → Option StringView
get_object map key expected_size = elim (get map key) [
  | none ↦ none
  | some value ↦ elim value.payload [
    | object_value v ↦ if size v == expected_size then some v else none
    | _ ↦ none
  ]
]

unfoldable pub contains : StringMap → StringView → Bool
contains map key = elim (get map key) [ none ↦ false | some value ↦ true ]

-- The loop of sm_next_const, with the slots that are left: the key and the value, and the iterator's
-- index.
unfoldable pub next_from : Slots → ℕ → ℕ → Option (StringView × StringMapValue) × ℕ
next_from slots zero index = (none, index)
next_from slots (suc rounds) index = elim (slots index).state [
  | slot_occupied ↦ (some ((slots index).key, (slots index).value), index + 1)
  | _ ↦ next_from slots rounds (index + 1)
]

-- sm_next_const and sm_next; a map without slots has the capacity 0.
unfoldable pub next : StringMap → ℕ → Option (StringView × StringMapValue) × ℕ
next map index = elim map.slots [
  | none ↦ (none, index)
  | some slots ↦ next_from slots (map.capacity - index) index
]
