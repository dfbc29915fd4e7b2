-- ===== src/StringMap/Values.antt =====
-- The values of src/collection/string_map.c and the setters of one type of value.
use ceasy.Prelude.{
  ℕ, suc, zero, Bool, true, false, not, ◌||◌, Option, none, some, ◌==◌, if◌then◌else◌,
}
use ceasy.Prelude.Int.{ℤ, pos}
use ceasy.StringView.{StringView, valid, size}
use ceasy.StringMap.Types.{
  StringMap, StringMapValue, Payload, int64_value, bool_value, string_value, pointer_value,
  object_value, zeroed_value, initialized, copy_bytes,
}
use ceasy.StringMap.Edit.{Given, set_value}

abbrev pub borrowed : Payload → StringMapValue
borrowed payload = record { payload = payload; valid = true; owns_data = false }

abbrev pub owned : Payload → StringMapValue
owned payload = record { payload = payload; valid = true; owns_data = true }

unfoldable pub sm_int : ℤ → StringMapValue
sm_int value = borrowed (int64_value value)

unfoldable pub sm_bool : Bool → StringMapValue
sm_bool value = borrowed (bool_value value)

-- `given` tells whether the allocator has memory for the copy.
unfoldable pub sm_string_copy : StringMap → StringView → Bool → StringMapValue
unfolding copy_bytes
sm_string_copy map value given =
    if not (initialized map) || not (valid value)
    then zeroed_value
    else elim (copy_bytes value given) [
      | none ↦ zeroed_value
      | some copy ↦ owned (string_value copy)
    ]

unfoldable pub sm_string_borrowed : StringView → StringMapValue
sm_string_borrowed value = if not (valid value) then zeroed_value else borrowed (string_value value)

unfoldable pub sm_pointer : Option ℕ → StringMapValue
sm_pointer pointer = borrowed (pointer_value pointer)

unfoldable pub sm_object : StringMap → StringView → Bool → StringMapValue
unfolding copy_bytes
sm_object map object given =
    if not (initialized map) || size object == 0
    then zeroed_value
    else elim (copy_bytes object given) [
      | none ↦ zeroed_value
      | some copy ↦ owned (object_value copy)
    ]

-- sm_set_int: the numbers 0 and 1 are the C values false and true.
unfoldable pub set_int : StringMap → StringView → ℤ → Given → Option (Bool × StringMap)
unfolding set_value sm_bool sm_int
set_int map key (pos zero) given = set_value map key (sm_bool false) given
set_int map key (pos (suc zero)) given = set_value map key (sm_bool true) given
set_int map key value given = set_value map key (sm_int value) given

-- sm_set_long and sm_set_long_long
unfoldable pub set_long : StringMap → StringView → ℤ → Given → Option (Bool × StringMap)
unfolding set_value sm_int
set_long map key value given = set_value map key (sm_int value) given

unfoldable pub set_bool : StringMap → StringView → Bool → Given → Option (Bool × StringMap)
unfolding set_value sm_bool
set_bool map key value given = set_value map key (sm_bool value) given

-- The copy of the value comes first; `text_given` tells whether there is memory for it.
unfoldable pub set_string_view :
    StringMap → StringView → StringView → Bool → Given → Option (Bool × StringMap)
unfolding set_value sm_string_copy
set_string_view map key value text_given given =
    set_value map key (sm_string_copy map value text_given) given
