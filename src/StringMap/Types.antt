-- ===== src/StringMap/Types.antt =====
-- The data of src/collection/string_map.c and include/ceasy/collection/string_map.h. The memory that a
-- view, a key or a value covers is the view itself, so a copy has the same bytes. `released` records
-- what the allocator's `free` was called with, the last first. A map and the pointers for results are
-- not NULL.
use ceasy.Prelude.{
  ℕ, ◌*◌, ◌/◌, Bool, false, not, ◌&&◌, ◌||◌, Option, none, some, List, [], ◌∷◌, ltb, ◌==◌,
  if◌then◌else◌, size_max,
}
use ceasy.Prelude.Int.{ℤ}
use ceasy.StringView.{StringView, null, view, size, zeroed}
use ceasy.OwnedString.Types.{Allocator}

-- The union of StringMapValue with its type; an object is its address with its size.
pub data Payload : Type 0 where
  empty_value : Payload
  int64_value : ℤ → Payload
  bool_value : Bool → Payload
  string_value : StringView → Payload
  pointer_value : Option ℕ → Payload
  object_value : StringView → Payload

pub record StringMapValue : Type 0 where
  pub payload : Payload
  pub valid : Bool
  pub owns_data : Bool

pub data SlotState : Type 0 where
  slot_empty : SlotState
  slot_occupied : SlotState
  slot_tombstone : SlotState

pub record Slot : Type 0 where
  pub hash : ℕ
  pub key : StringView
  pub value : StringMapValue
  pub state : SlotState
  pub owns_key : Bool

abbrev pub Slots : Type 0
Slots = ℕ → Slot

-- What `free` is called with: the bytes of a key or a value, or a table of so many slots.
pub data Memory : Type 0 where
  bytes_at : StringView → Memory
  table_of : ℕ → Memory

pub record StringMap : Type 0 where
  pub allocator : Allocator
  pub slots : Option Slots
  pub capacity : ℕ
  pub length : ℕ
  pub tombstone_count : ℕ
  pub released : List Memory

-- `(StringMapValue){0}`
abbrev pub zeroed_value : StringMapValue
zeroed_value = record { payload = empty_value; valid = false; owns_data = false }

-- A slot of zero bytes.
abbrev pub zeroed_slot : Slot
zeroed_slot = record {
  hash = 0;
  key = zeroed;
  value = zeroed_value;
  state = slot_empty;
  owns_key = false;
}

abbrev pub write : Slots → ℕ → Slot → Slots
write slots i slot = λ j. if j == i then slot else slots j

-- sizeof(StringMapSlot)
abbrev pub slot_size : ℕ
slot_size = 56

-- string_map_initialized
abbrev pub initialized : StringMap → Bool
initialized map = map.allocator.alloc && map.allocator.free

-- string_map_slot_bytes
unfoldable pub slot_bytes : ℕ → Option ℕ
slot_bytes capacity =
    if capacity == 0 || ltb (size_max / slot_size) capacity
    then none
    else some (capacity * slot_size)

-- What string_map_value_release hands to `free`.
unfoldable pub value_memory : StringMapValue → List Memory
value_memory value = if not value.owns_data then [] else elim value.payload [
  | string_value v ↦ bytes_at v ∷ []
  | object_value v ↦ bytes_at v ∷ []
  | _ ↦ []
]

-- string_map_copy_bytes; `given` tells whether the allocator has memory.
unfoldable pub copy_bytes : StringView → Bool → Option StringView
copy_bytes (null n) given = if n == 0 then some zeroed else none
copy_bytes (view bs) given =
    if size (view bs) == 0 then some zeroed else if given then some (view bs) else none
