-- ===== src/StringMap/Valid.antt =====
-- src/collection/string_map.c: when a map is well formed, and what it maps a key to.
use ceasy.Prelude.{
  ℕ, zero, suc, ◌+◌, ◌/◌, ◌≤◌, ◌<◌, ◌≡◌, ◌≢◌, ◌⊎◌, inl, inr, refl, true, none, some, size_max,
}
use ceasy.StringView.{StringView, hash, equal, valid}
use ceasy.StringMap.Types.{
  Slot, Slots, SlotState, StringMap, StringMapValue, slot_empty, slot_occupied, slot_tombstone,
  slot_size, initialized,
}
use ceasy.StringMap.Mask.{IsPower, probe}

abbrev pub IsOccupied : Slot → Type 0
IsOccupied slot = slot.state ≡ slot_occupied

pub SlotState-cases :
    (state : SlotState)
    → (state ≡ slot_empty) ⊎ ((state ≡ slot_tombstone) ⊎ (state ≡ slot_occupied))
SlotState-cases slot_empty = inl refl
SlotState-cases slot_tombstone = inr (inl refl)
SlotState-cases slot_occupied = inr (inr refl)

-- No slot that the probe for a hash passes in its first `d` steps is empty.
abbrev pub Passes : Slots → ℕ → ℕ → ℕ → Type 0
Passes slots capacity h d = (e : ℕ) → e < d → (slots (probe capacity h e)).state ≢ slot_empty

-- The probe for a hash comes to the slot `i`.
abbrev pub Reaches : Slots → ℕ → ℕ → ℕ → Type 0
Reaches slots capacity h i =
    (d : ℕ) × (d < capacity) × (probe capacity h d ≡ i) × Passes slots capacity h d

pub record IsTable (slots : Slots) (capacity : ℕ) : Type 0 where
  pub power : IsPower capacity
  pub hashed : (i : ℕ) → i < capacity → IsOccupied (slots i) → (slots i).hash ≡ hash (slots i).key
  pub keyed : (i : ℕ) → i < capacity → IsOccupied (slots i) → valid (slots i).key ≡ true
  pub reached :
      (i : ℕ) → i < capacity → IsOccupied (slots i) → Reaches slots capacity (slots i).hash i
  pub unique :
      (i j : ℕ)
      → i < capacity
      → j < capacity
      → IsOccupied (slots i)
      → IsOccupied (slots j)
      → equal (slots i).key (slots j).key ≡ true
      → i ≡ j

-- One for a slot in the given state, else zero.
abbrev pub occupied_one : Slot → ℕ
occupied_one slot = elim slot.state [ slot_occupied ↦ 1 | _ ↦ 0 ]

abbrev pub tombstone_one : Slot → ℕ
tombstone_one slot = elim slot.state [ slot_tombstone ↦ 1 | _ ↦ 0 ]

-- The sum of what `one` gives over the first `n` slots.
abbrev pub count : (Slot → ℕ) → Slots → ℕ → ℕ
count one slots zero = 0
count one slots (suc n) = count one slots n + one (slots n)

-- The fields of a map with these slots: they fit a size_t, the counters are right, and some slot is
-- empty.
pub record IsCounted (slots : Slots) (map : StringMap) : Type 0 where
  pub fits : map.capacity ≤ size_max / slot_size
  pub occupied : map.length ≡ count occupied_one slots map.capacity
  pub tombstones : map.tombstone_count ≡ count tombstone_one slots map.capacity
  pub room : map.length + map.tombstone_count < map.capacity

pub record IsCleared (map : StringMap) : Type 0 where
  pub capacity : map.capacity ≡ 0
  pub length : map.length ≡ 0
  pub tombstones : map.tombstone_count ≡ 0

abbrev pub HasSlots : StringMap → Type 0
HasSlots map = elim map.slots [
  | none ↦ IsCleared map
  | some slots ↦ IsTable slots map.capacity × IsCounted slots map
]

pub record IsValid (map : StringMap) : Type 0 where
  pub ready : initialized map ≡ true
  pub has_slots : HasSlots map

-- An occupied slot has the key with the value.
abbrev pub HasEntry : Slots → ℕ → StringView → StringMapValue → Type 0
HasEntry slots capacity key value =
    (i : ℕ) × (i < capacity)
    × IsOccupied (slots i)
    × (equal (slots i).key key ≡ true)
    × ((slots i).value ≡ value)

-- What a map has for a key.
abbrev pub Maps : StringMap → StringView → StringMapValue → Type 0
Maps map key value = elim map.slots [
  | none ↦ ⊥
  | some slots ↦ HasEntry slots map.capacity key value
]
