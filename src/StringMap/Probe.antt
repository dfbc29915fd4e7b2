-- ===== src/StringMap/Probe.antt =====
-- The search for a key's slot in src/collection/string_map.c. SIZE_MAX as an index is `none`.
use ceasy.Prelude.{
  ℕ, zero, suc, ◌+◌, ◌-◌, Bool, true, false, not, ◌&&◌, ◌||◌, Option, none, some, ◌==◌,
  if◌then◌else◌,
}
use Prim.Native.Nat.{bit_and}
use ceasy.StringView.{StringView, equal, valid}
use ceasy.StringMap.Types.{
  Slot, Slots, StringMap, slot_empty, slot_occupied, slot_tombstone, initialized,
}

-- `(index + 1) & (capacity - 1)`
abbrev pub next_index : ℕ → ℕ → ℕ
next_index capacity index = bit_and (index + 1) (capacity - 1)

-- `hash & (capacity - 1)`
abbrev pub first_index : ℕ → ℕ → ℕ
first_index capacity hash = bit_and hash (capacity - 1)

abbrev pub matches : Slot → StringView → ℕ → Bool
matches slot key hash = slot.hash == hash && equal slot.key key

-- The first tombstone that was seen, when the slot at `index` is one.
abbrev pub mark_tombstone : Option ℕ → ℕ → Option ℕ
mark_tombstone none index = some index
mark_tombstone (some t) index = some t

-- The loop of string_map_find_index, with the probes that are left: the index of the key's slot and
-- the first tombstone.
unfoldable pub find_loop : Slots → ℕ → StringView → ℕ → ℕ → ℕ → Option ℕ → Option ℕ × Option ℕ
find_loop slots capacity key hash zero index tombstone = (none, tombstone)
find_loop slots capacity key hash (suc probes) index tombstone = elim (slots index).state [
  | slot_empty ↦ (none, tombstone)
  | slot_tombstone ↦
      find_loop slots capacity key hash probes (next_index capacity index)
        (mark_tombstone tombstone index)
  | slot_occupied ↦ elim (matches (slots index) key hash) [
    | true ↦ (some index, tombstone)
    | false ↦ find_loop slots capacity key hash probes (next_index capacity index) tombstone
  ]
]

-- string_map_find_index
unfoldable pub find_index : StringMap → StringView → ℕ → Option ℕ × Option ℕ
find_index map key hash = elim map.slots [
  | none ↦ (none, none)
  | some slots ↦
      if not (initialized map) || map.capacity == 0 || not (valid key)
      then (none, none)
      else find_loop slots map.capacity key hash map.capacity (first_index map.capacity hash) none
]

-- The loops that look for a slot that is not occupied, with the rounds that are left; `none` when
-- these are used up.
unfoldable pub free_index : Slots → ℕ → ℕ → ℕ → Option ℕ
free_index slots capacity zero index = none
free_index slots capacity (suc rounds) index = elim (slots index).state [
  | slot_occupied ↦ free_index slots capacity rounds (next_index capacity index)
  | _ ↦ some index
]
