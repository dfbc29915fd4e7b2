-- ===== src/OwnedString/Reserve.antt =====
-- string_reserve of src/string/string.c.
use ceasy.Prelude.{
  ℕ, zero, suc, ◌+◌, ◌-◌, ◌*◌, ◌/◌, Bool, true, false, ◌||◌, Option, none, some, ltb, leb, ◌==◌,
  if◌then◌else◌, size_max,
}
use ceasy.OwnedString.Memory.{Bytes, write}
use ceasy.OwnedString.Types.{OwnedString}

-- The loop that doubles `new_capacity`; `none` is fuel that ran out.
unfoldable pub doubled : ℕ → ℕ → ℕ → Option ℕ
doubled zero new_capacity capacity = none
doubled (suc fuel) new_capacity capacity =
    let rest = doubled fuel (new_capacity * 2) capacity in
    if ltb new_capacity capacity
    then (if ltb (size_max / 2) new_capacity then some capacity else rest)
    else some new_capacity

-- 64 rounds reach every capacity, since each one doubles.
unfoldable pub new_capacity : ℕ → ℕ → Option ℕ
unfolding doubled
new_capacity old capacity = elim (doubled 65 (if old == 0 then 16 else old) capacity) [
  | none ↦ none
  | some c ↦ some (if c == size_max then capacity else c)
]

-- The bytes in the new memory: `realloc` and `memcpy` copy the old ones.
unfoldable pub copied : Option Bytes → ℕ → Bytes → Bytes
copied none old_size fresh i = fresh i
copied (some bytes) old_size fresh i = if ltb i old_size then bytes i else fresh i

-- What the allocator's `realloc`, or `alloc` where it has none, gives.
unfoldable pub obtain : OwnedString → Option Bytes → Option Bytes
unfolding copied
obtain string fresh =
    let old_size = string.length + 1 in
    if string.allocator.realloc || string.allocator.alloc
    then elim fresh [ none ↦ none | some bytes ↦ some (copied string.storage old_size bytes) ]
    else none

unfoldable pub terminated : OwnedString → OwnedString
unfolding write
terminated string = record string {
  storage = elim string.storage [ none ↦ none | some bytes ↦ some (write bytes string.length 0) ];
}

-- string_reserve
unfoldable pub reserve : OwnedString → ℕ → Option Bytes → Bool × OwnedString
unfolding new_capacity obtain terminated write
reserve string capacity fresh =
    if ltb string.capacity string.length
    then (false, string)
    else if leb capacity string.capacity
    then (true, terminated string)
    else elim (new_capacity string.capacity capacity) [
      | none ↦ (false, string)
      | some c ↦
          if ltb (size_max - 1) c || string.length == size_max
          then (false, string)
          else elim (obtain string fresh) [
            | none ↦ (false, string)
            | some bytes ↦
                (true, record string { storage = some (write bytes string.length 0); capacity = c })
          ]
    ]
