-- ===== src/StringMap/Prepared.antt =====
-- src/collection/string_map.c: string_map_prepare_capacity makes room for one more key and keeps what a
-- map has.
use ceasy.Prelude.{
  ℕ, suc, ◌+◌, ◌-◌, ◌*◌, ◌/◌, ◌<◌, ◌≡◌, inl, inr, refl, Bool, true, false, ◌&&◌, ◌||◌, some, ◌==◌,
  ltb, Bool-cases, Option-cases, size_max, arith,
}
use ceasy.StringMap.Types.{Slots, StringMap}
use ceasy.StringMap.Rehash.{prepare_table, prepare_capacity, load_reached, initial_capacity}
use ceasy.StringMap.Mask.{IsPower}
use ceasy.StringMap.Valid.{IsValid}
use ceasy.StringMap.Got.{HasSlots-none, HasSlots-some}
use ceasy.StringMap.Grown.{Grown, unchanged, rehash-Grown}

double-IsPower : (capacity : ℕ) → IsPower capacity → IsPower (capacity * 2)
double-IsPower capacity (k, e) = (suc k, omega (arith, e))

-- A load that is not reached leaves room.
load_reached-room : (capacity used : ℕ) → load_reached capacity used ≡ false → used < capacity
unfolding load_reached
load_reached-room capacity used h = ground arith

prepare_table-Grown :
    (map : StringMap) (slots : Slots) (given : Bool)
    → IsValid map
    → map.slots ≡ some slots
    → (result : Bool × StringMap) × (prepare_table map given ≡ some result) × Grown map given result
unfolding prepare_table
prepare_table-Grown map slots given v e =
    let (table, counted) = HasSlots-some map slots e v.has_slots in
    elim (Bool-cases (
      ltb (size_max - map.tombstone_count) map.length
      || map.length + map.tombstone_count == size_max)) [
        | inl full ↦ (
          (false, map),
          rw (full) refl,
          unchanged map given (λ held can. absurd (ground (arith, counted.room, counted.fits))) v,
        )
        | inr fits ↦
            elim (Bool-cases (load_reached map.capacity (map.length + map.tombstone_count + 1))) [
              | inr light ↦ (
                (true, map),
                rw (fits, light) refl,
                record {
                  granted = λ held can. refl;
                  valid = v;
                  entries = λ key value. (λ m. m, λ m. m);
                  spare = λ held.
                      load_reached-room map.capacity (map.length + map.tombstone_count + 1) light;
                },
              )
              | inl heavy ↦
                  elim (Bool-cases
                    (ltb map.length (map.capacity / 2) && ltb 0 map.tombstone_count)) [
                      | inl sparse ↦
                          let (result, made, grown) =
                            rehash-Grown map map.capacity given v table.power (ground arith)
                              (λ can. omega arith) in
                          (result, rw (fits, heavy, sparse) made, grown)
                      | inr dense ↦ elim (Bool-cases (ltb (size_max / 2) map.capacity)) [
                        | inl large ↦ (
                          (false, map),
                          rw (fits, heavy, dense, large) refl,
                          unchanged map given (λ held can. absurd (ground (arith, counted.fits))) v,
                        )
                        | inr small ↦
                            let (result, made, grown) =
                              rehash-Grown map (map.capacity * 2) given v
                                (double-IsPower map.capacity table.power)
                                (omega (arith, counted.room)) (λ can. can) in
                            (result, rw (fits, heavy, dense, small) made, grown)
                      ]
                    ]
            ]
      ]

-- The result of string_map_prepare_capacity on a well-formed map.
pub prepare_capacity-Grown :
    (map : StringMap) (given : Bool)
    → IsValid map
    → (result : Bool × StringMap) × (prepare_capacity map given ≡ some result)
      × Grown map given result
unfolding prepare_capacity
prepare_capacity-Grown map given v = elim (Option-cases map.slots) [
  | inl e ↦
      let cleared = HasSlots-none map e v.has_slots in
      let (result, made, grown) =
        rehash-Grown map initial_capacity given v (4, refl) (omega (arith, cleared.length))
          (λ can. omega arith) in
      (result, simp (prepare_capacity, e) made, grown)
  | inr (slots, e) ↦
      let (result, made, grown) = prepare_table-Grown map slots given v e in
      (result, simp (prepare_capacity, e) made, grown)
]
