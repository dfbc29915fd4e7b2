-- ===== src/StringMap/NewKey.antt =====
-- src/collection/string_map.c: what string_map_set_internal leaves for a key that it stores anew.
use ceasy.Prelude.{
  ◌≡◌, ◌↔◌, inl, inr, refl, sym, ◌∙◌, Bool, true, false, Option, none, some, List, Bool-cases,
  Option-cases, arith,
}
use ceasy.StringView.{StringView, equal, valid}
use ceasy.StringMap.Types.{Slots, StringMap, StringMapValue, Memory, initialized}
use ceasy.StringMap.Edit.{Given, refused, release_key, release_value, set_new}
use ceasy.StringMap.Valid.{IsTable, IsCounted, IsValid, IsCleared, Maps}
use ceasy.StringMap.Got.{HasSlots-none}
use ceasy.StringMap.Grown.{CanDouble}
use ceasy.StringMap.Prepared.{prepare_capacity-Grown}
use ceasy.StringMap.Setting.{set_slots-Stores, set_prepared-slots}
use ceasy.StringMap.Stored.{Stores}

-- The arguments are good, and there is memory for the key and for a larger table.
abbrev pub Granted : StringMap → StringView → StringMapValue → Given → Type 0
Granted map key value given =
    (valid key ≡ true)
    × (refused value ≡ false)
    × (given.key_given ≡ true)
    × (given.table_given ≡ true)
    × CanDouble map

-- The result of string_map_set_internal: the map stores the value, or it has what it had.
pub record Outcome (map : StringMap) (key : StringView) (value : StringMapValue) (given : Given)
    (result : Bool × StringMap) : Type 0 where
  pub granted : Granted map key value given → result.0 ≡ true
  pub stored : result.0 ≡ true → Stores map key value result.1
  pub failed :
      result.0 ≡ false
      → IsValid result.1
        × ((key' : StringView) (value' : StringMapValue)
            → Maps result.1 key' value' ↔ Maps map key' value')

-- A map that differs only in what has been freed.
abbrev freed : StringMap → List Memory → StringMap
freed map released = record map { released = released }

freed-IsValid :
    (map : StringMap) (released : List Memory) → IsValid map → IsValid (freed map released)
freed-IsValid map released v = record { ready = v.ready; has_slots = keep map.slots v.has_slots }
  where
    keep :
        (o : Option Slots)
        → elim o as (λ _. Type 0) [
          | none ↦ IsCleared map
          | some s ↦ IsTable s map.capacity × IsCounted s map
        ]
        → elim o as (λ _. Type 0) [
          | none ↦ IsCleared (freed map released)
          | some s ↦ IsTable s map.capacity × IsCounted s (freed map released)
        ]
    keep none c = record { capacity = c.capacity; length = c.length; tombstones = c.tombstones }
    keep (some s) (table, c) = (
      table,
      record { fits = c.fits; occupied = c.occupied; tombstones = c.tombstones; room = c.room },
    )

release-only :
    (map : StringMap) (owns : Bool) (key : StringView) (value : StringMapValue)
    → release_value (release_key map owns key) value
      ≡ freed map (release_value (release_key map owns key) value).released
unfolding release_value
release-only map true key value = elim (Bool-cases (initialized map)) [
  | inl ready ↦ rw (ready) refl
  | inr raw ↦ rw (raw) refl
]
release-only map false key value = elim (Bool-cases (initialized map)) [
  | inl ready ↦ rw (ready) refl
  | inr raw ↦ rw (raw) refl
]

pub failed-Outcome :
    (map prepared : StringMap) (owns : Bool) (key stored_key : StringView) (value : StringMapValue)
    (given : Given)
    → (Granted map key value given → false ≡ true)
    → IsValid prepared
    → ((key' : StringView) (value' : StringMapValue)
        → Maps prepared key' value' ↔ Maps map key' value')
    → Outcome map key value given
        (false, release_value (release_key prepared owns stored_key) value)
failed-Outcome map prepared owns key stored_key value given never v same =
    let released = (release_value (release_key prepared owns stored_key) value).released in
    rw (release-only prepared owns stored_key value) record {
      granted = never;
      stored = λ held. absurd (ground arith);
      failed = λ unheld. (freed-IsValid prepared released v, same);
    }

pub Stores-Outcome :
    (map prepared m : StringMap) (key : StringView) (value : StringMapValue) (given : Given)
    → ((key' : StringView) (value' : StringMapValue)
        → Maps prepared key' value' ↔ Maps map key' value')
    → Stores prepared key value m
    → Outcome map key value given (true, m)
Stores-Outcome map prepared m key value given same stores = record {
  granted = λ good. refl;
  stored = λ held. record {
    valid = stores.valid;
    entries = λ key' value'. (
      λ entry. elim ((stores.entries key' value').0 entry) [
        | inl new ↦ inl new
        | inr (differ, maps) ↦ inr (differ, (same key' value').0 maps)
      ],
      λ entry. elim entry [
        | inl new ↦ (stores.entries key' value').1 (inl new)
        | inr (differ, maps) ↦
            (stores.entries key' value').1 (inr (differ, (same key' value').1 maps))
      ],
    );
  };
  failed = λ unheld. absurd (ground arith);
}

pub set_new-Outcome :
    (map : StringMap) (key stored_key : StringView) (owns : Bool) (value : StringMapValue)
    (given : Given)
    → IsValid map
    → equal stored_key key ≡ true
    → valid key ≡ true
    → (result : Bool × StringMap) × (set_new map key stored_key owns value given.table_given
        ≡ some result)
      × Outcome map key value given result
unfolding set_new
set_new-Outcome map key stored_key owns value given v same ok =
    let ((done, prepared), made, grown) = prepare_capacity-Grown map given.table_given v in
    elim (Bool-cases done) [
      | inr undone ↦ (
        (false, release_value (release_key prepared owns stored_key) value),
        simp (set_new, made, undone) refl,
        failed-Outcome map prepared owns key stored_key value given
            (λ (ok', fine, key_given, table_given, can). sym undone ∙ grown.granted table_given can)
            grown.valid grown.entries,
      )
      | inl ready ↦
          let spare = grown.spare ready in
          elim (Option-cases prepared.slots) [
            | inl e ↦
                let cleared : IsCleared prepared = HasSlots-none prepared e grown.valid.has_slots in
                absurd (omega (arith, cleared.capacity))
            | inr (slots, e) ↦
                let (m, set, stores) =
                  set_slots-Stores prepared slots key stored_key owns value e grown.valid spare same
                    ok in
                (
                  (true, m),
                  simp (set_new, made, ready)
                      (set_prepared-slots prepared slots key stored_key owns value e ∙ set),
                  Stores-Outcome map prepared m key value given grown.entries stores,
                )
          ]
    ]
