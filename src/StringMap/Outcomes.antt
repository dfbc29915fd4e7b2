-- ===== src/StringMap/Outcomes.antt =====
-- src/collection/string_map.c: what string_map_set_internal leaves, and when it stores the value.
use ceasy.Prelude.{
  ◌≡◌, ◌≢◌, inl, inr, refl, sym, ◌∙◌, Bool, true, false, not, ◌||◌, none, some, [], ◌∷◌, ltb,
  Bool-cases, Option-cases, arith,
}
use ceasy.StringView.{StringView, null, view, size, hash, equal, valid}
use ceasy.StringView.Text.{equal_iff}
use ceasy.StringMap.Types.{StringMap, StringMapValue, initialized, copy_bytes}
use ceasy.StringMap.Probe.{find_index}
use ceasy.StringMap.Edit.{
  Given, refused, release_value, replace_value, set_absent, set_checked, set_internal,
}
use ceasy.StringMap.Valid.{IsValid}
use ceasy.StringMap.Got.{found-HasKey, some_injective}
use ceasy.StringMap.Setting.{replace_value-only}
use ceasy.StringMap.Stored.{overwritten, overwritten-Stores}
use ceasy.StringMap.NewKey.{Outcome, failed-Outcome, Stores-Outcome, set_new-Outcome}

-- The stored form of a key is equal to it.
copy_bytes-equal :
    (key copy : StringView) (given : Bool)
    → valid key ≡ true
    → copy_bytes key given ≡ some copy
    → equal copy key ≡ true
unfolding copy_bytes
copy_bytes-equal (null n) copy given ok made =
    (equal_iff copy (null n)).1 (ground arith, ok, ground arith)
copy_bytes-equal (view []) copy given ok made =
    (equal_iff copy (view [])).1 (ground arith, ok, ground arith)
copy_bytes-equal (view (b ∷ bs)) copy given ok made =
    (equal_iff copy (view (b ∷ bs))).1 (ground arith, ok, ground arith)

copy_bytes-given :
    (key : StringView) (given : Bool)
    → valid key ≡ true
    → given ≡ true
    → copy_bytes key given ≢ none
unfolding copy_bytes
copy_bytes-given (null n) given ok g h = ground arith
copy_bytes-given (view []) given ok g h = ground arith
copy_bytes-given (view (b ∷ bs)) given ok g h = ground arith

set_absent-Outcome :
    (map : StringMap) (key : StringView) (value : StringMapValue) (copy_key : Bool) (given : Given)
    → IsValid map
    → valid key ≡ true
    → (result : Bool × StringMap) × (set_absent map key value copy_key given ≡ some result)
      × Outcome map key value given result
unfolding set_absent
set_absent-Outcome map key value false given v ok =
    let same : equal key key ≡ true = (equal_iff key key).1 (ok, ok, refl) in
    set_new-Outcome map key key false value given v same ok
set_absent-Outcome map key value true given v ok =
    elim (Option-cases (copy_bytes key given.key_given)) [
      | inl none_made ↦ (
        (false, release_value map value),
        simp (set_absent, none_made) refl,
        failed-Outcome map map false key key value given
            (λ (ok', fine, key_given, table_given, can).
              absurd (copy_bytes-given key given.key_given ok key_given none_made))
            v (λ key' value'. (λ m. m, λ m. m)),
      )
      | inr (copy, made) ↦
          let (result, set, outcome) =
            set_new-Outcome map key copy (ltb 0 (size copy)) value given v
              (copy_bytes-equal key copy given.key_given ok made) ok in
          (result, simp (set_absent, made) set, outcome)
    ]

set_checked-Outcome :
    (map : StringMap) (key : StringView) (value : StringMapValue) (copy_key : Bool) (given : Given)
    → IsValid map
    → valid key ≡ true
    → (result : Bool × StringMap) × (set_checked map key value copy_key given ≡ some result)
      × Outcome map key value given result
unfolding set_checked
set_checked-Outcome map key value copy_key given v ok =
    let (absent, made, outcome) = set_absent-Outcome map key value copy_key given v ok in
    elim (Option-cases map.slots) [
      | inl e ↦ (absent, simp (set_checked, e) made, outcome)
      | inr (slots, e) ↦ elim (Option-cases (find_index map key (hash key)).0) [
        | inl missed ↦ (absent, simp (set_checked, e, missed) made, outcome)
        | inr (i, found) ↦
            let (inside, occupied, same) = found-HasKey map slots key i e v ok found in
            (
              (true, replace_value map slots i value),
              simp (set_checked, e, found) refl,
              rw (replace_value-only map slots false key i value v.ready) (
                  Stores-Outcome map map
                    (overwritten map slots i value (release_value map (slots i).value).released) key
                    value given (λ key' value'. (λ m. m, λ m. m))
                    (overwritten-Stores map slots key value i
                      (release_value map (slots i).value).released e v inside occupied same)),
            )
      ]
    ]

-- On a well-formed map the setting of a value returns. If it returns true the value is stored for the
-- key, the other keys have what they had, and the map is well formed; if it returns false the map has
-- what it had. It returns true if the arguments are good, and there is memory for the key and for a
-- larger table.
pub set_internal-Outcome :
    (map : StringMap) (key : StringView) (value : StringMapValue) (copy_key : Bool) (given : Given)
    → IsValid map
    → (result : Bool × StringMap) × (set_internal map key value copy_key given ≡ some result)
      × Outcome map key value given result
unfolding set_internal
set_internal-Outcome map key value copy_key given v =
    elim (Bool-cases (not (initialized map) || not (valid key) || refused value)) [
      | inl bad ↦ (
        (false, release_value map value),
        rw (bad) refl,
        failed-Outcome map map false key key value given
            (λ (ok, fine, key_given, table_given, can). absurd (ground (arith, v.ready))) v
            (λ key' value'. (λ m. m, λ m. m)),
      )
      | inr good ↦
          let ok : valid key ≡ true = ground arith in
          let (result, made, outcome) = set_checked-Outcome map key value copy_key given v ok in
          (result, rw (good) made, outcome)
    ]

-- Whatever the setting of a value returns is a well-formed map.
pub set_internal-IsValid :
    (map : StringMap) (key : StringView) (value : StringMapValue) (copy_key : Bool) (given : Given)
    (result : Bool × StringMap)
    → IsValid map
    → set_internal map key value copy_key given ≡ some result
    → IsValid result.1
set_internal-IsValid map key value copy_key given result v set =
    let (other, made, outcome) = set_internal-Outcome map key value copy_key given v in
    let same : other ≡ result = some_injective other result (sym made ∙ set) in
    elim (Bool-cases other.0) [
      | inl held ↦ coe 0 1 (i. IsValid (same i).1) (outcome.stored held).valid
      | inr unheld ↦ coe 0 1 (i. IsValid (same i).1) (outcome.failed unheld).0
    ]
