-- ===== src/StringMap/Got.antt =====
-- src/collection/string_map.c: what sm_get and the getters return.
use ceasy.Prelude.{
  ℕ, ◌<◌, ◌≡◌, ◌≢◌, ◌↔◌, inl, inr, refl, ap, sym, ◌∙◌, true, false, none, some, ◌==◌, Option-cases,
  Bool-cases, arith,
}
use ceasy.StringView.{StringView, hash, equal, valid}
use ceasy.StringView.Text.{equal_iff}
use ceasy.StringMap.Types.{Slots, StringMap, StringMapValue, initialized}
use ceasy.StringMap.Probe.{find_loop, find_index, first_index}
use ceasy.StringMap.Lookup.{get}
use ceasy.StringMap.Mask.{first_index-lt}
use ceasy.StringMap.Valid.{
  IsOccupied, IsTable, IsCounted, IsCleared, IsValid, HasEntry, HasSlots, Maps,
}
use ceasy.StringMap.Found.{equal_sym, equal_trans, find_loop_lem, find_loop_sound, matches-equal}

pub HasSlots-none : (map : StringMap) → map.slots ≡ none → HasSlots map → IsCleared map
HasSlots-none map e h = coe 0 1 (i. same i) h
  where
    same : HasSlots map ≡ IsCleared map
    same = rw (e) refl

pub HasSlots-some :
    (map : StringMap) (slots : Slots)
    → map.slots ≡ some slots
    → HasSlots map
    → IsTable slots map.capacity × IsCounted slots map
HasSlots-some map slots e h = coe 0 1 (i. same i) h
  where
    same : HasSlots map ≡ (IsTable slots map.capacity × IsCounted slots map)
    same = rw (e) refl

pub Maps-some :
    (map : StringMap) (slots : Slots) (key : StringView) (value : StringMapValue)
    → map.slots ≡ some slots
    → Maps map key value ↔ HasEntry slots map.capacity key value
Maps-some map slots key value e = (λ m. coe 0 1 (i. same i) m, λ m. coe 1 0 (i. same i) m)
  where
    same : Maps map key value ≡ HasEntry slots map.capacity key value
    same = rw (e) refl

-- The search on a well-formed map with slots is its loop.
pub find_index-some :
    (map : StringMap) (slots : Slots) (key : StringView) (h : ℕ)
    → map.slots ≡ some slots
    → initialized map ≡ true
    → 0 < map.capacity
    → valid key ≡ true
    → find_index map key h
      ≡ find_loop slots map.capacity key h map.capacity (first_index map.capacity h) none
unfolding find_index
find_index-some map slots key h e ready positive ok =
    let positive' : (map.capacity == 0) ≡ false = ground arith in rw (e, ready, ok, positive') refl

pub find_index_lem :
    (map : StringMap) (slots : Slots) (key : StringView)
    → map.slots ≡ some slots
    → IsValid map
    → valid key ≡ true
    → find_index map key (hash key)
      ≡ find_loop slots map.capacity key
          (hash key)
          map.capacity
          (first_index map.capacity (hash key))
          none
find_index_lem map slots key e v ok =
    let (table, counted) = HasSlots-some map slots e v.has_slots in
    find_index-some map slots key (hash key) e v.ready (omega (arith, counted.room)) ok

pub entry-found :
    (map : StringMap) (slots : Slots) (key : StringView) (i : ℕ)
    → map.slots ≡ some slots
    → IsValid map
    → valid key ≡ true
    → i < map.capacity
    → IsOccupied (slots i)
    → equal (slots i).key key ≡ true
    → (find_index map key (hash key)).0 ≡ some i
entry-found map slots key i e v ok inside occupied same =
    let (table, counted) = HasSlots-some map slots e v.has_slots in
    ap (λ p. p.0) (find_index_lem map slots key e v ok)
    ∙ find_loop_lem slots map.capacity key table i inside occupied same

get-some :
    (map : StringMap) (slots : Slots) (key : StringView) (i : ℕ)
    → map.slots ≡ some slots
    → valid key ≡ true
    → (find_index map key (hash key)).0 ≡ some i
    → get map key ≡ some (slots i).value
unfolding get
get-some map slots key i e ok found = rw (ok, e, found) refl

pub some_injective {ℓ} : {A : Type ℓ} (a b : A) → some a ≡ some b → a ≡ b
some_injective a b h = ground arith

not_none {ℓ} : {A : Type ℓ} (a : A) → none ≢ some a
not_none a h = ground arith

get-found :
    (map : StringMap) (slots : Slots) (key : StringView) (value : StringMapValue)
    → map.slots ≡ some slots
    → valid key ≡ true
    → get map key ≡ some value
    → (i : ℕ) × ((find_index map key (hash key)).0 ≡ some i) × ((slots i).value ≡ value)
unfolding get
get-found map slots key value e ok got = elim (Option-cases (find_index map key (hash key)).0) [
  | inl missed ↦ absurd (not_none value (sym (nothing missed) ∙ got))
  | inr (i, found) ↦ (
    i,
    found,
    some_injective (slots i).value value (sym (get-some map slots key i e ok found) ∙ got),
  )
]
  where
    nothing : (find_index map key (hash key)).0 ≡ none → get map key ≡ none
    nothing missed = rw (ok, e, missed) refl

-- A slot that is found in a well-formed map has the key.
pub found-HasKey :
    (map : StringMap) (slots : Slots) (key : StringView) (i : ℕ)
    → map.slots ≡ some slots
    → IsValid map
    → valid key ≡ true
    → (find_index map key (hash key)).0 ≡ some i
    → (i < map.capacity) × IsOccupied (slots i) × (equal (slots i).key key ≡ true)
found-HasKey map slots key i e v ok found =
    let (table, counted) = HasSlots-some map slots e v.has_slots in
    let found' = sym (ap (λ p. p.0) (find_index_lem map slots key e v ok)) ∙ found in
    let start = first_index-lt map.capacity (hash key) table.power in
    let (inside, occupied, same) =
      find_loop_sound slots map.capacity table.power key (hash key) map.capacity
        (first_index map.capacity (hash key)) none i start found' in
    (inside, occupied, matches-equal (slots i) key (hash key) same)

get-none : (map : StringMap) (key : StringView) → map.slots ≡ none → get map key ≡ none
unfolding get
get-none map key e = elim (Bool-cases (valid key)) [
  | inl ok ↦ rw (ok, e) refl
  | inr bad ↦ rw (bad) refl
]

pub Maps-none :
    (map : StringMap) (key : StringView) (value : StringMapValue)
    → map.slots ≡ none
    → ¬ Maps map key value
Maps-none map key value e m = coe 0 1 (i. same i) m
  where
    same : Maps map key value ≡ ⊥
    same = rw (e) refl

-- A key that is not found is one that the map does not have.
pub missed-Maps :
    (map : StringMap) (key : StringView) (value : StringMapValue)
    → IsValid map
    → valid key ≡ true
    → (find_index map key (hash key)).0 ≡ none
    → ¬ Maps map key value
missed-Maps map key value v ok missed maps = elim (Option-cases map.slots) [
  | inl e ↦ Maps-none map key value e maps
  | inr (slots, e) ↦
      let (i, inside, occupied, same, at) = (Maps-some map slots key value e).0 maps in
      not_none i (sym missed ∙ entry-found map slots key i e v ok inside occupied same)
]

-- A view that is not valid is no key.
pub Maps-valid :
    (map : StringMap) (key : StringView) (value : StringMapValue)
    → Maps map key value
    → valid key ≡ true
Maps-valid map key value maps = elim (Option-cases map.slots) [
  | inl e ↦ absurd (Maps-none map key value e maps)
  | inr (slots, e) ↦
      let (i, inside, occupied, same, at) = (Maps-some map slots key value e).0 maps in
      let (left, right, bytes) = (equal_iff (slots i).key key).0 same in right
]

-- Equal keys have the same value.
pub Maps-equal :
    (map : StringMap) (key key' : StringView) (value : StringMapValue)
    → equal key key' ≡ true
    → Maps map key' value
    → Maps map key value
Maps-equal map key key' value alike maps = elim (Option-cases map.slots) [
  | inl e ↦ absurd (Maps-none map key' value e maps)
  | inr (slots, e) ↦
      let (i, inside, occupied, same, at) = (Maps-some map slots key' value e).0 maps in
      (Maps-some map slots key value e).1 (
        i,
        inside,
        occupied,
        equal_trans (slots i).key key' key same (equal_sym key key' alike),
        at,
      )
]

get-invalid : (map : StringMap) (key : StringView) → valid key ≡ false → get map key ≡ none
unfolding get
get-invalid map key bad = rw (bad) refl

valid_get_iff :
    (map : StringMap) (key : StringView) (value : StringMapValue)
    → IsValid map
    → valid key ≡ true
    → (get map key ≡ some value) ↔ Maps map key value
valid_get_iff map key value v ok = elim (Option-cases map.slots) [
  | inl e ↦ (
    λ got. absurd (not_none value (sym (get-none map key e) ∙ got)),
    λ maps. absurd (Maps-none map key value e maps),
  )
  | inr (slots, e) ↦ (
    λ got.
        let (i, found, at) = get-found map slots key value e ok got in
        let (inside, occupied, same) = found-HasKey map slots key i e v ok found in
        (Maps-some map slots key value e).1 (i, inside, occupied, same, at),
    λ maps.
        let (i, inside, occupied, same, at) = (Maps-some map slots key value e).0 maps in
        get-some map slots key i e ok (entry-found map slots key i e v ok inside occupied same)
        ∙ ap some at,
  )
]

-- `sm_get` on a well-formed map returns exactly what the map has for the key.
pub get_iff :
    (map : StringMap) (key : StringView) (value : StringMapValue)
    → IsValid map
    → (get map key ≡ some value) ↔ Maps map key value
get_iff map key value v = elim (Bool-cases (valid key)) [
  | inl ok ↦ valid_get_iff map key value v ok
  | inr bad ↦ (
    λ got. absurd (not_none value (sym (get-invalid map key bad) ∙ got)),
    λ maps. absurd (ground (arith, Maps-valid map key value maps)),
  )
]
