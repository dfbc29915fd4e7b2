-- ===== src/StringMap/Found.antt =====
-- src/collection/string_map.c: what string_map_find_index finds.
use ceasy.Prelude.{
  ℕ, zero, suc, ◌+◌, ◌≤◌, ◌<◌, ◌≡◌, ◌≢◌, ◌⊎◌, inl, inr, refl, ap, sym, ◌∙◌, true, Option, none,
  some, arith,
}
use ceasy.StringView.{StringView, hash, equal}
use ceasy.StringView.Text.{equal_iff}
use ceasy.StringMap.Types.{Slot, Slots, slot_empty, slot_tombstone}
use native.Mathlib.Nat.{mod-lt}
use ceasy.StringMap.Probe.{find_loop, next_index, first_index, mark_tombstone, matches}
use ceasy.StringMap.Mask.{IsPower, probe, next_index_lem, next_index-lt, first_index_lem}
use ceasy.StringMap.Valid.{IsOccupied, Passes, IsTable, SlotState-cases}

pub equal_or_less : (d e : ℕ) → d ≤ e → (d ≡ e) ⊎ (d < e)
equal_or_less d e h = ground arith

module _ (slots : Slots) (capacity : ℕ) (power : IsPower capacity) (key : StringView) (h : ℕ) where
  abbrev search : ℕ → ℕ → Option ℕ → Option ℕ × Option ℕ
  search probes i t = find_loop slots capacity key h probes i t

  onward : (i d : ℕ) → i ≡ probe capacity h d → next_index capacity i ≡ probe capacity h (d + 1)
  onward i d e = ap (next_index capacity) e ∙ next_index_lem capacity h d power

  -- A slot that is found is in range, occupied and has the key.
  pub find_loop_sound :
      (probes i : ℕ) (t : Option ℕ) (r : ℕ)
      → i < capacity
      → (search probes i t).0 ≡ some r
      → (r < capacity) × IsOccupied (slots r) × (matches (slots r) key h ≡ true)
  unfolding find_loop
  find_loop_sound zero i t r inside found = ground arith
  find_loop_sound (suc probes) i t r inside found =
      let inside' = next_index-lt capacity i power in
      ground (
        arith,
        find_loop_sound probes (next_index capacity i) t r inside',
        find_loop_sound probes (next_index capacity i) (mark_tombstone t i) r inside',
      )

  -- The first tombstone stays the one that is noted.
  find_loop-keeps : (probes i x : ℕ) → (search probes i (some x)).1 ≡ some x
  unfolding find_loop
  find_loop-keeps zero i x = refl
  find_loop-keeps (suc probes) i x =
      ground (arith, find_loop-keeps probes (next_index capacity i) x)

  -- The one slot that has the key is found if the probe comes to it.
  module _ (target e : ℕ) (at : probe capacity h e ≡ target) (passes : Passes slots capacity h e)
      (occupied : IsOccupied (slots target)) (same : matches (slots target) key h ≡ true)
      (only : (j : ℕ)
        → j < capacity
        → IsOccupied (slots j)
        → matches (slots j) key h ≡ true
        → j ≡ target) where
    find_loop-hit :
        (probes i d : ℕ) (t : Option ℕ)
        → i ≡ probe capacity h d
        → i < capacity
        → d ≤ e
        → e < d + probes
        → (search probes i t).0 ≡ some target
    unfolding find_loop
    find_loop-hit zero i d t here inside le lt = absurd (omega arith)
    find_loop-hit (suc probes) i d t here inside le lt = elim (equal_or_less d e le) [
      | inl same_place ↦
          let at_target : i ≡ target = here ∙ ap (probe capacity h) same_place ∙ at in
          let occupied' : IsOccupied (slots i) = rw (at_target) occupied in
          let same' : matches (slots i) key h ≡ true = rw (at_target) same in ground arith
      | inr before ↦
          let further = find_loop-hit probes (next_index capacity i) (d + 1) in
          let full : (slots i).state ≢ slot_empty = rw (here) (passes d before) in
          let here' = onward i d here in
          let inside' = next_index-lt capacity i power in
          let one : (search probes (next_index capacity i) t).0 ≡ some target =
            further t here' inside' (omega arith) (omega arith) in
          let two : (search probes (next_index capacity i) (mark_tombstone t i)).0 ≡ some target =
            further (mark_tombstone t i) here' inside' (omega arith) (omega arith) in
          let only' = only i inside in ground arith
    ]

  -- Where the probe sees neither the key nor a tombstone, it passes no tombstone.
  pub find_loop-untombed :
      (probes i d e : ℕ)
      → i ≡ probe capacity h d
      → (search probes i none).0 ≡ none
      → (search probes i none).1 ≡ none
      → d ≤ e
      → e < d + probes
      → Passes slots capacity h e
      → (slots (probe capacity h e)).state ≢ slot_tombstone
  unfolding find_loop
  find_loop-untombed zero i d e here missed unmarked le lt passes = absurd (omega arith)
  find_loop-untombed (suc probes) i d e here missed unmarked le lt passes =
      let kept = find_loop-keeps probes (next_index capacity i) i in
      let here' = onward i d here in
      let further = find_loop-untombed probes (next_index capacity i) (d + 1) e here' in
      elim (equal_or_less d e le) [
        | inl same_place ↦
            let at : probe capacity h e ≡ i = ap (probe capacity h) (sym same_place) ∙ sym here in
            rw (at) (λ tombstone. ground arith)
        | inr before ↦
            let full : (slots i).state ≢ slot_empty = rw (here) (passes d before) in
            let le' : d + 1 ≤ e = omega arith in
            let lt' : e < d + 1 + probes = omega arith in ground arith
      ]

  -- The probe comes to the tombstone `x` before its step `d + probes`.
  abbrev pub Meets : ℕ → ℕ → ℕ → Type 0
  Meets d probes x =
      (e : ℕ) × (e < d + probes)
      × (probe capacity h e ≡ x)
      × Passes slots capacity h e
      × ((slots x).state ≡ slot_tombstone)

  pub Passes-suc :
      (d : ℕ)
      → Passes slots capacity h d
      → (slots (probe capacity h d)).state ≢ slot_empty
      → Passes slots capacity h (d + 1)
  Passes-suc d passes full e lt = elim (equal_or_less e d (omega arith)) [
    | inl same_place ↦ rw (same_place) full
    | inr before ↦ passes e before
  ]

  -- A tombstone that is noted is one that the probe comes to.
  pub find_loop-tombed :
      (probes i d x : ℕ)
      → i ≡ probe capacity h d
      → i < capacity
      → (search probes i none).1 ≡ some x
      → Passes slots capacity h d
      → Meets d probes x
  unfolding find_loop
  find_loop-tombed zero i d x here inside marked passes = absurd (ground arith)
  find_loop-tombed (suc probes) i d x here inside marked passes =
      let kept = find_loop-keeps probes (next_index capacity i) i in
      elim (SlotState-cases (slots i).state) [
        | inl empty ↦ absurd (ground arith)
        | inr (inl tombstone) ↦
            let found : i ≡ x = ground arith in
            (d, omega arith, sym here ∙ found, passes, rw (← found) tombstone)
        | inr (inr occupied) ↦
            let full : (slots (probe capacity h d)).state ≢ slot_empty =
              rw (← here) (λ empty. ground arith) in
            let marked' : (search probes (next_index capacity i) none).1 ≡ some x = ground arith in
            let (e, e_lt, at, passed, tombstone) =
              find_loop-tombed probes (next_index capacity i) (d + 1) x (onward i d here)
                (next_index-lt capacity i power) marked' (Passes-suc d passes full) in
            (e, omega arith, at, passed, tombstone)
      ]

-- Equal keys have one hash.
pub hash-equal : (a b : StringView) → equal a b ≡ true → hash a ≡ hash b
unfolding hash
hash-equal a b h = let (left, right, same) = (equal_iff a b).0 h in rw (left, right, same) refl

pub equal_sym : (a b : StringView) → equal a b ≡ true → equal b a ≡ true
equal_sym a b h =
    let (left, right, same) = (equal_iff a b).0 h in (equal_iff b a).1 (right, left, sym same)

pub equal_trans : (a b c : StringView) → equal a b ≡ true → equal b c ≡ true → equal a c ≡ true
equal_trans a b c h k =
    let (left, right, same) = (equal_iff a b).0 h in
    let (left', right', same') = (equal_iff b c).0 k in
    (equal_iff a c).1 (left, right', same ∙ same')

pub matches-equal :
    (slot : Slot) (key : StringView) (h : ℕ) → matches slot key h ≡ true → equal slot.key key ≡ true
matches-equal slot key h m = ground arith

pub matches_of_equal :
    (slot : Slot) (key : StringView) (h : ℕ)
    → slot.hash ≡ h
    → equal slot.key key ≡ true
    → matches slot key h ≡ true
matches_of_equal slot key h e m = ground arith

-- In a well-formed table the search finds the slot that has the key.
pub find_loop_lem :
    (slots : Slots) (capacity : ℕ) (key : StringView)
    → IsTable slots capacity
    → (i : ℕ) → i < capacity
    → IsOccupied (slots i)
    → equal (slots i).key key ≡ true
    → (find_loop slots capacity key (hash key) capacity (first_index capacity (hash key)) none).0
      ≡ some i
find_loop_lem slots capacity key table i inside occupied same =
    let hashed : (slots i).hash ≡ hash key =
      table.hashed i inside occupied ∙ hash-equal (slots i).key key same in
    let (d, d_lt, at, passes) = table.reached i inside occupied in
    let matched : matches (slots i) key (hash key) ≡ true =
      matches_of_equal (slots i) key (hash key) hashed same in
    let start = first_index_lem capacity (hash key) table.power in
    find_loop-hit slots capacity table.power key (hash key) i d (rw (← hashed) at)
      (rw (← hashed) passes) occupied matched
      (λ j j_lt j_occupied j_same. table.unique j i j_lt inside j_occupied occupied (
        equal_trans (slots j).key key (slots i).key (matches-equal (slots j) key (hash key) j_same)
          (equal_sym (slots i).key key same)))
      capacity (first_index capacity (hash key)) 0 none start
      (rw (start) (mod-lt (hash key + 0) {m = capacity} (omega arith))) (omega arith) (omega arith)
