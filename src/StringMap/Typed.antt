-- ===== src/StringMap/Typed.antt =====
-- src/collection/string_map.c: the getters of one type of value.
use ceasy.Prelude.{
  ℕ, ◌≡◌, ◌↔◌, inl, inr, refl, ap, sym, ◌∙◌, Bool, Option, none, some, Option-cases, arith,
}
use ceasy.Prelude.Int.{ℤ}
use ceasy.StringView.{StringView}
use ceasy.StringMap.Types.{
  StringMap, StringMapValue, Payload, int64_value, bool_value, string_value, pointer_value,
}
use ceasy.StringMap.Lookup.{get, get_int, get_bool, get_string, get_pointer}
use ceasy.StringMap.Valid.{IsValid, Maps}
use ceasy.StringMap.Got.{get_iff}

-- The map has a value of this content for the key.
abbrev pub HasPayload : StringMap → StringView → Payload → Type 0
HasPayload map key payload =
    (value : StringMapValue) × Maps map key value × (value.payload ≡ payload)

-- A getter that reads the content by `read`, which accepts one type of content.
module _ {A : Type 0} (read : Payload → Option A) (content : A → Payload)
    (read_content : (a : A) → read (content a) ≡ some a)
    (content_read : (payload : Payload) (a : A) → read payload ≡ some a → payload ≡ content a)
    (map : StringMap) (key : StringView) (v : IsValid map) where
  abbrev read_value : Option StringMapValue → Option A
  read_value found = elim found [ none ↦ none | some value ↦ read value.payload ]

  read_iff : (a : A) → (read_value (get map key) ≡ some a) ↔ HasPayload map key (content a)
  read_iff a = (
    λ got. elim (Option-cases (get map key)) [
      | inl e ↦ absurd (nothing a (sym (ap read_value e) ∙ got))
      | inr (value, e) ↦ (
        value,
        (get_iff map key value v).0 e,
        content_read value.payload a (sym (ap read_value e) ∙ got),
      )
    ],
    λ (value, maps, is).
        ap read_value ((get_iff map key value v).1 maps) ∙ ap read is ∙ read_content a,
  )
    where
      nothing : (b : A) → ¬ (none ≡ some b)
      nothing b h = ground arith

abbrev read_int : Payload → Option ℤ
read_int payload = elim payload [ int64_value n ↦ some n | _ ↦ none ]

abbrev read_bool : Payload → Option Bool
read_bool payload = elim payload [ bool_value b ↦ some b | _ ↦ none ]

abbrev read_string : Payload → Option StringView
read_string payload = elim payload [ string_value s ↦ some s | _ ↦ none ]

abbrev read_pointer : Payload → Option (Option ℕ)
read_pointer payload = elim payload [ pointer_value p ↦ some p | _ ↦ none ]

int_read : (payload : Payload) (n : ℤ) → read_int payload ≡ some n → payload ≡ int64_value n
int_read payload n h = ground arith

bool_read : (payload : Payload) (b : Bool) → read_bool payload ≡ some b → payload ≡ bool_value b
bool_read payload b h = ground arith

string_read :
    (payload : Payload) (s : StringView) → read_string payload ≡ some s → payload ≡ string_value s
string_read payload s h = ground arith

pointer_read :
    (payload : Payload) (p : Option ℕ) → read_pointer payload ≡ some p → payload ≡ pointer_value p
pointer_read payload p h = ground arith

-- On a well-formed map each of sm_get_int, sm_get_bool, sm_get_string and sm_get_pointer returns a
-- content exactly where the map has a value of its type with that content for the key.
pub getters_iff :
    (map : StringMap) (key : StringView)
    → IsValid map
    → ((n : ℤ) → (get_int map key ≡ some n) ↔ HasPayload map key (int64_value n))
      × ((b : Bool) → (get_bool map key ≡ some b) ↔ HasPayload map key (bool_value b))
      × ((s : StringView) → (get_string map key ≡ some s) ↔ HasPayload map key (string_value s))
      × ((p : Option ℕ) → (get_pointer map key ≡ some p) ↔ HasPayload map key (pointer_value p))
unfolding get_int get_bool get_string get_pointer
getters_iff map key v = (
  read_iff read_int int64_value (λ n. refl) int_read map key v,
  read_iff read_bool bool_value (λ b. refl) bool_read map key v,
  read_iff read_string string_value (λ s. refl) string_read map key v,
  read_iff read_pointer pointer_value (λ p. refl) pointer_read map key v,
)
