-- ===== src/OwnedString/Types.antt =====
-- The data of the owned strings in src/string/string.c and include/ceasy/string/string.h.
use ceasy.Prelude.{ℕ, Bool, true, ◌||◌, Option, none, some, ltb, ◌==◌, if◌then◌else◌, size_max}
use ceasy.StringView.{StringView, null, view, size, valid}
use ceasy.OwnedString.Memory.{Bytes, read}

-- Which of the three functions are not NULL.
pub record Allocator : Type 0 where
  pub alloc : Bool
  pub realloc : Bool
  pub free : Bool

pub record OwnedString : Type 0 where
  pub storage : Option Bytes
  pub length : ℕ
  pub capacity : ℕ
  pub allocator : Allocator

-- A view that an operation takes: outside of the string's storage, or `length` bytes that begin at an
-- offset of it.
pub data Source : Type 0 where
  outside : StringView → Source
  inside : ℕ → ℕ → Source

pub data Run (A : Type 0) : Type 0 where
  fault : Run A
  ok : A → Run A

infixl 5 ◌>>=◌
abbrev pub ◌>>=◌ : {A B : Type 0} → Run A → (A → Run B) → Run B
fault >>= f = fault
ok a >>= f = f a

abbrev pub source_length : Source → ℕ
source_length (outside v) = size v
source_length (inside offset n) = n

abbrev pub source_valid : Source → Bool
source_valid (outside v) = valid v
source_valid (inside offset n) = true

-- string_storage_offset; a view outside of the storage does not begin in it.
unfoldable pub storage_offset : OwnedString → Source → Option ℕ
storage_offset string (outside v) = none
storage_offset string (inside offset n) = elim string.storage [
  | none ↦ none
  | some bytes ↦
      if string.capacity == size_max || ltb string.capacity offset then none else some offset
]

-- string_new
unfoldable pub new : Allocator → OwnedString
new allocator = record { storage = none; length = 0; capacity = 0; allocator = allocator }

-- string_as_view
unfoldable pub as_view : OwnedString → StringView
unfolding read
as_view string = elim string.storage [
  | none ↦ null 0
  | some bytes ↦ view (read bytes 0 string.length)
]

-- string_cstr up to the length
unfoldable pub is_empty : OwnedString → Bool
is_empty string = string.length == 0

-- `string->data`, where it is not NULL.
abbrev pub data_of : OwnedString → Run Bytes
data_of string = elim string.storage [ none ↦ fault | some bytes ↦ ok bytes ]
