-- ===== src/OwnedString/Contents.antt =====
-- When an owned string of src/string/string.c is well formed, and the text that it holds.
use ceasy.Prelude.{ℕ, ◌+◌, ◌≤◌, ◌<◌, ◌≡◌, Option, none, some, List, [], size_max, take, drop, true}
use ceasy.StringView.{bytes_of, valid}
use ceasy.OwnedString.Memory.{Bytes, read}
use ceasy.OwnedString.Types.{OwnedString, Source, outside, inside}

-- The text that the storage holds.
abbrev pub text : Option Bytes → ℕ → List ℕ
text none n = []
text (some bytes) n = read bytes 0 n

-- NULL has no bytes; other storage has the text and a NUL behind it, inside its capacity.
abbrev pub Stored : Option Bytes → ℕ → ℕ → Type 0
Stored none n capacity = (n ≡ 0) × (capacity ≡ 0)
Stored (some bytes) n capacity = (bytes n ≡ 0) × (n ≤ capacity) × (capacity < size_max)

pub record IsValid (s : OwnedString) : Type 0 where
  pub stored : Stored s.storage s.length s.capacity

abbrev pub contents : OwnedString → List ℕ
contents s = text s.storage s.length

-- A view that may be read: valid, and inside of the text if it begins in the storage.
abbrev pub Readable : OwnedString → Source → Type 0
Readable s (outside v) = valid v ≡ true
Readable s (inside offset n) = (offset + n ≤ s.length) × (0 < s.capacity)

abbrev pub source_text : OwnedString → Source → List ℕ
source_text s (outside v) = bytes_of v
source_text s (inside offset n) = take n (drop offset (contents s))
