-- ===== src/OwnedString/Edit.antt =====
-- The functions of src/string/string.c that change an owned string in place. Each returns whether it
-- succeeds, and the string.
use ceasy.Prelude.{
  ℕ, ◌+◌, ◌-◌, Bool, true, false, not, ◌&&◌, ◌||◌, Option, none, some, List, [], ◌∷◌, ltb, leb,
  ◌==◌, if◌then◌else◌, size_max, length,
}
use ceasy.StringView.{StringView, view, size, bytes_of, valid, from_cstr}
use ceasy.OwnedString.Memory.{Bytes, write, move, put}
use ceasy.OwnedString.Types.{
  Allocator, OwnedString, Source, outside, inside, source_length, source_valid, storage_offset, Run,
  fault, ok, ◌>>=◌, new, data_of,
}
use ceasy.OwnedString.Reserve.{reserve}

-- string_from
unfoldable pub string_from : Allocator → StringView → Option Bytes → OwnedString
unfolding new reserve
string_from allocator value fresh =
    let (done, string) = reserve (new allocator) (size value) fresh in
    if not (valid value) then new allocator else if not done then string else record string {
      length = size value;
      storage = elim string.storage [
        | none ↦ none
        | some bytes ↦ some (write (put bytes 0 (bytes_of value)) (size value) 0)
      ];
    }

-- `memmove(data + target, value.data, value.length)`, where a view that begins in the storage has been
-- rebased and lies `shift` bytes further on; without a place there it points to memory that is gone.
unfoldable pub fill : Bytes → ℕ → Source → Option ℕ → ℕ → Run Bytes
fill bytes target (outside value) offset shift = ok (put bytes target (bytes_of value))
fill bytes target (inside start n) none shift = fault
fill bytes target (inside start n) (some offset) shift = ok (move bytes target (offset + shift) n)

-- string_append
unfoldable pub append : OwnedString → Source → Option Bytes → Run (Bool × OwnedString)
unfolding storage_offset reserve fill write
append string value fresh =
    let n = source_length value in
    let required = string.length + n in
    let offset = storage_offset string value in
    let (done, string') = reserve string required fresh in
    if not (source_valid value) || ltb (size_max - string.length) n
    then ok (false, string)
    else if n == 0
    then ok (true, string)
    else if not done
    then ok (false, string')
    else do
      bytes ← data_of string'
      bytes' ← fill bytes string'.length value offset 0
      ok (true, record string' { storage = some (write bytes' required 0); length = required })

-- string_append_char
unfoldable pub append_char : OwnedString → ℕ → Option Bytes → Run (Bool × OwnedString)
append_char string c fresh = append string (outside (view (c ∷ []))) fresh

-- string_append_cstr
unfoldable pub append_cstr : OwnedString → Option (List ℕ) → Option Bytes → Run (Bool × OwnedString)
append_cstr string text fresh = append string (outside (from_cstr text)) fresh

-- string_append_format_v, where `formatted` is what vsnprintf formats, or `none` where it fails. It
-- writes a NUL behind the text.
unfoldable pub append_formatted :
    OwnedString → Option (List ℕ) → Option Bytes → Run (Bool × OwnedString)
unfolding reserve put write
append_formatted string none fresh = ok (false, string)
append_formatted string (some text) fresh =
    let old_length = string.length in
    let (done, string') = reserve string (old_length + length text) fresh in
    let available = string'.capacity - old_length + 1 in
    if ltb (size_max - old_length) (length text)
    then ok (false, string)
    else if not done
    then ok (false, string')
    else do
      bytes ← data_of string'
      (if leb available (length text)
          then ok (false, record string' { storage = some (write bytes old_length 0) })
          else ok (
            true,
            record string' {
              storage = some (write (put bytes old_length text) (old_length + length text) 0);
              length = old_length + length text;
            },
          ))

-- string_prepend
unfoldable pub prepend : OwnedString → Source → Option Bytes → Run (Bool × OwnedString)
unfolding storage_offset reserve fill write move
prepend string value fresh =
    let n = source_length value in
    let old_length = string.length in
    let offset = storage_offset string value in
    let too_far : Bool = elim offset [ none ↦ false | some o ↦ ltb (size_max - n) o ] in
    let (done, string') = reserve string (old_length + n) fresh in
    if not (source_valid value) || ltb (size_max - old_length) n
    then ok (false, string)
    else if n == 0
    then ok (true, string)
    else if not done || too_far
    then ok (false, string')
    else do
      bytes ← data_of string'
      bytes' ← fill (move bytes n 0 (old_length + 1)) 0 value offset n
      ok (
        true,
        record string' {
          storage = some (write bytes' (old_length + n) 0);
          length = old_length + n;
        },
      )

-- string_copy
unfoldable pub copy : OwnedString → Source → Option Bytes → Run (Bool × OwnedString)
unfolding storage_offset reserve fill write
copy string value fresh =
    let n = source_length value in
    let offset = storage_offset string value in
    let (done, string') = reserve string n fresh in
    if not (source_valid value)
    then ok (false, string)
    else if not done
    then ok (false, string')
    else do
      bytes ← data_of string'
      bytes' ← (if n == 0 then ok bytes else fill bytes 0 value offset 0)
      ok (true, record string' { storage = some (write bytes' n 0); length = n })

-- string_clear
unfoldable pub clear : OwnedString → OwnedString
unfolding write
clear string = record string {
  length = 0;
  storage = elim string.storage [ none ↦ none | some bytes ↦ some (write bytes 0 0) ];
}

-- The bytes below `n` through `f`, as the loops of string_upper and string_lower change them.
unfoldable pub each : (ℕ → ℕ) → ℕ → Bytes → Bytes
each f n bytes i = if ltb i n then f (bytes i) else bytes i

unfoldable pub to_upper : ℕ → ℕ
to_upper c = if leb b'a' c && leb c b'z' then c - b'a' + b'A' else c

unfoldable pub to_lower : ℕ → ℕ
to_lower c = if leb b'A' c && leb c b'Z' then c - b'A' + b'a' else c

unfoldable pub upper : OwnedString → OwnedString
unfolding each to_upper
upper string = record string {
  storage = elim string.storage [
    | none ↦ none
    | some bytes ↦ some (each to_upper string.length bytes)
  ];
}

unfoldable pub lower : OwnedString → OwnedString
unfolding each to_lower
lower string = record string {
  storage = elim string.storage [
    | none ↦ none
    | some bytes ↦ some (each to_lower string.length bytes)
  ];
}

-- string_remove
unfoldable pub remove : OwnedString → ℕ → ℕ → Bool × OwnedString
unfolding move
remove string start n =
    let remaining = string.length - start in
    let n' = (if ltb remaining n then remaining else n) in
    if ltb string.length start then (false, string) else elim string.storage [
      | none ↦ (n' == 0, string)
      | some bytes ↦ (
        true,
        record string {
          storage = some (move bytes start (start + n') (remaining - n' + 1));
          length = string.length - n';
        },
      )
    ]

-- string_destroy; the storage is freed.
unfoldable pub destroy : OwnedString → OwnedString
destroy string = record {
  storage = none;
  length = 0;
  capacity = 0;
  allocator = record { alloc = false; realloc = false; free = false };
}
