-- ===== src/OwnedString/Tests.antt =====
-- Runs of the owned strings.
use ceasy.Prelude.{◌++◌, map, arith, ◌≡◌, refl, true, Option, some, codes, []}
use ceasy.OwnedString.Contents.{IsValid, contents, source_text}
use ceasy.OwnedString.Append.{Edited, append-Edited}
use ceasy.OwnedString.Insert.{prepend-Edited, copy-Edited, copy-fault}
use ceasy.OwnedString.Change.{
  Removed, remove-Removed, capitals, small_letters, translated, upper-lower,
}
use ceasy.OwnedString.Replaced.{Replacement, replace_build-Replacement, new-IsValid}
use ceasy.OwnedString.Succeeds.{append_succeeds}
use ceasy.StringView.{view, find, from, slice}
use ceasy.StringView.Bytes.{same}
use ceasy.OwnedString.Memory.{Bytes, write, move, put, read}
use ceasy.OwnedString.Types.{
  Allocator, OwnedString, outside, inside, fault, ok, ◌>>=◌, new, as_view, storage_offset,
}
use ceasy.OwnedString.Reserve.{reserve, doubled, new_capacity, obtain, copied, terminated}
use ceasy.OwnedString.Edit.{string_from, append, prepend, copy, fill, remove, upper, lower}
use ceasy.OwnedString.Replace.{replace_loop, replace_build, replace_all, then_append, ended}

abbrev heap : Allocator
heap = record { alloc = true; realloc = true; free = true }

abbrev memory : Option Bytes
memory = some (λ i. 170)

abbrev hello : OwnedString
hello = string_from heap (view (codes "hello")) memory

program : Unit {0}
unfolding write move put read new as_view storage_offset reserve doubled new_capacity obtain copied
    terminated string_from append prepend copy fill remove upper find from slice same replace_loop
    replace_build replace_all then_append ended
program = tt

hello-view : as_view hello ≡ view (codes "hello")
unfolding program
hello-view = refl

-- A view of the string's own end is appended, and put in front.
append-inside :
    (append hello (inside 2 3) memory >>= λ r. ok (as_view r.1)) ≡ ok (view (codes "hellollo"))
unfolding program
append-inside = refl

prepend-inside :
    (prepend hello (inside 2 3) memory >>= λ r. ok (as_view r.1)) ≡ ok (view (codes "llohello"))
unfolding program
prepend-inside = refl

replaces_all :
    (replace_all hello (view (codes "l")) (view (codes "[l]")) (λ k. memory) >>= λ r.
    ok (as_view r.1))
    ≡ ok (view (codes "he[l][l]o"))
unfolding program
replaces_all = refl

copy_empty : copy (new heap) (outside (view [])) memory ≡ fault
unfolding program
copy_empty = refl

-- "hello" in 16 bytes of storage.
abbrev greeting : OwnedString
greeting = record {
  storage = some (put (λ i. 0) 0 (codes "hello"));
  length = 5;
  capacity = 16;
  allocator = heap;
}

greeting-IsValid : IsValid greeting
unfolding program
greeting-IsValid = record { stored = (refl, omega arith, omega arith) }

append-Edited_example :
    Edited greeting
      (contents greeting ++ source_text greeting (inside 2 3))
      (append greeting (inside 2 3) memory)
append-Edited_example =
    append-Edited greeting (inside 2 3) memory greeting-IsValid (omega arith, omega arith)

append_succeeds_example : (s' : OwnedString) × (append greeting (inside 2 3) memory ≡ ok (true, s'))
append_succeeds_example =
    append_succeeds greeting (inside 2 3) (λ i. 170) greeting-IsValid (omega arith, omega arith)
      refl (omega arith)

prepend-Edited_example :
    Edited greeting
      (source_text greeting (inside 2 3) ++ contents greeting)
      (prepend greeting (inside 2 3) memory)
prepend-Edited_example =
    prepend-Edited greeting (inside 2 3) memory greeting-IsValid (omega arith, omega arith)

copy-Edited_example :
    Edited greeting (source_text greeting (inside 1 4)) (copy greeting (inside 1 4) memory)
copy-Edited_example =
    copy-Edited greeting (inside 1 4) memory greeting-IsValid (omega arith, omega arith) (λ e. refl)
      (omega arith)

copy-fault_example : copy (new heap) (outside (view [])) memory ≡ fault
copy-fault_example =
    copy-fault (new heap) (outside (view [])) memory (new-IsValid heap) (unfold new in refl) refl
      refl

remove-Removed_example : Removed greeting 1 3 (remove greeting 1 3)
remove-Removed_example = remove-Removed greeting 1 3 greeting-IsValid

upper-lower_example :
    IsValid (upper greeting)
    × (contents (upper greeting) ≡ map (translated small_letters capitals) (contents greeting))
    × IsValid (lower greeting)
    × (contents (lower greeting) ≡ map (translated capitals small_letters) (contents greeting))
upper-lower_example = upper-lower greeting greeting-IsValid

replace_build-Replacement_example :
    Replacement greeting
      (codes "l")
      (codes "[l]")
      true
      (replace_build greeting (view (codes "l")) (view (codes "[l]")) true (λ k. memory))
replace_build-Replacement_example =
    replace_build-Replacement greeting (put (λ i. 0) 0 (codes "hello")) (codes "l")
      (view (codes "[l]")) true (λ k. memory) greeting-IsValid refl (omega arith) refl
