-- ===== src/Html/Tests.antt =====
-- Runs of the escaping of text.
use ceasy.Prelude.{◌≡◌, refl, All, true, some, none, codes, arith}
use ceasy.StringView.{view}
use ceasy.OwnedString.Memory.{Bytes, write, put, read}
use ceasy.OwnedString.Types.{OwnedString, ok, ◌>>=◌, new, as_view, storage_offset}
use ceasy.OwnedString.Reserve.{reserve, doubled, new_capacity, obtain, copied, terminated}
use ceasy.OwnedString.Edit.{append, append_char, fill}
use ceasy.OwnedString.Contents.{IsValid}
use ceasy.Html.{entity, escape_byte, escape_from, escape_append}
use ceasy.Html.Escape.{
  Escaping, escape_append-Escaping, IsHarmless, escaped, unescaped, escaped_lem,
}
use ceasy.Html.Succeeds.{escape_append_succeeds}

program : Unit {0}
unfolding write put read new as_view storage_offset reserve doubled new_capacity obtain copied
    terminated append append_char fill entity escape_byte escape_from escape_append
program = tt

abbrev on_heap : OwnedString
on_heap = record {
  storage = none;
  length = 0;
  capacity = 0;
  allocator = record { alloc = true; realloc = true; free = true };
}

on_heap-IsValid : IsValid on_heap
unfolding program
on_heap-IsValid = record { stored = (refl, refl) }

abbrev garbage : Bytes
garbage = λ i. 170

escapes_tag :
    (escape_append on_heap (view (codes "<b>")) (λ i. some garbage) >>= λ r. ok (as_view r.1))
    ≡ ok (view (codes "&lt;b&gt;"))
unfolding program
escapes_tag = refl

escape_append-Escaping_example :
    Escaping on_heap (codes "a<b") (escape_append on_heap (view (codes "a<b")) (λ i. some garbage))
escape_append-Escaping_example =
    escape_append-Escaping on_heap (codes "a<b") (λ i. some garbage) on_heap-IsValid

escaped_lem_example :
    All IsHarmless (escaped (codes "<&>")) × (unescaped 0 (escaped (codes "<&>")) ≡ codes "<&>")
escaped_lem_example = escaped_lem (codes "<&>")

escape_append_succeeds_example :
    (s' : OwnedString) × (escape_append on_heap (view (codes "a<b")) (λ i. some garbage)
      ≡ ok (true, s'))
escape_append_succeeds_example =
    escape_append_succeeds on_heap (codes "a<b") (λ i. garbage) on_heap-IsValid refl (omega arith)
