-- ===== src/OwnedString/Replace.antt =====
-- string_replace and string_replace_all of src/string/string.c.
use ceasy.Prelude.{
  ℕ, zero, suc, ◌+◌, Bool, true, false, not, ◌||◌, Option, none, some, ltb, ◌==◌, if◌then◌else◌,
}
use ceasy.StringView.{StringView, size, valid, find, from, slice}
use ceasy.OwnedString.Memory.{Bytes}
use ceasy.OwnedString.Types.{OwnedString, outside, Run, fault, ok, ◌>>=◌, new, as_view}
use ceasy.OwnedString.Edit.{append}

-- How the loop of string_replace_build ends: an append has failed, or with `found` and `result`;
-- `unfinished` is fuel that ran out.
pub data Built : Type 0 where
  failed : Built
  built : Bool → OwnedString → Built
  unfinished : Built

-- The next step where an append succeeds.
unfoldable pub then_append :
    Run (Bool × OwnedString) → StringView → Option Bytes → Run (Bool × OwnedString)
then_append run value fresh = do
  (done, string) ← run
  (if done then append string (outside value) fresh else ok (false, string))

-- The end of the loop behind a run of appends.
unfoldable pub ended : Run (Bool × OwnedString) → Bool → Run Built
ended run found = do (done, string) ← run; (if done then ok (built found string) else ok failed)

-- The loop. `memory k` is what the allocator returns to the `k`-th append.
unfoldable pub replace_loop :
    ℕ
    → StringView
    → StringView
    → StringView
    → Bool
    → ℕ
    → Bool
    → OwnedString
    → (ℕ → Option Bytes)
    → ℕ
    → Run Built
replace_loop zero source search replacement every cursor found result memory k = ok unfinished
replace_loop (suc fuel) source search replacement every cursor found result memory k =
    let remaining = from source cursor in
    if ltb (size source) cursor then ok (built found result) else elim (find remaining search) [
      | none ↦ ended (append result (outside remaining) (memory k)) found
      | some relative ↦
          let cursor' = cursor + relative + size search in
          let run =
            then_append (append result (outside (slice source cursor relative)) (memory k))
              replacement (memory (k + 1)) in
          if every
          then (do
            (done, string) ← run
            elim done [
              | false ↦ ok failed
              | true ↦
                  replace_loop fuel source search replacement every cursor' true string memory
                    (k + 2)
            ])
          else ended (then_append run (from source cursor') (memory (k + 2))) true
    ]

-- string_replace_build
unfoldable pub replace_build :
    OwnedString → StringView → StringView → Bool → (ℕ → Option Bytes) → Run (Bool × OwnedString)
replace_build string search replacement every memory =
    if size search == 0 || not (valid search) || not (valid replacement)
    then ok (false, string)
    else do
      end ←
          replace_loop (size (as_view string) + 2) (as_view string) search replacement every 0 false
            (new string.allocator) memory 0
      elim end [
        | failed ↦ ok (false, string)
        | unfinished ↦ fault
        | built found result ↦ ok (true, if found then result else string)
      ]

unfoldable pub replace :
    OwnedString → StringView → StringView → (ℕ → Option Bytes) → Run (Bool × OwnedString)
replace string search replacement memory = replace_build string search replacement false memory

unfoldable pub replace_all :
    OwnedString → StringView → StringView → (ℕ → Option Bytes) → Run (Bool × OwnedString)
replace_all string search replacement memory = replace_build string search replacement true memory
