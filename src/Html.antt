-- ===== src/Html.antt =====
-- src/rendering/html.c: text is escaped into an owned string. The text lies outside of the string; what
-- the allocator gives for each append is an argument.
pub mod Escape
pub mod Succeeds
mod Tests
use ceasy.Prelude.{
  ℕ, zero, suc, ◌+◌, Bool, true, false, Option, none, some, List, [], ◌∷◌, ◌++◌, ◌==◌,
  if◌then◌else◌, codes,
}
use ceasy.StringView.{StringView, null, view}
use ceasy.OwnedString.Memory.{Bytes}
use ceasy.OwnedString.Types.{OwnedString, outside, Run, fault, ok, ◌>>=◌}
use ceasy.OwnedString.Edit.{append, append_char}

-- The entity of a byte, and `none` for the bytes of the default case.
unfoldable pub entity : ℕ → Option (List ℕ)
entity c =
    if c == b'&'
    then some (codes "&amp;")
    else if c == b'<'
    then some (codes "&lt;")
    else if c == b'>'
    then some (codes "&gt;")
    else if c == b'"'
    then some (codes "&quot;")
    else if c == 39
    then some (codes "&#39;")
    else none

-- One round of the loop.
unfoldable pub escape_byte : OwnedString → ℕ → Option Bytes → Run (Bool × OwnedString)
escape_byte output c fresh = elim (entity c) [
  | none ↦ append_char output c fresh
  | some escaped ↦ append output (outside (view escaped)) fresh
]

-- The loop from the byte at `index` on.
unfoldable pub escape_from :
    OwnedString → List ℕ → (ℕ → Option Bytes) → ℕ → Run (Bool × OwnedString)
escape_from output [] fresh index = ok (true, output)
escape_from output (c ∷ cs) fresh index = escape_byte output c (fresh index) >>= (λ result.
    elim result.0 [
      | true ↦ escape_from result.1 cs fresh (index + 1)
      | false ↦ ok (false, result.1)
    ])

-- html_escape_append
unfoldable pub escape_append :
    OwnedString → StringView → (ℕ → Option Bytes) → Run (Bool × OwnedString)
escape_append output (null zero) fresh = ok (true, output)
escape_append output (null (suc n)) fresh = fault
escape_append output (view bs) fresh = escape_from output bs fresh 0
