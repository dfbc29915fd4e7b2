-- ===== src/OwnedString/Replaced.antt =====
-- string_replace and string_replace_all of src/string/string.c against a description of the new text.
use ceasy.Prelude.{
  ℕ, zero, suc, ◌+◌, ◌≤◌, ◌<◌, ◌≡◌, refl, sym, ap, ap₂, ◌∙◌, Bool, true, false, Option, some, List,
  [], ◌++◌, arith, ltb, ◌==◌, inl, inr, take, drop, drop-add, length, length-drop, length-take,
  take-append-drop, append_assoc, Bool-cases, Option-cases,
}
use mathlib.Core.Path.{subst}
use ceasy.StringView.{StringView, view, bytes_of, valid, find, from, slice}
use ceasy.StringView.Text.{from-view, slice-view}
use ceasy.StringView.Search.{Occurs, FindsFirst, find-FindsFirst}
use ceasy.OwnedString.Memory.{Bytes}
use ceasy.OwnedString.Types.{Allocator, OwnedString, outside, Run, ok, new, as_view}
use ceasy.OwnedString.Edit.{append}
use ceasy.OwnedString.Replace.{
  Built, failed, built, then_append, ended, replace_loop, replace_build,
}
use ceasy.OwnedString.Contents.{IsValid, contents}
use ceasy.OwnedString.Append.{kept, edited, append-Edited}

-- A run of appends stops, or leaves a well-formed string that holds `acc`.
data Appending (acc : List ℕ) (run : Run (Bool × OwnedString)) : Type 0 where
  stopped : (s : OwnedString) → run ≡ ok (false, s) → Appending acc run
  went : (s : OwnedString) → run ≡ ok (true, s) → IsValid s → contents s ≡ acc → Appending acc run

append-Appending :
    (s : OwnedString) (acc : List ℕ) (value : StringView) (fresh : Option Bytes)
    → IsValid s
    → contents s ≡ acc
    → valid value ≡ true
    → Appending (acc ++ bytes_of value) (append s (outside value) fresh)
append-Appending s acc value fresh v e h = elim (append-Edited s (outside value) fresh v h) [
  | kept f ↦ stopped s f
  | edited s' f v' g a ↦ went s' f v' (g ∙ ap (λ t. t ++ bytes_of value) e)
]

then_append-Appending :
    (acc : List ℕ) (run : Run (Bool × OwnedString)) (value : StringView) (fresh : Option Bytes)
    → Appending acc run
    → valid value ≡ true
    → Appending (acc ++ bytes_of value) (then_append run value fresh)
unfolding then_append
then_append-Appending acc run value fresh (stopped s e) h = stopped s (rw e refl)
then_append-Appending acc run value fresh (went s e v c) h =
    rw e (append-Appending s acc value fresh v c h)

-- The text with the first occurrence of `search` replaced, or with every one, from left to right.
pub data Replaces (search replacement : List ℕ) (every : Bool) : List ℕ → List ℕ → Type 0 where
  nowhere :
      {text : List ℕ}
      → ((j : ℕ) → ¬ (Occurs text search j))
      → Replaces search replacement every text text
  first :
      {text result : List ℕ} (before behind : List ℕ)
      → every ≡ false
      → text ≡ before ++ (search ++ behind)
      → ((j : ℕ) → j < length before → ¬ (Occurs text search j))
      → result ≡ before ++ (replacement ++ behind)
      → Replaces search replacement every text result
  next :
      {text result : List ℕ} (before behind rest : List ℕ)
      → every ≡ true
      → text ≡ before ++ (search ++ behind)
      → ((j : ℕ) → j < length before → ¬ (Occurs text search j))
      → Replaces search replacement every behind rest
      → result ≡ before ++ (replacement ++ rest)
      → Replaces search replacement every text result

-- How the loop ends on the text that is left.
data Ends (search replacement acc text : List ℕ) (every found : Bool) (run : Run Built)
    : Type 0 where
  gives_up : run ≡ ok failed → Ends search replacement acc text every found run
  ends :
      (out : List ℕ) (s : OwnedString) (found' : Bool)
      → run ≡ ok (built found' s)
      → IsValid s
      → contents s ≡ acc ++ out
      → Replaces search replacement every text out
      → (found' ≡ false → (found ≡ false) × ((j : ℕ) → ¬ (Occurs text search j)))
      → Ends search replacement acc text every found run

ended-Ends :
    {search replacement acc text : List ℕ} {every found : Bool} (out : List ℕ)
    (run : Run (Bool × OwnedString)) (found' : Bool)
    → Appending (acc ++ out) run
    → Replaces search replacement every text out
    → (found' ≡ false → (found ≡ false) × ((j : ℕ) → ¬ (Occurs text search j)))
    → Ends search replacement acc text every found (ended run found')
unfolding ended
ended-Ends out run found' (stopped s e) r f = gives_up (rw e refl)
ended-Ends out run found' (went s e v c) r f = ends out s found' (rw e refl) v c r f

-- A text with `search` at position `i`, cut there.
cut_at :
    (text search : List ℕ) (i : ℕ)
    → i + length search ≤ length text
    → Occurs text search i
    → text ≡ take i text ++ (search ++ drop (i + length search) text)
cut_at text search i h o =
    sym (take-append-drop i text)
    ∙ ap (λ t. take i text ++ t)
        (sym (take-append-drop (length search) (drop i text))
          ∙ ap₂ (λ a b. a ++ b) o (drop-add i (length search) text))

-- What a match is: a cut of the text that is left, and the cursor behind it.
record Matched (bs search : List ℕ) (c i : ℕ) : Type 0 where
  parts : drop c bs ≡ take i (drop c bs) ++ (search ++ drop (c + i + length search) bs)
  earlier : (j : ℕ) → j < length (take i (drop c bs)) → ¬ (Occurs (drop c bs) search j)
  inside : c + i + length search ≤ length bs
  sliced : slice (view bs) c i ≡ view (take i (drop c bs))

find-Matched :
    (bs search : List ℕ) (c i : ℕ)
    → c ≤ length bs
    → FindsFirst (drop c bs) search (some i)
    → Matched bs search c i
find-Matched bs search c i h f =
    let l = length-drop c bs in
    let z : c + (i + length search) ≡ c + i + length search = omega arith in
    let k = length-take i (drop c bs) (omega (arith, f.0)) in
    record {
      parts =
          cut_at (drop c bs) search i f.0 f.1
          ∙ ap (λ t. take i (drop c bs) ++ (search ++ t))
              (drop-add c (i + length search) bs ∙ ap (λ j. drop j bs) z);
      earlier = λ j lt. f.2 j (omega (arith, k));
      inside = omega (arith, f.0, l);
      sliced = slice-view bs c i (omega (arith, f.0, l));
    }

module _ (bs search : List ℕ) (replacement : StringView) (every : Bool) (memory : ℕ → Option Bytes)
    (some_search : 0 < length search) (ok_replacement : valid replacement ≡ true) where
  -- The appends of one match.
  match-Appending :
      (acc : List ℕ) (result : OwnedString) (c i k : ℕ)
      → IsValid result
      → contents result ≡ acc
      → Matched bs search c i
      → Appending (acc ++ take i (drop c bs) ++ bytes_of replacement) (
          then_append
            (append result (outside (slice (view bs) c i)) (memory k))
            replacement
            (memory (k + 1)))
  match-Appending acc result c i k v e m = rw m.sliced (
      then_append-Appending (acc ++ take i (drop c bs))
        (append result (outside (view (take i (drop c bs)))) (memory k)) replacement
        (memory (k + 1))
        (append-Appending result acc (view (take i (drop c bs))) (memory k) v e refl)
        ok_replacement)

  -- The text that one match, and what is made of the text behind it, come to.
  regroup : (acc l r t : List ℕ) → acc ++ l ++ r ++ t ≡ acc ++ (l ++ (r ++ t))
  regroup acc l r t = append_assoc (acc ++ l) r t ∙ append_assoc acc l (r ++ t)

  last_match-Ends :
      (acc : List ℕ) (found : Bool) (run : Run (Bool × OwnedString)) (c i k : ℕ)
      → every ≡ false
      → Matched bs search c i
      → Appending (acc ++ take i (drop c bs) ++ bytes_of replacement) run
      → Ends search
          (bytes_of replacement)
          acc
          (drop c bs)
          every
          found
          (ended (then_append run (from (view bs) (c + i + length search)) (memory (k + 2))) true)
  last_match-Ends acc found run c i k q m a =
      let c' = c + i + length search in
      let l = take i (drop c bs) in
      rw (from-view bs c' m.inside) (
        ended-Ends (l ++ (bytes_of replacement ++ drop c' bs))
          (then_append run (view (drop c' bs)) (memory (k + 2))) true
          (subst (λ t. Appending t (then_append run (view (drop c' bs)) (memory (k + 2))))
            (regroup acc l (bytes_of replacement) (drop c' bs))
            (then_append-Appending (acc ++ l ++ bytes_of replacement) run (view (drop c' bs))
              (memory (k + 2)) a refl))
          (first l (drop c' bs) q m.parts m.earlier refl) (λ z. cc))

  next_match-Ends :
      (acc out : List ℕ) (found : Bool) (run : Run Built) (c i : ℕ) (s : OwnedString)
      (found' : Bool)
      → every ≡ true
      → Matched bs search c i
      → run ≡ ok (built found' s)
      → IsValid s
      → contents s ≡ acc ++ take i (drop c bs) ++ bytes_of replacement ++ out
      → Replaces search (bytes_of replacement) every (drop (c + i + length search) bs) out
      → (found' ≡ false → true ≡ false)
      → Ends search (bytes_of replacement) acc (drop c bs) every found run
  next_match-Ends acc out found run c i s found' q m e v t r f =
      let l = take i (drop c bs) in
      ends (l ++ (bytes_of replacement ++ out)) s found' e v
        (t ∙ regroup acc l (bytes_of replacement) out)
        (next l (drop (c + i + length search) bs) out q m.parts m.earlier r refl)
        (λ z. let b = f z in cc)

  loop-Ends :
      (fuel c : ℕ) (found : Bool) (result : OwnedString) (k : ℕ) (acc : List ℕ)
      → c ≤ length bs
      → length bs < c + fuel
      → IsValid result
      → contents result ≡ acc
      → Ends search
          (bytes_of replacement)
          acc
          (drop c bs)
          every
          found
          (replace_loop fuel (view bs) (view search) replacement every c found result memory k)
  unfolding replace_loop
  loop-Ends zero c found result k acc h more v e = absurd (omega arith)
  loop-Ends (suc fuel) c found result k acc h more v e =
      let go_on : ltb (length bs) c ≡ false = ground arith in
      let left = from-view bs c h in
      let text = drop c bs in
      elim (Option-cases (find (view text) (view search))) [
        | inl q ↦
            let nf = subst (FindsFirst text search) q (find-FindsFirst text search) in
            let q' = ap (λ t. find t (view search)) left ∙ q in
            rw (go_on, q', left)
              (ended-Ends text (append result (outside (view text)) (memory k)) found
                (append-Appending result acc (view text) (memory k) v e refl) (nowhere nf)
                (λ z. (z, nf)))
        | inr (i, q) ↦
            let m =
              find-Matched bs search c i h
                (subst (FindsFirst text search) q (find-FindsFirst text search)) in
            let q' = ap (λ t. find t (view search)) left ∙ q in
            let a = match-Appending acc result c i k v e m in
            let c' = c + i + length search in
            elim (Bool-cases every) [
              | inr b ↦
                  rw (go_on, q', b)
                    (rw b at (
                      last_match-Ends acc found
                        (then_append (append result (outside (slice (view bs) c i)) (memory k))
                          replacement (memory (k + 1)))
                        c i k b m a))
              | inl b ↦ elim a [
                | stopped s f ↦ gives_up (rw (go_on, q', b, f) refl)
                | went s f v' t ↦
                    let same : replace_loop (suc fuel) (view bs) (view search) replacement every c
                          found result memory k
                        ≡ replace_loop fuel (view bs) (view search) replacement every c' true s
                            memory (k + 2) =
                      rw (go_on, q', b, f)
                        (ap
                          (λ x.
                            replace_loop fuel (view bs) (view search) replacement x c' true s memory
                              (k + 2))
                          b) in
                    elim (loop-Ends fuel c' true s (k + 2)
                      (acc ++ take i text ++ bytes_of replacement) m.inside
                      (omega (arith, some_search)) v' t) [
                        | gives_up g ↦ gives_up (same ∙ g)
                        | ends out s' found' g v'' t' r f' ↦
                            next_match-Ends acc out found _ c i s' found' b m (same ∙ g) v'' t' r
                              (λ z. (f' z).0)
                      ]
              ]
            ]
      ]

as_view-contents :
    (s : OwnedString) (f : Bytes) → s.storage ≡ some f → as_view s ≡ view (contents s)
unfolding as_view
as_view-contents s f e = ground (arith, e)

pub new-IsValid : (a : Allocator) → IsValid (new a)
unfolding new
new-IsValid a = record { stored = (refl, refl) }

-- The two ways that a replacement ends.
pub data Replacement (s : OwnedString) (search replacement : List ℕ) (every : Bool)
    (run : Run (Bool × OwnedString)) : Type 0 where
  unchanged : run ≡ ok (false, s) → Replacement s search replacement every run
  replaced :
      (s' : OwnedString)
      → run ≡ ok (true, s')
      → IsValid s'
      → Replaces search replacement every (contents s) (contents s')
      → Replacement s search replacement every run

-- string_replace and string_replace_all (`every`) on a well-formed string that has storage, for a search
-- that is not empty and a valid replacement: the string's text is then its old one with the first
-- occurrence, or every one from left to right, replaced, and the string is well formed; or an append has
-- failed and the string is as it was. The loop always ends.
pub replace_build-Replacement :
    (s : OwnedString) (bytes : Bytes) (search : List ℕ) (replacement : StringView) (every : Bool)
    (memory : ℕ → Option Bytes)
    → IsValid s
    → s.storage ≡ some bytes
    → 0 < length search
    → valid replacement ≡ true
    → Replacement s search
        (bytes_of replacement)
        every
        (replace_build s (view search) replacement every memory)
unfolding replace_build
replace_build-Replacement s bytes search replacement every memory v e pos ok_replacement =
    let text = contents s in
    let a = as_view-contents s bytes e in
    let some_search : (length search == 0) ≡ false = ground arith in
    elim (loop-Ends text search replacement every memory pos ok_replacement (length text + 2) 0
      false (new s.allocator) 0 [] (omega arith) (omega arith) (new-IsValid s.allocator)
      (unfold new in refl)) [
        | gives_up f ↦ unchanged (rw (some_search, ok_replacement, a, f) refl)
        | ends out s' found f v' t r g ↦ elim (Bool-cases found) [
          | inl b ↦
              replaced s' (rw (some_search, ok_replacement, a, f, b) refl) v'
                (subst (Replaces search (bytes_of replacement) every text) (sym t) r)
          | inr b ↦ replaced s (rw (some_search, ok_replacement, a, f, b) refl) v (nowhere (g b).1)
        ]
      ]
