-- ===== src/Html/Escape.antt =====
-- src/rendering/html.c: what escaped text is, and that html_escape_append writes it.
use ceasy.Prelude.{
  ℕ, zero, suc, ◌+◌, ◌-◌, ◌*◌, ◌<◌, ◌≡◌, refl, ap, sym, ◌∙◌, Bool, true, false, Option, none, some,
  List, [], ◌∷◌, ◌++◌, append_assoc, append-nil, ◌==◌, if◌then◌else◌, All, All-append, length, take,
  leb, ltb, codes, ◌&&◌, ◌||◌, inl, inr, Option-cases, Bool-cases, ==_iff, arith,
}
use ceasy.StringView.{view}
use ceasy.OwnedString.Memory.{Bytes}
use ceasy.OwnedString.Types.{OwnedString, outside, Run, ok}
use ceasy.OwnedString.Edit.{append_char}
use ceasy.OwnedString.Contents.{IsValid, contents}
use ceasy.OwnedString.Append.{Edited, append-Edited, kept, edited}
use ceasy.Html.{entity, escape_byte, escape_from, escape_append}

-- A byte as it is written, and a text.
abbrev pub escaped_byte : ℕ → List ℕ
escaped_byte c = elim (entity c) [ none ↦ c ∷ [] | some text ↦ text ]

abbrev pub escaped : List ℕ → List ℕ
escaped [] = []
escaped (c ∷ cs) = escaped_byte c ++ escaped cs

-- A byte that neither opens or closes a tag nor ends the value of an attribute.
abbrev pub IsHarmless : ℕ → Type 0
IsHarmless c = (c == b'<' || c == b'>' || c == b'"' || c == 39) ≡ false

-- The character references of HTML that are read: five by their names, and the decimal ones.
abbrev pub names : List (List ℕ × ℕ)
names =
    (codes "amp;", b'&')
    ∷ (codes "lt;", b'<')
    ∷ (codes "gt;", b'>')
    ∷ (codes "quot;", b'"')
    ∷ (codes "apos;", 39)
    ∷ []

abbrev pub begins_with : List ℕ → List ℕ → Bool
begins_with [] text = true
begins_with (x ∷ xs) [] = false
begins_with (x ∷ xs) (c ∷ cs) = x == c && begins_with xs cs

-- The byte that a name at the front of the text stands for, and the length of the name.
abbrev pub named : List (List ℕ × ℕ) → List ℕ → Option (ℕ × ℕ)
named [] text = none
named ((name, byte) ∷ rest) text =
    if begins_with name text then some (byte, length name) else named rest text

-- The number whose digits, behind those of `value`, go on up to a semicolon, and where it ends.
abbrev pub decimal : ℕ → ℕ → List ℕ → Option (ℕ × ℕ)
decimal value read [] = none
decimal value read (c ∷ cs) =
    let rest = decimal (value * 10 + (c - b'0')) (read + 1) cs in
    if leb b'0' c && leb c b'9'
    then rest
    else if c == b';' && ltb 1 read
    then some (value, read + 1)
    else none

-- What stands behind an ampersand: the byte that is meant, and how many bytes say so.
abbrev pub reference : List ℕ → Option (ℕ × ℕ)
reference [] = none
reference (c ∷ cs) = if c == b'#' then decimal 0 1 cs else named names (c ∷ cs)

-- The text with its character references read, when the first `skip` bytes belong to one.
abbrev pub unescaped : ℕ → List ℕ → List ℕ
unescaped skip [] = []
unescaped (suc skip) (c ∷ cs) = unescaped skip cs
unescaped zero (c ∷ cs) =
    let plain = c ∷ unescaped zero cs in
    if c == b'&'
    then elim (reference cs) [ none ↦ plain | some r ↦ r.0 ∷ unescaped r.1 cs ]
    else plain

-- The five bytes that are escaped, and the others.
data Kind (c : ℕ) : Type 0 where
  special :
      (text : List ℕ)
      → entity c ≡ some text
      → All IsHarmless text
      → ((rest : List ℕ) → unescaped 0 (text ++ rest) ≡ c ∷ unescaped 0 rest)
      → Kind c
  ordinary : entity c ≡ none → (c == b'&') ≡ false → IsHarmless c → Kind c

ampersand : Kind b'&'
unfolding entity
ampersand = special (codes "&amp;") refl (refl, (refl, (refl, (refl, (refl, tt))))) (λ rest. refl)

less : Kind b'<'
unfolding entity
less = special (codes "&lt;") refl (refl, (refl, (refl, (refl, tt)))) (λ rest. refl)

greater : Kind b'>'
unfolding entity
greater = special (codes "&gt;") refl (refl, (refl, (refl, (refl, tt)))) (λ rest. refl)

quote : Kind b'"'
unfolding entity
quote =
    special (codes "&quot;") refl (refl, (refl, (refl, (refl, (refl, (refl, tt)))))) (λ rest. refl)

apostrophe : Kind 39
unfolding entity
apostrophe = special (codes "&#39;") refl (refl, (refl, (refl, (refl, (refl, tt))))) (λ rest. refl)

kind : (c : ℕ) → Kind c
unfolding entity
kind c = elim (Bool-cases (c == b'&')) [
  | inl e ↦ rw ((==_iff c b'&').0 e) ampersand
  | inr not_amp ↦ elim (Bool-cases (c == b'<')) [
    | inl e ↦ rw ((==_iff c b'<').0 e) less
    | inr not_less ↦ elim (Bool-cases (c == b'>')) [
      | inl e ↦ rw ((==_iff c b'>').0 e) greater
      | inr not_greater ↦ elim (Bool-cases (c == b'"')) [
        | inl e ↦ rw ((==_iff c b'"').0 e) quote
        | inr not_quote ↦ elim (Bool-cases (c == 39)) [
          | inl e ↦ rw ((==_iff c 39).0 e) apostrophe
          | inr not_apostrophe ↦
              ordinary (rw (not_amp, not_less, not_greater, not_quote, not_apostrophe) refl) not_amp
                (rw (not_less, not_greater, not_quote, not_apostrophe) refl)
        ]
      ]
    ]
  ]
]

pub escaped_byte-Kind : (c : ℕ) (text : List ℕ) → entity c ≡ some text → escaped_byte c ≡ text
escaped_byte-Kind c text e = simp (escaped_byte, e) refl

pub escaped_byte-none : (c : ℕ) → entity c ≡ none → escaped_byte c ≡ c ∷ []
escaped_byte-none c e = simp (escaped_byte, e) refl

unescaped-plain :
    (c : ℕ) (cs : List ℕ) → (c == b'&') ≡ false → unescaped 0 (c ∷ cs) ≡ c ∷ unescaped 0 cs
unescaped-plain c cs e = rw (e) refl

-- The text in which each byte is replaced as html_escape_append replaces it has no angle bracket and no
-- quote of either kind. To read in it the character references amp, lt, gt, quot and apos and the decimal
-- ones, each spelled out in full with its semicolon, gives the text that was escaped.
pub escaped_lem : (bs : List ℕ) → All IsHarmless (escaped bs) × (unescaped 0 (escaped bs) ≡ bs)
escaped_lem [] = (tt, refl)
escaped_lem (c ∷ cs) =
    let (rest_harmless, rest_read) = escaped_lem cs in
    elim (kind c) [
      | special text e safe reads ↦
          let at = escaped_byte-Kind c text e in
          (
            All-append IsHarmless (escaped_byte c) (escaped cs) (rw (at) safe) rest_harmless,
            ap (λ t. unescaped 0 (t ++ escaped cs)) at
                ∙ reads (escaped cs)
                ∙ ap (λ t. c ∷ t) rest_read,
          )
      | ordinary e not_amp safe ↦
          let at = escaped_byte-none c e in
          (
            All-append IsHarmless (escaped_byte c) (escaped cs) (rw (at) (safe, tt)) rest_harmless,
            ap (λ t. unescaped 0 (t ++ escaped cs)) at
                ∙ unescaped-plain c (escaped cs) not_amp
                ∙ ap (λ t. c ∷ t) rest_read,
          )
    ]

-- One byte is appended in its escaped form, or the string stays as it is.
pub escape_byte-Edited :
    (s : OwnedString) (c : ℕ) (fresh : Option Bytes)
    → IsValid s
    → Edited s (contents s ++ escaped_byte c) (escape_byte s c fresh)
unfolding escape_byte append_char
escape_byte-Edited s c fresh v = elim (Option-cases (entity c)) [
  | inl e ↦
      simp (escape_byte, escaped_byte, e) (append-Edited s (outside (view (c ∷ []))) fresh v refl)
  | inr (text, e) ↦
      simp (escape_byte, escaped_byte, e) (append-Edited s (outside (view text)) fresh v refl)
]

-- The whole text has been appended in its escaped form, or only the first bytes of it.
pub data Escaping (s : OwnedString) (bs : List ℕ) (run : Run (Bool × OwnedString)) : Type 0 where
  complete :
      (s' : OwnedString)
      → run ≡ ok (true, s')
      → IsValid s'
      → contents s' ≡ contents s ++ escaped bs
      → Escaping s bs run
  broken_off :
      (s' : OwnedString) (n : ℕ)
      → run ≡ ok (false, s')
      → IsValid s'
      → n < length bs
      → contents s' ≡ contents s ++ escaped (take n bs)
      → Escaping s bs run

escape_from-failed :
    (s s' : OwnedString) (c : ℕ) (cs : List ℕ) (fresh : ℕ → Option Bytes) (index : ℕ)
    → escape_byte s c (fresh index) ≡ ok (false, s')
    → escape_from s (c ∷ cs) fresh index ≡ ok (false, s')
unfolding escape_from
escape_from-failed s s' c cs fresh index e = rw (e) refl

pub escape_from-went :
    (s s' : OwnedString) (c : ℕ) (cs : List ℕ) (fresh : ℕ → Option Bytes) (index : ℕ)
    → escape_byte s c (fresh index) ≡ ok (true, s')
    → escape_from s (c ∷ cs) fresh index ≡ escape_from s' cs fresh (index + 1)
unfolding escape_from
escape_from-went s s' c cs fresh index e = rw (e) refl

escape_from-Escaping :
    (s : OwnedString) (bs : List ℕ) (fresh : ℕ → Option Bytes) (index : ℕ)
    → IsValid s
    → Escaping s bs (escape_from s bs fresh index)
escape_from-Escaping s [] fresh index v =
    complete s (unfold escape_from in refl) v (sym (append-nil (contents s)))
escape_from-Escaping s (c ∷ cs) fresh index v = elim (escape_byte-Edited s c (fresh index) v) [
  | kept e ↦
      broken_off s 0 (escape_from-failed s s c cs fresh index e) v (omega arith)
        (sym (append-nil (contents s)))
  | edited s' e v' text same_allocator ↦
      let step = escape_from-went s s' c cs fresh index e in
      let longer : (bytes : List ℕ)
          → contents s' ++ escaped bytes ≡ contents s ++ escaped (c ∷ bytes) =
        (λ bytes.
          ap (λ t. t ++ escaped bytes) text
          ∙ append_assoc (contents s) (escaped_byte c) (escaped bytes)) in
      elim (escape_from-Escaping s' cs fresh (index + 1) v') [
        | complete last e' v'' text' ↦ complete last (step ∙ e') v'' (text' ∙ longer cs)
        | broken_off last n e' v'' lt text' ↦
            broken_off last (suc n) (step ∙ e') v'' (omega arith) (text' ∙ longer (take n cs))
      ]
]

-- html_escape_append on a well-formed string and a view that is not NULL.
pub escape_append-Escaping :
    (s : OwnedString) (bs : List ℕ) (fresh : ℕ → Option Bytes)
    → IsValid s
    → Escaping s bs (escape_append s (view bs) fresh)
unfolding escape_append
escape_append-Escaping s bs fresh v = escape_from-Escaping s bs fresh 0 v
