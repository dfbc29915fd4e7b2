-- ===== src/Arena/Mark/Released.antt =====
-- What arena_restore of src/memory/arena.c frees: the end of the chain.
use ceasy.Prelude.{ℕ, ◌≡◌, refl, ap, ◌∙◌, List, [], ◌++◌, ◌∷◌, map}
use ceasy.Arena.Types.{Block, Arena, chain}
use ceasy.Arena.Mark.{Past}

abbrev pub addresses : List Block → List ℕ
addresses bs = map (λ b. b.address) bs

chain-append : (xs ys ahead : List Block) → chain (xs ++ ys) ahead ≡ chain ys (chain xs ahead)
unfolding chain
chain-append [] ys ahead = refl
chain-append (x ∷ xs) ys ahead = chain-append xs ys (x ∷ ahead)

addresses-append : (xs ys : List Block) → addresses (xs ++ ys) ≡ addresses xs ++ addresses ys
addresses-append [] ys = refl
addresses-append (x ∷ xs) ys = ap (λ l. x.address ∷ l) (addresses-append xs ys)

-- The addresses of a chain are those of its blocks, and so those behind come last.
addresses-chain :
    (bs xs ys : List Block) (zs : List ℕ)
    → addresses xs ≡ addresses ys ++ zs
    → addresses (chain bs xs) ≡ addresses (chain bs ys) ++ zs
unfolding chain
addresses-chain [] xs ys zs e = e
addresses-chain (b ∷ bs) xs ys zs e =
    addresses-chain bs (b ∷ xs) (b ∷ ys) zs (ap (λ l. b.address ∷ l) e)

pub addresses-Past :
    (a q : Arena) (b : Block) (bs : List Block) (n : ℕ) (p : Past a b bs n q)
    → addresses (chain q.upto q.ahead)
      ≡ addresses (chain (b ∷ bs) []) ++ addresses (chain p.extra q.ahead)
unfolding chain
addresses-Past a q b bs n p =
    let same = ap (λ (x : Block). x.address) p.same in
    let behind = chain p.extra q.ahead in
    ap (λ l. addresses (chain l q.ahead)) p.upto
    ∙ ap addresses (chain-append p.extra (p.now ∷ bs) q.ahead)
    ∙ addresses-chain bs (p.now ∷ behind) (b ∷ []) (addresses behind)
        (ap (λ x. x ∷ addresses behind) same)
