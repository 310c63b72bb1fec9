-- ===== src/Tokenize/Join.antt =====
-- What `split` takes apart, joined again.
use gg.Prelude.{ℕ, ◌^◌, ◌<◌, ◌≡◌, refl, sym, List, [], ◌∷◌, ◌++◌, arith, ◌≢◌, length, ok, All}
use gg.Text.{Bytes, Lacks}
use gg.Tokenize.{split}
use package.gg.Tokenize.Parts.{parts, prepend, split-eq-parts}

-- The tokens with the separator between them.
pub join : ℕ → List Bytes → Bytes
join c [] = []
join c (p ∷ []) = p
join c (p ∷ q ∷ ps) = p ++ c ∷ join c (q ∷ ps)

join-prepend : (c x : ℕ) (ps : List Bytes) → ps ≢ [] → join c (prepend x ps) ≡ x ∷ join c ps
unfolding join
join-prepend c x [] h = absurd (h refl)
join-prepend c x (p ∷ []) h = refl
join-prepend c x (p ∷ q ∷ ps) h = refl

pub parts-ne-nil : (c : ℕ) (s : Bytes) → parts c s ≢ []
unfolding parts
parts-ne-nil c [] h = cc
parts-ne-nil c (x ∷ s) h = ground (arith, parts-ne-nil c s)

join_first : (c : ℕ) (ps : List Bytes) → ps ≢ [] → join c ([] ∷ ps) ≡ c ∷ join c ps
unfolding join
join_first c [] h = absurd (h refl)
join_first c (p ∷ ps) h = refl

pub join-parts : (c : ℕ) (s : Bytes) → join c (parts c s) ≡ s
unfolding parts
join-parts c [] = unfold join in refl
join-parts c (x ∷ s) = ground (
  arith,
  join-parts c s,
  join-prepend c x (parts c s) (parts-ne-nil c s),
  join_first c (parts c s) (parts-ne-nil c s),
)

prepend-Lacks :
    (c x : ℕ) (ps : List Bytes) → c ≢ x → All (Lacks c) ps → All (Lacks c) (prepend x ps)
prepend-Lacks c x [] h a = tt
prepend-Lacks c x (p ∷ ps) h a = (((λ e. h (sym e)), a.0), a.1)

pub parts-Lacks : (c : ℕ) (s : Bytes) → All (Lacks c) (parts c s)
unfolding parts
parts-Lacks c [] = (tt, tt)
parts-Lacks c (x ∷ s) = ground (arith, parts-Lacks c s, prepend-Lacks c x (parts c s))

-- Splitting a text of less than 2^64 bytes at a byte returns; joining the tokens gives the text
-- back, and no token holds the byte.
pub split-join :
    (s : Bytes) (c : ℕ)
    → length s < 2 ^ 64
    → (ts : List Bytes) × (split s (c ∷ []) ≡ ok ts) × (join c ts ≡ s) × All (Lacks c) ts
split-join s c h = (parts c s, split-eq-parts s c h, join-parts c s, parts-Lacks c s)
