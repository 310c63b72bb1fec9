-- ===== src/Tokenize/Parts.antt =====
-- What `split` gives for a separator of one byte, as every caller in the repository has it.
use gg.Prelude.{
  ℕ, zero, suc, ◌+◌, ◌-◌, ◌%◌, ◌^◌, ◌≤◌, ◌<◌, ◌≡◌, refl, ap, sym, ◌∙◌, inl, inr, none, some, List,
  [], ◌∷◌, map, arith, ◌==◌, leb, if◌then◌else◌, length, drop, drop_all, drop-drop, ok, ◌>>=◌,
  Option-cases, All, Bool-cases,
}
use gg.Text.{Bytes, find, find_at, starts_with, substr, substr_from}
use gg.Tokenize.{split, separator_indices, later_tokens, tokens}

-- The positions of `c` in a text that begins at position `k`.
positions : ℕ → ℕ → Bytes → List ℕ
positions c k [] = []
positions c k (x ∷ s) = let rest = positions c (suc k) s in if c == x then k ∷ rest else rest

abbrev pub prepend : ℕ → List Bytes → List Bytes
prepend x [] = []
prepend x (p ∷ ps) = (x ∷ p) ∷ ps

-- The text cut at each `c`, by one pass.
unfoldable pub parts : ℕ → Bytes → List Bytes
parts c [] = [] ∷ []
parts c (x ∷ s) = let rest = parts c s in if c == x then [] ∷ rest else prepend x rest

drop_shift : (i x : ℕ) (s : Bytes) → drop (suc i + 1) (x ∷ s) ≡ drop (i + 1) s
drop_shift i x s =
    ap (λ (n : ℕ). drop n (x ∷ s)) (let e : suc i + 1 ≡ suc (i + 1) = omega arith in e)

positions-find-none : (c k : ℕ) (s : Bytes) → find (c ∷ []) s ≡ none → positions c k s ≡ []
unfolding positions find starts_with
positions-find-none c k [] h = refl
positions-find-none c k (x ∷ s) h = ground (arith, positions-find-none c (suc k) s)

positions-find-some :
    (c k i : ℕ) (s : Bytes)
    → find (c ∷ []) s ≡ some i
    → positions c k s ≡ (k + i) ∷ positions c (k + i + 1) (drop (i + 1) s)
unfolding positions find starts_with
positions-find-some c k i [] h = ground arith
positions-find-some c k zero (x ∷ s) h = ground arith
positions-find-some c k (suc i) (x ∷ s) h =
    ground (arith, drop_shift i x s, positions-find-some c (suc k) i s)

separator_indices-none :
    (fuel : ℕ) (s sep : Bytes) (next : ℕ)
    → find_at sep s next ≡ none
    → separator_indices (suc fuel) s sep next ≡ []
unfolding separator_indices
separator_indices-none fuel s sep next e = rw (e, separator_indices)

separator_indices-some :
    (fuel : ℕ) (s sep : Bytes) (next i : ℕ)
    → find_at sep s next ≡ some i
    → separator_indices (suc fuel) s sep next ≡ i ∷ separator_indices fuel s sep (i + 1)
unfolding separator_indices
separator_indices-some fuel s sep next i e = rw (e, separator_indices)

drop_past : (next i : ℕ) (s : Bytes) → drop (next + i + 1) s ≡ drop (i + 1) (drop next s)
drop_past next i s = sym (drop-drop (i + 1) next s ∙ ap (λ (k : ℕ). drop k s) (omega arith))

separator_indices-eq-positions :
    (fuel c : ℕ) (s : Bytes) (next : ℕ)
    → length s + 2 ≤ fuel + next
    → separator_indices fuel s (c ∷ []) next ≡ positions c next (drop next s)
unfolding find_at
separator_indices-eq-positions zero c s next h =
    unfold separator_indices positions in
    sym (ap (positions c next) (drop_all next s (omega arith)))
separator_indices-eq-positions (suc fuel) c s next h = elim (Bool-cases (leb next (length s))) [
  | inr past ↦
      separator_indices-none fuel s (c ∷ []) next (rw past)
      ∙ sym (unfold positions in ap (positions c next) (drop_all next s (ground arith)))
  | inl inside ↦ elim (Option-cases (find (c ∷ []) (drop next s))) [
    | inl e ↦
        separator_indices-none fuel s (c ∷ []) next (rw (inside, e))
        ∙ sym (positions-find-none c next (drop next s) e)
    | inr (i, e) ↦
        separator_indices-some fuel s (c ∷ []) next (next + i) (rw (inside, e))
        ∙ ap (◌∷◌ (next + i)) (
            separator_indices-eq-positions fuel c s (next + i + 1) (omega arith)
            ∙ ap (positions c (next + i + 1)) (drop_past next i s))
        ∙ sym (positions-find-some c next i (drop next s) e)
  ]
]

positions-suc : (c k : ℕ) (s : Bytes) → positions c (suc k) s ≡ map suc (positions c k s)
unfolding positions
positions-suc c k [] = refl
positions-suc c k (x ∷ s) = ground (arith, positions-suc c (suc k) s)

substr-cons : (x i n : ℕ) (s : Bytes) → substr (x ∷ s) (suc i + 1) n ≡ substr s (i + 1) n
unfolding substr
substr-cons x i n s = ground (arith, drop_shift i x s)

width_shift :
    (i j : ℕ)
    → (suc j + 2 ^ 64 + 2 ^ 64 - suc i - 1) % 2 ^ 64 ≡ (j + 2 ^ 64 + 2 ^ 64 - i - 1) % 2 ^ 64
width_shift i j = omega arith

later_tokens-cons :
    (x i : ℕ) (s : Bytes) (is : List ℕ)
    → later_tokens (x ∷ s) 1 (suc i) (map suc is) ≡ later_tokens s 1 i is
unfolding later_tokens
later_tokens-cons x i s [] = unfold substr_from in ground (arith, drop_shift i x s)
later_tokens-cons x i s (j ∷ is) = ground (
  arith,
  substr-cons x i ((j + 2 ^ 64 + 2 ^ 64 - i - 1) % 2 ^ 64) s,
  width_shift i j,
  later_tokens-cons x j s is,
)

tokens-cons :
    (x : ℕ) (s : Bytes) (is : List ℕ) (ps : List Bytes)
    → tokens s 1 is ≡ ok ps
    → tokens (x ∷ s) 1 (map suc is) ≡ ok (prepend x ps)
unfolding tokens substr
tokens-cons x s [] ps h = ground arith
tokens-cons x s (i ∷ is) ps h = ground (arith, later_tokens-cons x i s is)

later_tokens_first :
    (x : ℕ) (s : Bytes) (is : List ℕ)
    → All (λ i. i < 2 ^ 64) is
    → later_tokens (x ∷ s) 1 0 (map suc is) ≡ tokens s 1 is
unfolding tokens later_tokens substr substr_from
later_tokens_first x s [] h = ground arith
later_tokens_first x s (i ∷ is) h = unfold substr in ground (arith, later_tokens-cons x i s is)

tokens_first :
    (x : ℕ) (s : Bytes) (is : List ℕ)
    → All (λ i. i < 2 ^ 64) is
    → tokens (x ∷ s) 1 (0 ∷ map suc is) ≡ (do others ← tokens s 1 is; ok ([] ∷ others))
unfolding tokens substr
tokens_first x s is h = ground (arith, later_tokens_first x s is h)

positions-below : (c k n : ℕ) (s : Bytes) → k + length s ≤ n → All (λ i. i < n) (positions c k s)
unfolding positions
positions-below c k n [] h = tt
positions-below c k n (x ∷ s) h = ground (arith, positions-below c (suc k) n s)

tokens-positions_step :
    (c x : ℕ) (s : Bytes)
    → suc (length s) < 2 ^ 64
    → tokens s 1 (positions c 0 s) ≡ ok (parts c s)
    → tokens (x ∷ s) 1 (positions c 0 (x ∷ s)) ≡ ok (parts c (x ∷ s))
unfolding positions parts
tokens-positions_step c x s h ih = ground (
  arith,
  positions-suc c 0 s,
  tokens-cons x s (positions c 0 s) (parts c s) ih,
  tokens_first x s (positions c 0 s) (positions-below c 0 (2 ^ 64) s (omega arith)),
)

tokens-positions :
    (c : ℕ) (s : Bytes) → length s < 2 ^ 64 → tokens s 1 (positions c 0 s) ≡ ok (parts c s)
tokens-positions c [] h = unfold tokens positions parts in refl
tokens-positions c (x ∷ s) h = tokens-positions_step c x s h (tokens-positions c s (omega arith))

-- `split` with a one-byte separator never throws: it cuts the text at each separator.
pub split-eq-parts : (s : Bytes) (c : ℕ) → length s < 2 ^ 64 → split s (c ∷ []) ≡ ok (parts c s)
unfolding split
split-eq-parts s c h =
    rw (separator_indices-eq-positions (length s + 2) c s 0 (omega arith)) (tokens-positions c s h)
