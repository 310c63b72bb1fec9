-- ===== src/Gcc/SourceName.antt =====
-- The extension of a file's name.
use gg.Prelude.{
  subst, take-append, drop-append, drop-drop, Option-cases, ℕ, suc, ◌+◌, ◌≡◌, refl, ap, sym, ◌∙◌,
  ◌↔◌, inl, inr, none, some, [], ◌∷◌, ◌++◌, arith, length, drop, take, ok, ok-injective,
}
use gg.Text.{Bytes, Lacks}
use package.gg.Gcc.{split_source_name, find_last_of}

pub find_last_of-none : (x : ℕ) (s : Bytes) → Lacks x s → find_last_of x s ≡ none
unfolding find_last_of
find_last_of-none x [] h = refl
find_last_of-none x (y ∷ s) h = ground (arith, find_last_of-none x s h.1, h.0)

find_last_of-append :
    (x : ℕ) (s t : Bytes) → Lacks x t → find_last_of x (s ++ x ∷ t) ≡ some (length s)
unfolding find_last_of
find_last_of-append x [] t h = ground (arith, find_last_of-none x t h)
find_last_of-append x (y ∷ s) t h = ground (arith, find_last_of-append x s t h)

find_last_of-Lacks : (x : ℕ) (s : Bytes) → find_last_of x s ≡ none → Lacks x s
unfolding find_last_of
find_last_of-Lacks x [] h = tt
find_last_of-Lacks x (y ∷ s) h = ground (arith, find_last_of-Lacks x s)

-- The text is cut at its last `x`.
Cut : ℕ → Bytes → ℕ → Type 0
Cut x s i = (a t : Bytes) × (s ≡ a ++ x ∷ t) × (length a ≡ i) × Lacks x t

find_last_of_here :
    (x y : ℕ) (s : Bytes) (i : ℕ)
    → find_last_of x (y ∷ s) ≡ some i
    → find_last_of x s ≡ none
    → (y ≡ x) × (0 ≡ i)
unfolding find_last_of
find_last_of_here x y s i h n = ground (arith, h, n)

find_last_of_later :
    (x y : ℕ) (s : Bytes) (i j : ℕ)
    → find_last_of x (y ∷ s) ≡ some i
    → find_last_of x s ≡ some j
    → suc j ≡ i
unfolding find_last_of
find_last_of_later x y s i j h f = ground (arith, h, f)

find_last_of-some : (x : ℕ) (s : Bytes) (i : ℕ) → find_last_of x s ≡ some i → Cut x s i
unfolding Cut
find_last_of-some x [] i h = absurd (unfold find_last_of in cc)
find_last_of-some x (y ∷ s) i h = elim (Option-cases (find_last_of x s)) [
  | inl n ↦
      let here = find_last_of_here x y s i h n in
      ([], s, ap (λ (z : ℕ). z ∷ s) here.0, here.1, find_last_of-Lacks x s n)
  | inr f ↦
      let cut = find_last_of-some x s f.0 f.1 in
      (
        y ∷ cut.0,
        cut.1,
        ap (◌∷◌ y) cut.2,
        ap suc cut.3 ∙ find_last_of_later x y s i f.0 h f.1,
        cut.4,
      )
]

split_at :
    (basename : Bytes → Bytes) (path : Bytes) (i : ℕ)
    → find_last_of b'.' (basename path) ≡ some i
    → split_source_name basename path ≡ ok (take i (basename path), drop (i + 1) (basename path))
unfolding split_source_name
split_at basename path i h = rw (split_source_name, h) refl

split_none :
    (basename : Bytes → Bytes) (path : Bytes) (r : Bytes × Bytes)
    → split_source_name basename path ≡ ok r
    → ¬ (find_last_of b'.' (basename path) ≡ none)
unfolding split_source_name
split_none basename path r h n = ground (arith, h, n)

halves :
    (x : ℕ) (a t : Bytes)
    → ◌≡◌ {A = Bytes × Bytes}
        (take (length a) (a ++ x ∷ t), drop (length a + 1) (a ++ x ∷ t))
        (a, t)
halves x a t = λ i. (
  take-append a (x ∷ t) (length a) refl i,
  (sym (drop-drop 1 (length a) (a ++ x ∷ t)) ∙ ap (drop 1) (drop-append a (x ∷ t) (length a) refl))
      i,
)

split_of_cut :
    (basename : Bytes → Bytes) (path base extension : Bytes)
    → basename path ≡ base ++ b'.' ∷ extension
    → Lacks b'.' extension
    → split_source_name basename path ≡ ok (base, extension)
split_of_cut basename path base extension e h =
    split_at basename path (length base)
      (ap (find_last_of b'.') e ∙ find_last_of-append b'.' base extension h)
    ∙ ap (λ (p : Bytes). ok (take (length base) p, drop (length base + 1) p)) e
    ∙ ap ok (halves b'.' base extension)

-- Where the file's name is split, its base and its extension are known by the cut at its last dot.
split-Cut :
    (basename : Bytes → Bytes) (path base extension : Bytes)
    → split_source_name basename path ≡ ok (base, extension)
    → (i : ℕ) × Cut b'.' (basename path) i
split-Cut basename path base extension h = elim (Option-cases (find_last_of b'.' (basename path))) [
  | inl n ↦ absurd (split_none basename path _ h n)
  | inr f ↦ (f.0, find_last_of-some b'.' (basename path) f.0 f.1)
]

split-at_end :
    (basename : Bytes → Bytes) (path base extension : Bytes) (i : ℕ)
    → Cut b'.' (basename path) i
    → split_source_name basename path ≡ ok (base, extension)
    → (basename path ≡ base ++ b'.' ∷ extension) × Lacks b'.' extension
unfolding Cut
split-at_end basename path base extension i cut h =
    let same = ok-injective (sym (split_of_cut basename path cut.0 cut.1 cut.2 cut.4) ∙ h) in
    subst (λ (r : Bytes × Bytes). (basename path ≡ r.0 ++ b'.' ∷ r.1) × Lacks b'.' r.1) same
      (cut.2, cut.4)

-- A file's name is split at its last dot: the extension is what follows the dot and has none, and
-- the base is what precedes it.
pub split_source_name_iff :
    (basename : Bytes → Bytes) (path base extension : Bytes)
    → (split_source_name basename path ≡ ok (base, extension))
      ↔ ((basename path ≡ base ++ b'.' ∷ extension) × Lacks b'.' extension)
split_source_name_iff basename path base extension = (
  λ h.
      let cut = split-Cut basename path base extension h in
      split-at_end basename path base extension cut.0 cut.1 h,
  λ h. split_of_cut basename path base extension h.0 h.1,
)
