-- ===== src/Thunk/Update/Replace.antt =====
-- The loop of `update_placeholder` replaces every occurrence, from left to right.
use mathlib.Core.Option
use mathlib.Core.Path.{ap₂}
use gg.Prelude.{
  ℕ, zero, suc, ◌+◌, ◌-◌, ◌≤◌, ◌<◌, ◌≡◌, refl, ap, sym, ◌∙◌, inl, inr, none, some, [], ◌∷◌, ◌++◌,
  arith, if◌then◌else◌, length, take, drop, append_assoc, length-append, length-take, length-drop,
  drop-append, Option-cases,
}
use native.Mathlib.Nat.{add_assoc}
use gg.Text.{Bytes, find, find_at, starts_with, length-find}
use gg.Thunk.{replace_from, update_placeholder}

drop_pred : (n x : ℕ) (s : Bytes) → 0 < n → drop (0 + n) (x ∷ s) ≡ drop (n - 1) s
drop_pred zero x s h = elim h [ ]
drop_pred (suc n) x s h =
    ap (λ (m : ℕ). drop m (x ∷ s)) (let e : 0 + suc n ≡ suc (suc n - 1) = omega arith in e)

drop_shift : (i n x : ℕ) (s : Bytes) → drop (suc i + n) (x ∷ s) ≡ drop (i + n) s
drop_shift i n x s =
    ap (λ (m : ℕ). drop m (x ∷ s)) (let e : suc i + n ≡ suc (i + n) = omega arith in e)

take_past : (pre s : Bytes) (i : ℕ) → take (length pre + i) (pre ++ s) ≡ pre ++ take i s
take_past [] s i = ap (λ (m : ℕ). take m s) (omega arith)
take_past (x ∷ pre) s i =
    let e : suc (length pre) + i ≡ suc (length pre + i) = omega arith in
    ap (λ (m : ℕ). take m (x ∷ pre ++ s)) e ∙ ap (◌∷◌ x) (take_past pre s i)

drop_past : (pre s : Bytes) (i : ℕ) → drop (length pre + i) (pre ++ s) ≡ drop i s
drop_past [] s i = ap (λ (m : ℕ). drop m s) (omega arith)
drop_past (x ∷ pre) s i =
    let e : suc (length pre) + i ≡ suc (length pre + i) = omega arith in
    ap (λ (m : ℕ). drop m (x ∷ pre ++ s)) e ∙ drop_past pre s i

-- The text after a replacement, cut behind what was put in.
seam :
    (pre s dst : Bytes) (i n : ℕ)
    → take (length pre + i) (pre ++ s) ++ (dst ++ drop (length pre + i + n) (pre ++ s))
      ≡ (pre ++ (take i s ++ dst)) ++ drop (i + n) s
seam pre s dst i n = simp (take_past, add_assoc, drop_past, append_assoc)

length_seam :
    (pre s dst : Bytes) (i : ℕ)
    → i ≤ length s
    → length pre + i + length dst ≡ length (pre ++ (take i s ++ dst))
length_seam pre s dst i h =
    omega
      (arith, length-append pre (take i s ++ dst), length-append (take i s) dst, length-take i s)

module _ (src dst : Bytes) where
  -- One pass over the text; the first argument counts the bytes of an occurrence still to skip.
  pub replace_all : ℕ → Bytes → Bytes
  replace_all skip [] = []
  replace_all (suc skip) (x ∷ s) = replace_all skip s
  replace_all zero (x ∷ s) =
      let keep = x ∷ replace_all 0 s in
      let cut = dst ++ replace_all (length src - 1) s in
      if starts_with src (x ∷ s) then cut else keep

  replace_all_skip : (n : ℕ) (s : Bytes) → replace_all n s ≡ replace_all 0 (drop n s)
  unfolding replace_all
  replace_all_skip zero s = refl
  replace_all_skip (suc n) [] = refl
  replace_all_skip (suc n) (x ∷ s) = replace_all_skip n s

  module _ (nonempty : 0 < length src) where
    replace_all-none : (s : Bytes) → find src s ≡ none → replace_all 0 s ≡ s
    unfolding replace_all find
    replace_all-none [] h = refl
    replace_all-none (x ∷ s) h = ground (arith, replace_all-none s)

    replace_all-some :
        (s : Bytes) (i : ℕ)
        → find src s ≡ some i
        → replace_all 0 s ≡ take i s ++ (dst ++ replace_all 0 (drop (i + length src) s))
    unfolding replace_all find
    replace_all-some [] i h = absurd (omega (arith, length-find src [] i h))
    replace_all-some (x ∷ s) zero h =
        ground (arith, replace_all_skip (length src - 1) s, drop_pred (length src) x s nonempty)
    replace_all-some (x ∷ s) (suc i) h =
        ground (arith, replace_all-some s i, drop_shift i (length src) x s)

    replace_from-none :
        (fuel index : ℕ) (str : Bytes)
        → find_at src str index ≡ none
        → replace_from (suc fuel) str src dst index ≡ str
    unfolding replace_from
    replace_from-none fuel index str e = rw (e, replace_from)

    replace_from-some :
        (fuel index i : ℕ) (str : Bytes)
        → find_at src str index ≡ some i
        → replace_from (suc fuel) str src dst index
          ≡ replace_from fuel
              (take i str ++ (dst ++ drop (i + length src) str))
              src
              dst
              (i + length dst)
    unfolding replace_from
    replace_from-some fuel index i str e = rw (e, replace_from)

    find_at-append :
        (pre s : Bytes)
        → find_at src (pre ++ s) (length pre) ≡ Option.map (λ i. length pre + i) (find src s)
    unfolding find_at
    find_at-append pre s = ground (arith, length-append pre s, drop-append pre s (length pre))

    rejoin :
        (pre s : Bytes) (i : ℕ) (rest : Bytes)
        → replace_all 0 s ≡ take i s ++ (dst ++ rest)
        → (pre ++ (take i s ++ dst)) ++ rest ≡ pre ++ replace_all 0 s
    rejoin pre s i rest e = rw e (simp append_assoc)

    -- What is behind the index is replaced in one pass, if the fuel is at least its length.
    replace_from-append :
        (fuel : ℕ) (pre s : Bytes)
        → length s < fuel
        → replace_from fuel (pre ++ s) src dst (length pre) ≡ pre ++ replace_all 0 s
    replace_from-append zero pre s h = absurd (omega arith)
    replace_from-append (suc fuel) pre s h = elim (Option-cases (find src s)) [
      | inl e ↦
          replace_from-none fuel (length pre) (pre ++ s) (rw (find_at-append pre s, e))
          ∙ ap (◌++◌ pre) (sym (replace_all-none s e))
      | inr (i, e) ↦
          replace_from-some fuel (length pre) (length pre + i) (pre ++ s)
            (rw (find_at-append pre s, e))
          ∙ ap₂ (λ text index. replace_from fuel text src dst index) (seam pre s dst i (length src))
              (length_seam pre s dst i (omega (arith, length-find src s i e)))
          ∙ replace_from-append fuel (pre ++ (take i s ++ dst)) (drop (i + length src) s)
              (omega (arith, length-find src s i e, length-drop (i + length src) s))
          ∙ rejoin pre s i (replace_all 0 (drop (i + length src) s)) (replace_all-some s i e)
    ]

    -- For a text to replace that is not empty, `update_placeholder` is one replacement of every
    -- occurrence, from left to right.
    pub update_placeholder-eq-replace_all :
        (str : Bytes) → update_placeholder src dst str ≡ replace_all 0 str
    unfolding update_placeholder
    update_placeholder-eq-replace_all str =
        replace_from-append (length str + 1) [] str (omega arith)
