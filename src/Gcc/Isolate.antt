-- ===== src/Gcc/Isolate.antt =====
-- The arguments of a thunk name its input and no other.
use gg.Prelude.{
  inl, inr, ℕ, suc, ◌≡◌, refl, ap, sym, subst, ◌∙◌, true, false, List, [], ◌∷◌, ◌++◌, append_assoc,
  append-nil, arith, ◌==◌, if◌then◌else◌, length, length-append, ok, Bool-cases,
}
use gg.Text.{Bytes, codes}
use package.gg.Gcc.{language_to_name}
use package.gg.Gcc.Arguments.{InputFile, GccArguments}
use package.gg.Gcc.Indices.{Indexed, IsIndexed, get_elem?-below}
use package.gg.Gcc.ThunkArgs.{erase_at, put_at, put_input, only_input}

-- The command line, read from the position `pos` on, without the words of the inputs; at the index of
-- the input itself there are `words`.
unfoldable pub isolated : List Bytes → ℕ → ℕ → List InputFile → List Bytes → List Bytes
isolated words index pos fs [] = []
isolated words index pos [] (w ∷ ws) = w ∷ ws
isolated words index pos (f ∷ fs) (w ∷ ws) =
    let rest = isolated words index (suc pos) fs ws in
    let later = isolated words index (suc pos) (f ∷ fs) ws in
    if f.index == pos then (if f.index == index then words ++ rest else rest) else w ∷ later

erase_at-append :
    (pre ws : List Bytes) (w : Bytes) → erase_at (length pre) (pre ++ w ∷ ws) ≡ pre ++ ws
unfolding erase_at
erase_at-append [] ws w = refl
erase_at-append (x ∷ pre) ws w = ap (◌∷◌ x) (erase_at-append pre ws w)

put_at-append :
    (words pre ws : List Bytes) (w : Bytes)
    → put_at (length pre) words (pre ++ w ∷ ws) ≡ pre ++ (words ++ ws)
unfolding put_at
put_at-append words [] ws w = refl
put_at-append words (x ∷ pre) ws w = ap (◌∷◌ x) (put_at-append words pre ws w)

Indexed-later :
    (pos : ℕ) (args : List Bytes) (f : InputFile) (fs : List InputFile)
    → Indexed pos args (f ∷ fs)
    → (f.index == pos) ≡ false
    → Indexed (suc pos) args (f ∷ fs)
unfolding Indexed
Indexed-later pos args f fs h n = (ground (arith, h.0, n), h.1, h.2)

module _ (input : InputFile) (language : Bytes)
    (named : language_to_name input.language ≡ ok language) where
  abbrev words : List Bytes
  words = codes "-x" ∷ language ∷ input.name ∷ []

  put_input_other :
      (f : InputFile) (args : List Bytes)
      → (f.index == input.index) ≡ false
      → put_input input f args ≡ ok (erase_at f.index args)
  unfolding put_input erase_at
  put_input_other f args h = rw (put_input, h) refl

  put_input_same :
      (f : InputFile) (args : List Bytes)
      → (f.index == input.index) ≡ true
      → put_input input f args ≡ ok (put_at input.index words args)
  unfolding put_input put_at
  put_input_same f args h = rw (put_input, h, named) refl

  -- What the loop does at an input.
  put_input-append :
      (f : InputFile) (pre ws : List Bytes) (w : Bytes)
      → f.index ≡ length pre
      → put_input input f (pre ++ w ∷ ws)
        ≡ ok (pre ++ (if f.index == input.index then words ++ ws else ws))
  put_input-append f pre ws w e = elim (Bool-cases (f.index == input.index)) [
    | inl same ↦
        put_input_same f (pre ++ w ∷ ws) same
        ∙ ap (λ (n : ℕ). ok (put_at n words (pre ++ w ∷ ws)))
            (let q : input.index ≡ length pre = ground (arith, same, e) in q)
        ∙ ap ok (put_at-append words pre ws w)
        ∙ rw same refl
    | inr other ↦
        put_input_other f (pre ++ w ∷ ws) other
        ∙ ap (λ (n : ℕ). ok (erase_at n (pre ++ w ∷ ws))) e
        ∙ ap ok (erase_at-append pre ws w)
        ∙ rw other refl
  ]

  only_input-cons :
      (f : InputFile) (fs : List InputFile) (args later : List Bytes)
      → only_input input fs args ≡ ok later
      → only_input input (f ∷ fs) args ≡ put_input input f later
  unfolding only_input
  only_input-cons f fs args later h = rw h refl

  isolated_here :
      (f : InputFile) (fs : List InputFile) (pos : ℕ) (w : Bytes) (ws : List Bytes)
      → (f.index == pos) ≡ true
      → isolated words input.index pos (f ∷ fs) (w ∷ ws) ≡ (
          if f.index == input.index
          then words ++ isolated words input.index (suc pos) fs ws
          else isolated words input.index (suc pos) fs ws)
  unfolding isolated
  isolated_here f fs pos w ws h = rw (isolated, h) refl

  isolated_later :
      (f : InputFile) (fs : List InputFile) (pos : ℕ) (w : Bytes) (ws : List Bytes)
      → (f.index == pos) ≡ false
      → isolated words input.index pos (f ∷ fs) (w ∷ ws)
        ≡ w ∷ isolated words input.index (suc pos) (f ∷ fs) ws
  unfolding isolated
  isolated_later f fs pos w ws h = rw (isolated, h) refl

  isolated-nil : (pos : ℕ) (ws : List Bytes) → isolated words input.index pos [] ws ≡ ws
  unfolding isolated
  isolated-nil pos [] = refl
  isolated-nil pos (w ∷ ws) = refl

  too_short :
      (pre : List Bytes) (pos : ℕ) (f : InputFile) (fs : List InputFile) (args : List Bytes)
      → length pre ≡ pos
      → args ≡ pre ++ []
      → ¬ Indexed pos args (f ∷ fs)
  unfolding Indexed
  too_short pre pos f fs args l q h =
      let below = get_elem?-below args f.index _ h.1 in
      let long = ap length (q ∙ append-nil pre) in omega (arith, below, long, h.0, l)

  Indexed-rest :
      (pos : ℕ) (f : InputFile) (fs : List InputFile) (args : List Bytes)
      → Indexed pos args (f ∷ fs)
      → f.index ≡ pos
      → Indexed (suc pos) args fs
  unfolding Indexed
  Indexed-rest pos f fs args h e = subst (λ n. Indexed (suc n) args fs) e h.2

  -- The loop over the inputs whose words are not in `pre`.
  only_input-append :
      (ws : List Bytes) (pre : List Bytes) (pos : ℕ) (fs : List InputFile) (args : List Bytes)
      → length pre ≡ pos
      → args ≡ pre ++ ws
      → Indexed pos args fs
      → only_input input fs args ≡ ok (pre ++ isolated words input.index pos fs ws)
  unfolding only_input
  only_input-append ws pre pos [] args l q h = ap ok (q ∙ ap (pre ++◌) (sym (isolated-nil pos ws)))
  only_input-append [] pre pos (f ∷ fs) args l q h = absurd (too_short pre pos f fs args l q h)
  only_input-append (w ∷ ws) pre pos (f ∷ fs) args l q h =
      let l' : length (pre ++ w ∷ []) ≡ suc pos = omega (arith, length-append pre (w ∷ []), l) in
      let q' = q ∙ sym (append_assoc pre (w ∷ []) ws) in
      elim (Bool-cases (f.index == pos)) [
        | inl here ↦
            let e : f.index ≡ pos = ground (arith, here) in
            only_input-cons f fs args (pre ++ w ∷ isolated words input.index (suc pos) fs ws) (
              only_input-append ws (pre ++ w ∷ []) (suc pos) fs args l' q'
                (Indexed-rest pos f fs args h e)
              ∙ ap ok (append_assoc pre (w ∷ []) _))
            ∙ put_input-append f pre (isolated words input.index (suc pos) fs ws) w (e ∙ sym l)
            ∙ ap (λ (r : List Bytes). ok (pre ++ r)) (sym (isolated_here f fs pos w ws here))
        | inr later ↦
            only_input-append ws (pre ++ w ∷ []) (suc pos) (f ∷ fs) args l' q'
              (Indexed-later pos args f fs h later)
            ∙ ap ok (append_assoc pre (w ∷ []) _)
            ∙ ap (λ (r : List Bytes). ok (pre ++ r)) (sym (isolated_later f fs pos w ws later))
      ]

  -- Where the inputs know their places on the command line, the loop that erases them, from the last
  -- one to the first, leaves the other words in their order, and at the place of the thunk's input
  -- -x, its language and its name.
  pub only_input-isolated :
      (a : GccArguments)
      → IsIndexed a
      → only_input input a.input_files a.args
        ≡ ok (isolated words input.index 0 a.input_files a.args)
  unfolding IsIndexed
  only_input-isolated a h = only_input-append a.args [] 0 a.input_files a.args refl refl h
