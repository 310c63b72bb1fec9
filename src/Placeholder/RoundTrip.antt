-- ===== src/Placeholder/RoundTrip.antt =====
-- A placeholder that is written is read back.
use gg.Prelude.{
  ℕ, zero, suc, ◌≤◌, ◌<◌, ◌⊎◌, inl, inr, Bool-cases, leb, err, runtime_error, ◌+◌, ◌≡◌, refl, ap,
  sym, ◌∙◌, true, false, none, some, [], ◌∷◌, ◌++◌, ltb, arith, is_empty, length, length-append,
  take, drop, All, ok,
}
use gg.Text.{Bytes, ◌≈◌, starts_with}
use package.gg.Placeholder.{
  PlaceholderType, linker_script, shell_script, shebang_directive, library_directive, directive,
  trailer, str, is_space, skip_spaces, take_word, buffer_of, has_directive, read_hash, read,
  is_placeholder, written, placeholder_type,
}

-- No byte of the text is white space.
abbrev pub Solid : Bytes → Type 0
Solid = All (λ c. is_space c ≡ false)

take_word-Solid : (s rest : Bytes) → Solid s → take_word (s ++ (10 ∷ rest)) ≡ (s, 10 ∷ rest)
unfolding take_word
take_word-Solid [] rest h = unfold is_space in refl
take_word-Solid (c ∷ s) rest h = rw (h.0, take_word-Solid s rest h.1) refl

skip_spaces-Solid :
    (s rest : Bytes) → is_empty s ≡ false → Solid s → skip_spaces (s ++ rest) ≡ s ++ rest
unfolding skip_spaces
skip_spaces-Solid [] rest e h = cc
skip_spaces-Solid (c ∷ s) rest e h = rw h.0 refl

read_hash-Solid :
    (s rest : Bytes) → is_empty s ≡ false → Solid s → read_hash (s ++ (10 ∷ rest)) ≡ ok (some s)
unfolding read_hash
read_hash-Solid s rest e h =
    rw (skip_spaces-Solid s (10 ∷ rest) e h, take_word-Solid s rest h, e) refl

-- A text that starts with another one still does where its front is followed by something else.
starts_with-take :
    (p s left : Bytes) (n m : ℕ)
    → length p ≤ n
    → length p ≤ length s
    → starts_with p (take n s ++ drop m left) ≡ starts_with p s
unfolding starts_with
starts_with-take [] s left n m a b = refl
starts_with-take (c ∷ p) s left zero m a b = absurd (omega arith)
starts_with-take (c ∷ p) [] left (suc n) m a b = absurd (omega arith)
starts_with-take (c ∷ p) (x ∷ s) left (suc n) m a b =
    ground (arith, starts_with-take p s left n m (omega arith) (omega arith))

has_directive-buffer_of :
    (left content : Bytes)
    → length shebang_directive ≤ length content
    → has_directive (buffer_of left content) ≡ has_directive content
unfolding has_directive buffer_of
has_directive-buffer_of left content h =
    let n = length shebang_directive + 1 in
    let m = length (take n content) in
    rw
      (
        starts_with-take shebang_directive content left n m (omega arith) h,
        starts_with-take library_directive content left n m (omega arith) h,
      )
      refl

read_long :
    (left content : Bytes)
    → has_directive content ≡ true
    → ltb (length content) (length shebang_directive + 1) ≡ false
    → read left content ≡ read_hash (drop (length shebang_directive + 1) content)
unfolding read
read_long left content h l =
    let enough : length shebang_directive ≤ length content = ground arith in
    rw (has_directive-buffer_of left content enough, h, l) refl

long :
    (t : PlaceholderType) (s : Bytes)
    → ltb (length (directive t ++ 10 ∷ s)) (length shebang_directive + 1) ≡ false
unfolding directive
long linker_script s = ground (arith, length-append library_directive (10 ∷ s))
long shell_script s = ground (arith, length-append shebang_directive (10 ∷ s))

has_directive-directive :
    (t : PlaceholderType) (s : Bytes) → has_directive (directive t ++ 10 ∷ s) ≡ true
unfolding has_directive directive starts_with
has_directive-directive linker_script s = refl
has_directive-directive shell_script s = refl

drop-directive :
    (t : PlaceholderType) (s : Bytes)
    → drop (length shebang_directive + 1) (directive t ++ 10 ∷ s) ≡ s
unfolding directive
drop-directive linker_script s = refl
drop-directive shell_script s = refl

is_placeholder-directive :
    (t : PlaceholderType) (s : Bytes) → is_placeholder (directive t ++ 10 ∷ s) ≡ true
unfolding is_placeholder directive ◌≈◌
is_placeholder-directive linker_script s = refl
is_placeholder-directive shell_script s = refl

read-str :
    (t : PlaceholderType) (left s : Bytes)
    → is_empty s ≡ false
    → Solid s
    → read left (str t s) ≡ ok (some s)
unfolding str
read-str t left s e h =
    read_long left (str t s) (has_directive-directive t _) (long t _)
    ∙ ap read_hash (drop-directive t (s ++ 10 ∷ trailer t))
    ∙ read_hash-Solid s (trailer t) e h

-- A placeholder that is written for a file, of whatever name, is recognised by both readers, and the
-- object's name is read back from it, where that is not empty and has no white space.
pub read-written :
    (left filename content_hash : Bytes)
    → is_empty content_hash ≡ false
    → Solid content_hash
    → (read left (written filename content_hash) ≡ ok (some content_hash))
      × (is_placeholder (written filename content_hash) ≡ true)
unfolding written str
read-written left filename content_hash e h = (
  read-str (placeholder_type filename) left content_hash e h,
  is_placeholder-directive (placeholder_type filename) _,
)

-- A text starts with another one exactly where its front is that text.
take-starts_with : (p s : Bytes) → (take (length p) s ≈ p) ≡ starts_with p s
unfolding ◌≈◌ starts_with
take-starts_with [] s = refl
take-starts_with (c ∷ p) [] = refl
take-starts_with (c ∷ p) (x ∷ s) = ground (arith, take-starts_with p s)

is_placeholder-has_directive : (content : Bytes) → is_placeholder content ≡ has_directive content
unfolding is_placeholder has_directive
is_placeholder-has_directive content =
    rw (take-starts_with shebang_directive content, take-starts_with library_directive content) refl

starts_with-short : (p s : Bytes) → length s < length p → starts_with p s ≡ false
unfolding starts_with
starts_with-short [] s h = absurd (omega arith)
starts_with-short (c ∷ p) [] h = refl
starts_with-short (c ∷ p) (x ∷ s) h = ground (arith, starts_with-short p s (omega arith))

has_directive-short :
    (content : Bytes) → length content < length shebang_directive → has_directive content ≡ false
unfolding has_directive
has_directive-short content h =
    rw
      (starts_with-short shebang_directive content h, starts_with-short library_directive content h)
      refl

read_passed_over :
    (left content : Bytes)
    → has_directive (buffer_of left content) ≡ false
    → read left content ≡ ok none
unfolding read
read_passed_over left content h = rw h refl

read_cut :
    (left content : Bytes)
    → has_directive (buffer_of left content) ≡ true
    → length content < length shebang_directive
    → read left content ≡ err (runtime_error "failed reading from ")
unfolding read
read_cut left content h l =
    let short : ltb (length content) (length shebang_directive + 1) ≡ true = ground arith in
    rw (h, short) refl

read_taken :
    (left content : Bytes)
    → has_directive (buffer_of left content) ≡ true
    → ¬ (read left content ≡ ok none)
unfolding read read_hash
read_taken left content h e = ground arith

-- The two readers agree on a file that is as long as a directive: what one says is no placeholder, the
-- other one passes over, and what it says is one, the other one reads or fails on. A shorter file is no
-- placeholder to the one; the other one passes it over too, or fails on it.
pub is_placeholder-read :
    (left content : Bytes)
    → ((is_placeholder content ≡ true) × ¬ (read left content ≡ ok none))
      ⊎ ((is_placeholder content ≡ false) × (read left content ≡ ok none))
      ⊎ ((is_placeholder content ≡ false)
          × (length content < length shebang_directive)
          × (read left content ≡ err (runtime_error "failed reading from ")))
is_placeholder-read left content =
    let same = is_placeholder-has_directive content in
    elim (Bool-cases (has_directive (buffer_of left content))) [
      | inl taken ↦ elim (Bool-cases (leb (length shebang_directive) (length content))) [
        | inl l ↦
            let enough : length shebang_directive ≤ length content = ground arith in
            inl (
              same ∙ sym (has_directive-buffer_of left content enough) ∙ taken,
              read_taken left content taken,
            )
        | inr l ↦
            let short : length content < length shebang_directive = ground arith in
            inr (
              inr (
                same ∙ has_directive-short content short,
                short,
                read_cut left content taken short,
              ))
      ]
      | inr passed ↦ elim (Bool-cases (leb (length shebang_directive) (length content))) [
        | inl l ↦
            let enough : length shebang_directive ≤ length content = ground arith in
            inr (
              inl (
                same ∙ sym (has_directive-buffer_of left content enough) ∙ passed,
                read_passed_over left content passed,
              ))
        | inr l ↦
            let short : length content < length shebang_directive = ground arith in
            inr
              (inl (same ∙ has_directive-short content short, read_passed_over left content passed))
      ]
    ]
