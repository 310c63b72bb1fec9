-- ===== src/Text/Find.antt =====
-- `find`: the first place at which a text stands. `none` is `npos`.
use gg.Prelude.{
  ℕ, suc, ◌+◌, ◌-◌, ◌≤◌, ◌≡◌, ◌≢◌, refl, ap, Bool, true, false, ◌&&◌, Option, none, some, [], ◌∷◌,
  ◌++◌, arith, ◌==◌, leb, if◌then◌else◌, length, drop, All,
}
use mathlib.Core.Option
use package.gg.Text.Ops.{Bytes}

unfoldable pub starts_with : Bytes → Bytes → Bool
starts_with [] s = true
starts_with (c ∷ p) [] = false
starts_with (c ∷ p) (x ∷ s) = c == x && starts_with p s

unfoldable pub find : Bytes → Bytes → Option ℕ
find p [] = if starts_with p [] then some 0 else none
find p (x ∷ s) = if starts_with p (x ∷ s) then some 0 else Option.map suc (find p s)

-- `s.find( p, pos )`.
unfoldable pub find_at : Bytes → Bytes → ℕ → Option ℕ
find_at p s pos =
    if leb pos (length s) then Option.map (λ i. pos + i) (find p (drop pos s)) else none

pub starts_with-append : (p s : Bytes) → starts_with p (p ++ s) ≡ true
unfolding starts_with
starts_with-append [] s = refl
starts_with-append (c ∷ p) s = ground (arith, starts_with-append p s)

-- A text that starts with `p` is `p` and what follows it.
pub append_of_starts_with : (p s : Bytes) → starts_with p s ≡ true → s ≡ p ++ drop (length p) s
unfolding starts_with
append_of_starts_with [] s h = refl
append_of_starts_with (c ∷ p) [] h = ground arith
append_of_starts_with (c ∷ p) (x ∷ s) h = ground (arith, append_of_starts_with p s)

-- A prefix that is there stays there when more text comes.
pub starts_with-append_le :
    (p s t : Bytes) → length p ≤ length s → starts_with p (s ++ t) ≡ starts_with p s
unfolding starts_with
starts_with-append_le [] s t h = refl
starts_with-append_le (c ∷ p) [] t h = absurd (omega arith)
starts_with-append_le (c ∷ p) (x ∷ s) t h =
    ap (λ b. (c == x) && b) (starts_with-append_le p s t (omega arith))

pub length-starts_with : (p s : Bytes) → starts_with p s ≡ true → length p ≤ length s
unfolding starts_with
length-starts_with [] s h = omega arith
length-starts_with (c ∷ p) [] h = ground arith
length-starts_with (c ∷ p) (x ∷ s) h = ground (arith, length-starts_with p s)

-- What is found lies inside the text.
pub length-find : (p s : Bytes) (i : ℕ) → find p s ≡ some i → i + length p ≤ length s
unfolding find
length-find p [] i h = ground (arith, length-starts_with p [])
length-find p (x ∷ s) i h = ground (arith, length-starts_with p (x ∷ s), length-find p s (i - 1))

-- What has been found is found again, at the same place, when more text comes.
pub find-append : (p s t : Bytes) (i : ℕ) → find p s ≡ some i → find p (s ++ t) ≡ some i
unfolding find
find-append p [] [] i h = h
find-append [] [] (y ∷ t) i h = unfold starts_with in h
find-append (c ∷ p) [] (y ∷ t) i h = unfold starts_with in ground arith
find-append p (x ∷ s) t i h = ground (
  arith,
  starts_with-append_le p (x ∷ s) t,
  length-starts_with p (x ∷ s),
  length-find p s (i - 1),
  find-append p s t (i - 1),
)

-- No byte of the text is `c`.
abbrev pub Lacks : ℕ → Bytes → Type 0
Lacks c = All (λ x. x ≢ c)

-- The first `c` stands behind the bytes that are not `c`.
pub find_byte : (c : ℕ) (s t : Bytes) → Lacks c s → find (c ∷ []) (s ++ c ∷ t) ≡ some (length s)
unfolding find starts_with
find_byte c [] t h = ground arith
find_byte c (x ∷ s) t h = ground (arith, find_byte c s t h.1, h.0)

pub find_byte-none : (c : ℕ) (s : Bytes) → Lacks c s → find (c ∷ []) s ≡ none
unfolding find starts_with
find_byte-none c [] h = refl
find_byte-none c (x ∷ s) h = ground (arith, find_byte-none c s h.1, h.0)
