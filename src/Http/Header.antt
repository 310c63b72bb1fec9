-- ===== src/Http/Header.antt =====
-- A header line, written and read.
use gg.Prelude.{
  ℕ, suc, ◌+◌, ◌≡◌, refl, ap, ◌∙◌, false, some, [], ◌∷◌, ◌++◌, arith, length, take, drop, is_empty,
  ok, take-append,
}
use gg.Text.{Bytes, find, Lacks, find_byte}
use package.gg.Http.{HttpHeader, header_of, header_str, strip_value, drop_spaces}

-- A value that neither is empty nor begins with a space.
abbrev pub IsStripped : Bytes → Type 0
IsStripped s = (is_empty s ≡ false) × (drop_spaces s ≡ s)

strip_value_back : (v : Bytes) → IsStripped v → strip_value (b' ' ∷ v) ≡ v
unfolding strip_value drop_spaces
strip_value_back v h = ground (arith, h.0, h.1)

header_of_found :
    (s : Bytes) (i : ℕ)
    → find (b':' ∷ []) s ≡ some i
    → header_of s ≡ ok (record { key = take i s; value = strip_value (drop (i + 1) s) })
unfolding header_of
header_of_found s i e = rw (e, header_of) refl

drop_key : (k v : Bytes) (c : ℕ) → drop (length k + 1) (k ++ c ∷ v) ≡ v
drop_key [] v c = refl
drop_key (x ∷ k) v c =
    ap (λ (n : ℕ). drop n (x ∷ (k ++ c ∷ v)))
      (let e : suc (length k) + 1 ≡ suc (length k + 1) = omega arith in e)
    ∙ drop_key k v c

-- A header whose name has no colon, and whose value is not empty and does not begin with a space,
-- is read back from the line that is written for it.
pub header_of-header_str :
    (h : HttpHeader) → Lacks b':' h.key → IsStripped h.value → header_of (header_str h) ≡ ok h
unfolding header_str
header_of-header_str h k v =
    header_of_found (header_str h) (length h.key) (find_byte b':' h.key (b' ' ∷ h.value) k)
    ∙ rw
        (
          take-append h.key (b':' ∷ b' ' ∷ h.value) (length h.key) refl,
          drop_key h.key (b' ' ∷ h.value) b':',
          strip_value_back h.value v,
        )
        refl
