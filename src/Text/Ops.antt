-- ===== src/Text/Ops.antt =====
-- Bytes, literals, comparison and `substr`.
use Prim.Native.Char.{code}
use Prim.Native.String.{String}
use gg.Prelude.{
  ℕ, ◌≡◌, refl, ◌↔◌, Bool, true, false, ◌&&◌, List, [], ◌∷◌, arith, ◌==◌, leb, if◌then◌else◌,
  length, take, drop, Result, ok, err, out_of_range,
}

abbrev pub Bytes : Type 0
Bytes = List ℕ

-- The bytes of an ASCII literal.
abbrev pub codes : String → Bytes
codes String.[] = []
codes (String.◌∷◌ c s) = code c ∷ codes s

infix 50 ◌≈◌
unfoldable pub ◌≈◌ : Bytes → Bytes → Bool
[] ≈ [] = true
[] ≈ (y ∷ t) = false
(x ∷ s) ≈ [] = false
(x ∷ s) ≈ (y ∷ t) = x == y && s ≈ t

pub ≈-refl : (s : Bytes) → (s ≈ s) ≡ true
unfolding ◌≈◌
≈-refl [] = refl
≈-refl (x ∷ s) = ground (arith, ≈-refl s)

pub eq_of_≈ : (s t : Bytes) → (s ≈ t) ≡ true → s ≡ t
unfolding ◌≈◌
eq_of_≈ [] [] h = refl
eq_of_≈ [] (y ∷ t) h = ground arith
eq_of_≈ (x ∷ s) [] h = ground arith
eq_of_≈ (x ∷ s) (y ∷ t) h = ground (arith, eq_of_≈ s t)

pub ≈_iff : (s t : Bytes) → ((s ≈ t) ≡ true) ↔ (s ≡ t)
≈_iff s t = (eq_of_≈ s t, λ e. ground (arith, ≈-refl s))

-- `s.substr( pos, n )`, which throws where `pos` is past the end.
unfoldable pub substr : Bytes → ℕ → ℕ → Result Bytes
substr s pos n =
    if leb pos (length s) then ok (take n (drop pos s)) else err (out_of_range "substr")

-- `s.substr( pos )`.
unfoldable pub substr_from : Bytes → ℕ → Result Bytes
substr_from s pos = if leb pos (length s) then ok (drop pos s) else err (out_of_range "substr")
