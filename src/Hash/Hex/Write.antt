-- ===== src/Hash/Hex/Write.antt =====
-- What is written: a number that fits has exactly `width` digits.
use gg.Prelude.{
  ℕ, zero, suc, ◌-◌, ◌*◌, ◌/◌, ◌%◌, ◌^◌, ◌≤◌, ◌<◌, ◌≡◌, refl, sym, ap, ◌∙◌, false, [], ◌∷◌, ◌++◌,
  ◌==◌, length, replicate, length-append, append_assoc, append-nil, arith,
}
use native.Mathlib.Nat.{pow-suc}
use gg.Text.{Bytes}
use gg.Hash.Hex.{hex_digit, hex_digits, hex_text}

-- The `k` lowest digits of `n`, most significant first.
unfoldable pub fixed : ℕ → ℕ → Bytes
fixed zero n = []
fixed (suc k) n = fixed k (n / 16) ++ hex_digit (n % 16) ∷ []

pub length-fixed : (k n : ℕ) → length (fixed k n) ≡ k
unfolding fixed
length-fixed zero n = refl
length-fixed (suc k) n =
    omega
      (arith, length-append (fixed k (n / 16)) (hex_digit (n % 16) ∷ []), length-fixed k (n / 16))

-- The digits of a number that is not zero, with an accumulator or without.
hex_digits-append : (fuel n : ℕ) (out : Bytes) → hex_digits fuel n out ≡ hex_digits fuel n [] ++ out
unfolding hex_digits
hex_digits-append zero n out = refl
hex_digits-append (suc fuel) n out = ground (
  arith,
  hex_digits-append fuel (n / 16) (hex_digit (n % 16) ∷ out),
  hex_digits-append fuel (n / 16) (hex_digit (n % 16) ∷ []),
  append_assoc (hex_digits fuel (n / 16) []) (hex_digit (n % 16) ∷ []) out,
)

replicate_snoc : (k c : ℕ) → replicate k c ++ c ∷ [] ≡ c ∷ replicate k c
replicate_snoc zero c = refl
replicate_snoc (suc k) c = ap (◌∷◌ c) (replicate_snoc k c)

fixed_zero : (k : ℕ) → fixed k 0 ≡ replicate k b'0'
unfolding fixed hex_digit
fixed_zero zero = refl
fixed_zero (suc k) = ap (λ s. s ++ b'0' ∷ []) (fixed_zero k) ∙ replicate_snoc k b'0'

pad : ℕ → Bytes → Bytes
pad width text = replicate (width - length text) b'0' ++ text

hex_digits_zero : (fuel : ℕ) → hex_digits fuel 0 [] ≡ []
unfolding hex_digits
hex_digits_zero zero = refl
hex_digits_zero (suc fuel) = refl

pad-hex_digits_zero : (k fuel : ℕ) → pad k (hex_digits fuel 0 []) ≡ fixed k 0
unfolding pad
pad-hex_digits_zero k fuel =
    rw (hex_digits_zero fuel, fixed_zero k, append-nil)
      (ap (λ (m : ℕ). replicate m b'0') (omega arith))

pub below_div : (k n : ℕ) → n < 16 ^ suc k → n / 16 < 16 ^ k
below_div k n b = let e : 16 ^ suc k ≡ 16 ^ k * 16 = pow-suc 16 k in omega arith

pad_snoc : (k d : ℕ) (s : Bytes) → pad (suc k) (s ++ d ∷ []) ≡ pad k s ++ d ∷ []
unfolding pad
pad_snoc k d s =
    ground
      (arith, length-append s (d ∷ []), append_assoc (replicate (k - length s) b'0') s (d ∷ []))

pad-hex_digits_step :
    (k fuel n : ℕ)
    → 0 < n
    → pad k (hex_digits fuel (n / 16) []) ≡ fixed k (n / 16)
    → pad (suc k) (hex_digits (suc fuel) n []) ≡ fixed (suc k) n
unfolding hex_digits fixed
pad-hex_digits_step k fuel n h e = ground (
  arith,
  hex_digits-append fuel (n / 16) (hex_digit (n % 16) ∷ []),
  pad_snoc k (hex_digit (n % 16)) (hex_digits fuel (n / 16) []),
)

pad-hex_digits : (k fuel n : ℕ) → k ≤ fuel → n < 16 ^ k → pad k (hex_digits fuel n []) ≡ fixed k n
unfolding pad
pad-hex_digits k fuel zero h b = pad-hex_digits_zero k fuel
pad-hex_digits zero fuel (suc n) h b = absurd (omega arith)
pad-hex_digits (suc k) zero (suc n) h b = absurd (omega arith)
pad-hex_digits (suc k) (suc fuel) (suc n) h b =
    pad-hex_digits_step k fuel (suc n) (omega arith)
      (pad-hex_digits k fuel (suc n / 16) (omega arith) (below_div k (suc n) b))

pad_one : (k : ℕ) (c : ℕ) → replicate k c ++ c ∷ [] ≡ replicate (suc k - 1) c ++ c ∷ []
pad_one k c = ap (λ (m : ℕ). replicate m c ++ c ∷ []) (omega arith)

nonzero_text : (width n : ℕ) → hex_text width (suc n) ≡ pad width (hex_digits 16 (suc n) [])
unfolding hex_text pad
nonzero_text width n = let e : (suc n == 0) ≡ false = ground arith in rw (e, hex_text)

-- A number that fits is written in exactly `width` digits.
pub hex_text-eq-fixed :
    (width n : ℕ) → 0 < width → width ≤ 16 → n < 16 ^ width → hex_text width n ≡ fixed width n
unfolding hex_text pad
hex_text-eq-fixed zero zero h w b = elim h [ ]
hex_text-eq-fixed (suc width) zero h w b =
    unfold fixed hex_digit in sym (ap (λ s. s ++ b'0' ∷ []) (fixed_zero width) ∙ pad_one width b'0')
hex_text-eq-fixed width (suc n) h w b = nonzero_text width n ∙ pad-hex_digits width 16 (suc n) w b
