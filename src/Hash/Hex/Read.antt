-- ===== src/Hash/Hex/Read.antt =====
-- What is read: the digits of a number below 2 ^ 32 give it back.
use gg.Prelude.{
  ℕ, zero, suc, ◌+◌, ◌*◌, ◌/◌, ◌%◌, ◌^◌, ◌<◌, ◌≡◌, refl, sym, ap, ◌∙◌, some, [], ◌∷◌, ◌++◌, ok,
  append_assoc, append-nil, arith,
}
use native.Mathlib.Nat.{pow-suc}
use gg.Text.{Bytes}
use gg.Hash.Hex.{
  hex_digit, digit_value, read_digits, is_space, skip_spaces, skip_0x, starts_with_digit, magnitude,
  signed, stoul_hex,
}
use gg.Hash.Hex.Write.{fixed, below_div}

digit_value-hex_digit : (d : ℕ) → d < 16 → digit_value (hex_digit d) ≡ some d
unfolding digit_value hex_digit
digit_value-hex_digit d h = ground arith

read_digits_cons :
    (k n acc : ℕ) (rest : Bytes)
    → read_digits (acc * 16 ^ k + n / 16) (hex_digit (n % 16) ∷ rest)
      ≡ read_digits (acc * 16 ^ suc k + n) rest
unfolding read_digits
read_digits_cons k n acc rest =
    rw (digit_value-hex_digit (n % 16) (omega arith), read_digits)
      (ap (λ (m : ℕ). read_digits m rest)
        (let e : 16 ^ suc k ≡ 16 ^ k * 16 = pow-suc 16 k in
          omega (arith, ap (λ (m : ℕ). acc * m) e)))

-- `k` digits add their value below the digits that were read before.
read_digits-fixed :
    (k n acc : ℕ) (rest : Bytes)
    → n < 16 ^ k
    → read_digits acc (fixed k n ++ rest) ≡ read_digits (acc * 16 ^ k + n) rest
unfolding fixed
read_digits-fixed zero n acc rest b = ap (λ (m : ℕ). read_digits m rest) (omega arith)
read_digits-fixed (suc k) n acc rest b =
    ap (read_digits acc) (append_assoc (fixed k (n / 16)) (hex_digit (n % 16) ∷ []) rest)
    ∙ read_digits-fixed k (n / 16) acc (hex_digit (n % 16) ∷ rest) (below_div k n b)
    ∙ read_digits_cons k n acc rest

stoul_hex_lem : (s : Bytes) → stoul_hex s ≡ signed (skip_spaces s)
unfolding stoul_hex
stoul_hex_lem s = refl

skip_spaces_digit : (a : ℕ) (s : Bytes) → a < 16 → skip_spaces (hex_digit a ∷ s) ≡ hex_digit a ∷ s
unfolding skip_spaces is_space hex_digit
skip_spaces_digit a s h = ground arith

skip_0x_digits :
    (a b : ℕ) (s : Bytes)
    → b < 16
    → skip_0x (hex_digit a ∷ hex_digit b ∷ s) ≡ hex_digit a ∷ hex_digit b ∷ s
unfolding skip_0x hex_digit
skip_0x_digits a b s h = ground arith

magnitude_digits :
    (a b : ℕ) (s : Bytes)
    → a < 16
    → b < 16
    → read_digits 0 (hex_digit a ∷ hex_digit b ∷ s) < 2 ^ 64
    → magnitude (hex_digit a ∷ hex_digit b ∷ s) ≡ ok (read_digits 0 (hex_digit a ∷ hex_digit b ∷ s))
unfolding magnitude starts_with_digit
magnitude_digits a b s ha hb h =
    rw (skip_0x_digits a b s hb) (ground (arith, digit_value-hex_digit a ha))

signed_digits :
    (a : ℕ) (s : Bytes) → a < 16 → signed (hex_digit a ∷ s) ≡ magnitude (hex_digit a ∷ s)
unfolding signed hex_digit
signed_digits a s h = ground arith

-- Two digits at the front are no sign, no space and no prefix.
stoul_hex_digits :
    (a b : ℕ) (s : Bytes)
    → a < 16
    → b < 16
    → read_digits 0 (hex_digit a ∷ hex_digit b ∷ s) < 2 ^ 64
    → stoul_hex (hex_digit a ∷ hex_digit b ∷ s) ≡ ok (read_digits 0 (hex_digit a ∷ hex_digit b ∷ s))
stoul_hex_digits a b s ha hb h =
    stoul_hex_lem (hex_digit a ∷ hex_digit b ∷ s)
    ∙ ap signed (skip_spaces_digit a (hex_digit b ∷ s) ha)
    ∙ signed_digits a (hex_digit b ∷ s) ha
    ∙ magnitude_digits a b s ha hb h

read_digits_fixed8 : (n : ℕ) → n < 2 ^ 32 → read_digits 0 (fixed 8 n) ≡ n
read_digits_fixed8 n h =
    ap (read_digits 0) (sym (append-nil (fixed 8 n)))
    ∙ read_digits-fixed 8 n 0 [] h
    ∙ unfold read_digits in omega arith

-- Eight digits are read back.
pub stoul_hex-fixed : (n : ℕ) → n < 2 ^ 32 → stoul_hex (fixed 8 n) ≡ ok n
unfolding fixed
stoul_hex-fixed n h =
    stoul_hex_digits (n / 16 / 16 / 16 / 16 / 16 / 16 / 16 % 16)
      (n / 16 / 16 / 16 / 16 / 16 / 16 % 16) _ (omega arith) (omega arith)
      (rw (read_digits_fixed8 n h) (omega arith))
    ∙ ap ok (read_digits_fixed8 n h)
