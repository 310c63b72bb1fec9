-- ===== src/Hash/Hex.antt =====
-- Hexadecimal, as `ostream << setfill( '0' ) << setw( w ) << hex` writes it and `stoul` reads it.
pub mod Write
pub mod Read
use gg.Prelude.{
  ℕ, zero, suc, ◌+◌, ◌-◌, ◌*◌, ◌/◌, ◌%◌, ◌^◌, ◌≤◌, ◌<◌, ◌≡◌, ◌≢◌, refl, sym, ap, ◌∙◌, Bool, true,
  false, ◌&&◌, ◌||◌, not, Option, none, some, List, [], ◌∷◌, ◌++◌, ltb, leb, ◌==◌, if◌then◌else◌,
  length, replicate, is_empty, All, All-append, Result, ok, err, out_of_range, invalid_argument,
  length-append, length-replicate, append_assoc, append-nil, arith,
}
use native.Mathlib.Nat.{pow-suc}
use gg.Text.{Bytes, codes}

unfoldable pub hex_digit : ℕ → ℕ
hex_digit d = if ltb d 10 then b'0' + d else b'a' + (d - 10)

-- The digits of `n`, least last, in front of `out`; sixteen are enough for a `size_t`.
unfoldable pub hex_digits : ℕ → ℕ → Bytes → Bytes
hex_digits zero n out = out
hex_digits (suc fuel) n out =
    let more = hex_digits fuel (n / 16) (hex_digit (n % 16) ∷ out) in if n == 0 then out else more

unfoldable pub hex_text : ℕ → ℕ → Bytes
hex_text width n =
    let text : Bytes = if n == 0 then b'0' ∷ [] else hex_digits 16 n [] in
    replicate (width - length text) b'0' ++ text

-- The value of a digit.
unfoldable pub digit_value : ℕ → Option ℕ
digit_value c =
    if leb b'0' c && leb c b'9'
    then some (c - b'0')
    else if leb b'a' c && leb c b'f'
    then some (c - b'a' + 10)
    else if leb b'A' c && leb c b'F'
    then some (c - b'A' + 10)
    else none

-- The digits at the front of the text, up to the first byte that is none.
unfoldable pub read_digits : ℕ → Bytes → ℕ
read_digits n [] = n
read_digits n (c ∷ s) = elim (digit_value c) [ none ↦ n | some d ↦ read_digits (n * 16 + d) s ]

is_space : ℕ → Bool
is_space c = c == b' ' || (leb 9 c && leb c 13)

unfoldable pub skip_spaces : Bytes → Bytes
unfolding is_space
skip_spaces [] = []
skip_spaces (c ∷ s) = elim (is_space c) [ true ↦ skip_spaces s | false ↦ c ∷ s ]

starts_with_digit : Bytes → Bool
starts_with_digit [] = false
starts_with_digit (c ∷ s) = elim (digit_value c) [ none ↦ false | some d ↦ true ]

-- `0x` is skipped only where a digit follows.
skip_0x : Bytes → Bytes
skip_0x (z ∷ x ∷ s) =
    if z == b'0' && ((x == b'x' || x == b'X') && starts_with_digit s) then s else z ∷ x ∷ s
skip_0x s = s

magnitude : Bytes → Result ℕ
magnitude s =
    let t = skip_0x s in
    if not (starts_with_digit t)
    then err (invalid_argument "stoul")
    else if leb (2 ^ 64) (read_digits 0 t)
    then err (out_of_range "stoul")
    else ok (read_digits 0 t)

negated : Result ℕ → Result ℕ
negated (ok n) = ok ((2 ^ 64 - n) % 2 ^ 64)
negated (err e) = err e

signed : Bytes → Result ℕ
signed [] = err (invalid_argument "stoul")
signed (c ∷ s) =
    if c == b'-'
    then negated (magnitude s)
    else if c == b'+'
    then magnitude s
    else magnitude (c ∷ s)

-- `stoul( s, nullptr, 16 )`
unfoldable pub stoul_hex : Bytes → Result ℕ
unfolding signed magnitude negated skip_0x starts_with_digit read_digits digit_value skip_spaces
stoul_hex s = signed (skip_spaces s)
