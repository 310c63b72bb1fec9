-- ===== src/Hash.antt =====
-- src/thunk/ggutils.cc, namespace gg::hash, and src/util/digest.cc. The name of an object is its
-- type, the base64 SHA-256 of its contents, and its length in hexadecimal. SHA-256 and the
-- decoder are Crypto++'s: parameters here.
pub mod Hex
pub mod Fields
use gg.Prelude.{
  ℕ, zero, suc, ◌+◌, ◌-◌, ◌*◌, ◌/◌, ◌%◌, ◌^◌, ◌≡◌, Bool, true, false, ◌&&◌, ◌||◌, Option, none,
  some, List, [], ◌∷◌, ◌++◌, map, ltb, leb, ◌==◌, if◌then◌else◌, length, take, drop, replicate, All,
  Result, ok, err, runtime_error, out_of_range, assert_failed, ◌>>=◌, ◌>>◌, guard,
}
use gg.Text.{Bytes, codes, ◌≈◌, find, substr}
use Hex.{hex_text, stoul_hex}

pub data ObjectType : Type 0 where
  value thunk : ObjectType

unfoldable pub to_underlying : ObjectType → ℕ
to_underlying value = b'V'
to_underlying thunk = b'T'

-- The type that a name says; other first bytes are refused.
unfoldable pub type : Bytes → Result ObjectType
type [] = err (runtime_error "invalid hash")
type (c ∷ s) =
    if c == b'T'
    then ok thunk
    else if c == b'V'
    then ok value
    else err (runtime_error "invalid hash type")

-- The name without an output's tag.
unfoldable pub base : Bytes → Bytes
base hash = elim (find (b'#' ∷ []) hash) [ none ↦ hash | some pos ↦ take pos hash ]

unfoldable pub for_output : Bytes → Bytes → Bytes
for_output thunk_hash output_tag = thunk_hash ++ b'#' ∷ output_tag

-- `replace( s.begin(), s.end(), from, to )`
unfoldable pub replace_byte : ℕ → ℕ → Bytes → Bytes
replace_byte from to = map λ c. if c == from then to else c

-- `size`, the length that a name says, as a `uint32_t`.
unfoldable pub size : Bytes → Result ℕ
size hash = do
  guard (leb 8 (length hash)) assert_failed
  field ← substr hash (length hash - 8) 8
  n ← stoul_hex field
  ok (n % 2 ^ 32)

-- A digit of the URL-safe base64 alphabet.
abbrev pub is_base64_url : ℕ → Bool
is_base64_url c =
    (leb b'A' c && leb c b'Z')
    || ((leb b'a' c && leb c b'z') || ((leb b'0' c && leb c b'9') || (c == b'-' || c == b'_')))

-- `digest::sha256`: 32 bytes in URL-safe base64 without padding are 43 digits.
pub record Digest : Type 0 where
  pub sha256 : Bytes → Bytes
  pub length-sha256 : (s : Bytes) → length (sha256 s) ≡ 43
  pub sha256_base64 : (s : Bytes) → All (λ c. is_base64_url c ≡ true) (sha256 s)

module _ (d : Digest) where
  unfoldable pub compute : Bytes → ObjectType → Bytes
  unfolding to_underlying replace_byte
  compute input t =
      to_underlying t ∷ replace_byte b'-' b'.' (d.sha256 input) ++ hex_text 8 (length input)

module _ (decode_hex : Bytes → Bytes) where
  -- The digest in hexadecimal: the decoder is given the base64 digits, with the dots undone.
  unfoldable pub to_hex : Bytes → Result Bytes
  unfolding replace_byte
  to_hex gghash = do
    digits ← substr gghash 1 ((length gghash + 2 ^ 64 - 9) % 2 ^ 64)
    let output = decode_hex (replace_byte b'.' b'-' digits ++ b'=' ∷ [])
    if length output == 64 then ok output else err (runtime_error "invalid gghash: ")
