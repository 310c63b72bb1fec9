-- ===== src/Hash/Fields.antt =====
-- The fields of a computed name can be read back: type, contents' length, digest, output tag.
use gg.Prelude.{
  ℕ, zero, suc, ◌-◌, ◌/◌, ◌%◌, ◌^◌, ◌<◌, ◌≡◌, ◌≢◌, refl, sym, ap, ◌∙◌, true, false, [], ◌∷◌, ◌++◌,
  arith, length, All, All-append, ok, ◌>>=◌, length-append, take-append, drop-append, take_all,
}
use gg.Text.{Bytes, substr, Lacks, find_byte, find_byte-none}
use gg.Hash.{
  ObjectType, value, thunk, Digest, is_base64_url, type, base, for_output, size, compute,
  replace_byte, to_underlying,
}
use gg.Hash.Hex.{hex_digit, stoul_hex}
use gg.Hash.Hex.Write.{fixed, length-fixed, hex_text-eq-fixed}
use gg.Hash.Hex.Read.{stoul_hex-fixed}

length-replace_byte : (from to : ℕ) (s : Bytes) → length (replace_byte from to s) ≡ length s
unfolding replace_byte
length-replace_byte from to [] = refl
length-replace_byte from to (c ∷ s) = ap suc (length-replace_byte from to s)

replace_byte-Lacks :
    (b from to : ℕ) (s : Bytes) → b ≢ to → Lacks b s → Lacks b (replace_byte from to s)
unfolding replace_byte
replace_byte-Lacks b from to [] h l = tt
replace_byte-Lacks b from to (c ∷ s) h l = ground (arith, replace_byte-Lacks b from to s h l.1, l.0)

-- Two replacements that undo one another, on a text that lacks the target.
replace_byte_back :
    (from to : ℕ) (s : Bytes) → Lacks to s → replace_byte to from (replace_byte from to s) ≡ s
unfolding replace_byte
replace_byte_back from to [] l = refl
replace_byte_back from to (c ∷ s) l = ground (arith, replace_byte_back from to s l.1, l.0)

-- The digits of a digest are none of the bytes outside the alphabet.
base64-Lacks :
    (b : ℕ) (s : Bytes) → is_base64_url b ≡ false → All (λ c. is_base64_url c ≡ true) s → Lacks b s
base64-Lacks b [] h a = tt
base64-Lacks b (c ∷ s) h a =
    ((λ e. let g : true ≡ false = sym a.0 ∙ ap is_base64_url e ∙ h in cc), base64-Lacks b s h a.1)

fixed-Lacks : (k n : ℕ) → Lacks b'#' (fixed k n)
unfolding fixed hex_digit
fixed-Lacks zero n = tt
fixed-Lacks (suc k) n =
    All-append (λ x. x ≢ b'#') (fixed k (n / 16)) (hex_digit (n % 16) ∷ []) (fixed-Lacks k (n / 16))
      (ground arith)

substr_last : (s t : Bytes) → length t ≡ 8 → substr (s ++ t) (length (s ++ t) - 8) 8 ≡ ok t
unfolding substr
substr_last s t h =
    ground (arith, length-append s t, drop-append s t (length (s ++ t) - 8), take_all 8 t)

size_parts : (s t : Bytes) → length t ≡ 8 → size (s ++ t) ≡ (do n ← stoul_hex t; ok (n % 2 ^ 32))
unfolding size
size_parts s t h = ground (arith, length-append s t, substr_last s t h)

module _ (d : Digest) where
  -- The parts of a name, for contents below 4 GiB.
  body : Bytes → Bytes
  body input = replace_byte b'-' b'.' (d.sha256 input)

  compute_parts :
      (input : Bytes) (t : ObjectType)
      → length input < 2 ^ 32
      → compute d input t ≡ to_underlying t ∷ body input ++ fixed 8 (length input)
  unfolding compute body
  compute_parts input t h =
      ap (λ s. to_underlying t ∷ replace_byte b'-' b'.' (d.sha256 input) ++ s)
        (hex_text-eq-fixed 8 (length input) (omega arith) (omega arith) h)

  length-body : (input : Bytes) → length (body input) ≡ 43
  unfolding body
  length-body input = length-replace_byte b'-' b'.' (d.sha256 input) ∙ d.length-sha256 input

  pub length-compute :
      (input : Bytes) (t : ObjectType) → length input < 2 ^ 32 → length (compute d input t) ≡ 52
  length-compute input t h =
      ap length (compute_parts input t h)
      ∙ omega (
        arith,
        length-append (body input) (fixed 8 (length input)),
        length-body input,
        length-fixed 8 (length input),
      )

  pub type-compute : (input : Bytes) (t : ObjectType) → type (compute d input t) ≡ ok t
  unfolding type compute
  type-compute input value = refl
  type-compute input thunk = refl

  size_value : (n : ℕ) → n < 2 ^ 32 → (do m ← stoul_hex (fixed 8 n); ok (m % 2 ^ 32)) ≡ ok n
  size_value n h = rw (stoul_hex-fixed n h) (ap ok (omega arith))

  pub size-compute :
      (input : Bytes) (t : ObjectType)
      → length input < 2 ^ 32
      → size (compute d input t) ≡ ok (length input)
  size-compute input t h =
      ap size (compute_parts input t h)
      ∙ size_parts (to_underlying t ∷ body input) (fixed 8 (length input))
          (length-fixed 8 (length input))
      ∙ size_value (length input) h

  type_byte : (t : ObjectType) → to_underlying t ≢ b'#'
  unfolding to_underlying
  type_byte value = λ e. omega arith
  type_byte thunk = λ e. omega arith

  body-Lacks : (input : Bytes) → Lacks b'#' (body input)
  unfolding body
  body-Lacks input =
      replace_byte-Lacks b'#' b'-' b'.' (d.sha256 input) (λ e. omega arith)
        (base64-Lacks b'#' (d.sha256 input) refl (d.sha256_base64 input))

  pub compute-Lacks :
      (input : Bytes) (t : ObjectType) → length input < 2 ^ 32 → Lacks b'#' (compute d input t)
  compute-Lacks input t h = rw (compute_parts input t h) (
    type_byte t,
    All-append (λ x. x ≢ b'#') (body input) (fixed 8 (length input)) (body-Lacks input)
        (fixed-Lacks 8 (length input)),
  )

pub base-for_output : (h tag : Bytes) → Lacks b'#' h → base (for_output h tag) ≡ h
unfolding base for_output
base-for_output h tag l =
    rw (find_byte b'#' h tag l, base) (take-append h (b'#' ∷ tag) (length h) refl)

pub base-eq_of_Lacks : (h : Bytes) → Lacks b'#' h → base h ≡ h
unfolding base
base-eq_of_Lacks h l = rw (find_byte-none b'#' h l, base)

module _ (d : Digest) where
  -- The name computed for contents of less than 2^32 bytes says its type and the length of the
  -- contents, has the fixed length, and is its own base; an output's name is cut back to it.
  pub compute_fields :
      (input tag : Bytes) (t : ObjectType)
      → length input < 2 ^ 32
      → (type (compute d input t) ≡ ok t)
        × (size (compute d input t) ≡ ok (length input))
        × (length (compute d input t) ≡ 52)
        × (base (compute d input t) ≡ compute d input t)
        × (base (for_output (compute d input t) tag) ≡ compute d input t)
  compute_fields input tag t h = (
    type-compute d input t,
    size-compute d input t h,
    length-compute d input t h,
    base-eq_of_Lacks (compute d input t) (compute-Lacks d input t h),
    base-for_output (compute d input t) tag (compute-Lacks d input t h),
  )
