-- ===== src/Chunk.antt =====
-- src/util/chunk.hh: a view of bytes. `buffer` is what stands from the pointer on, which may be
-- longer than the view; a read past the view's end throws.
use gg.Prelude.{
  ℕ, ◌+◌, ◌-◌, ◌*◌, ◌%◌, ◌^◌, [], ◌∷◌, ltb, if◌then◌else◌, length, take, drop, reverse, Result, ok,
  err, out_of_range, ◌>>◌,
}
use gg.Text.{Bytes}

pub record Chunk : Type 0 where
  pub buffer : Bytes
  pub size : ℕ

unfoldable pub bounds_check : Chunk → ℕ → Result (Unit {0})
bounds_check c n =
    if ltb c.size n then err (out_of_range "attempted to read past end of chunk") else ok tt

-- `Chunk( str )`
unfoldable pub of_string : Bytes → Chunk
of_string s = record { buffer = s; size = length s }

-- `operator()( offset, n )`
unfoldable pub slice : Chunk → ℕ → ℕ → Result Chunk
unfolding bounds_check
slice c offset n = do
  bounds_check c offset
  bounds_check c ((offset + n) % 2 ^ 64)
  ok (record { buffer = drop offset c.buffer; size = n })

-- `operator()( offset )`
unfoldable pub slice_from : Chunk → ℕ → Result Chunk
unfolding slice
slice_from c offset = slice c offset ((c.size + 2 ^ 64 - offset) % 2 ^ 64)

unfoldable pub to_string : Chunk → Bytes
to_string c = take c.size c.buffer

unfoldable pub octet : Chunk → Result ℕ
unfolding bounds_check
octet c = do bounds_check c 1; elim c.buffer [ [] ↦ err (out_of_range "buffer") | b ∷ _ ↦ ok b ]

-- The number whose bytes, the highest first, are those given.
unfoldable pub be_value : ℕ → Bytes → ℕ
be_value acc [] = acc
be_value acc (b ∷ s) = be_value (acc * 256 + b) s

module _ (width : ℕ) where
  -- `extract_value` of a type of `width` bytes, read as big-endian and as little-endian.
  unfoldable pub extract_be : Chunk → Result ℕ
  unfolding bounds_check be_value
  extract_be c = do bounds_check c width; ok (be_value 0 (take width c.buffer))

  unfoldable pub extract_le : Chunk → Result ℕ
  unfolding bounds_check be_value
  extract_le c = do bounds_check c width; ok (be_value 0 (reverse (take width c.buffer)))

unfoldable pub be32 : Chunk → Result ℕ
unfolding extract_be
be32 = extract_be 4
