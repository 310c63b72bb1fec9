-- ===== src/Meow/Frame.antt =====
-- What the two readers of a message make of a buffer.
use gg.Prelude.{
  ℕ, ◌+◌, ◌-◌, ◌%◌, ◌^◌, ◌≤◌, ◌<◌, ◌≡◌, [], ◌∷◌, arith, ltb, if◌then◌else◌, length, take, Result,
  ok, err, out_of_range,
}
use gg.Text.{Bytes}
use gg.Chunk.{
  of_string, slice, slice_from, to_string, octet, be32, bounds_check, extract_be, be_value,
}
use package.gg.Meow.{Message, from_chunk, expected_length}

-- The length field of a text of at least four bytes.
unfoldable pub field : Bytes → ℕ
unfolding be_value
field s = be_value 0 (take 4 s)

-- The length of the frame at the head of the text, as far as it is known.
unfoldable pub frame_length : Bytes → ℕ
unfolding field
frame_length s = if ltb (length s) 5 then 5 else (5 + field s) % 2 ^ 32

-- The message of the first `n` bytes.
unfoldable pub frame : Bytes → ℕ → Result Message
unfolding field
frame [] n = err (out_of_range "incomplete header")
frame (a ∷ []) n = err (out_of_range "incomplete header")
frame (a ∷ b ∷ []) n = err (out_of_range "incomplete header")
frame (a ∷ b ∷ c ∷ []) n = err (out_of_range "incomplete header")
frame (a ∷ b ∷ c ∷ d ∷ []) n = err (out_of_range "incomplete header")
frame (a ∷ b ∷ c ∷ d ∷ o ∷ s) n =
    if ltb n 5
    then err (out_of_range "incomplete header")
    else ok (record {
      payload_length = field (a ∷ b ∷ c ∷ d ∷ []);
      opcode = o;
      payload = take (n - 5) s;
    })

pub expected_length-eq : (s : Bytes) → expected_length (of_string s) ≡ ok (frame_length s)
unfolding expected_length frame_length slice be32 extract_be bounds_check of_string field
expected_length-eq s = ground arith

pub from_chunk-eq :
    (s : Bytes) (n : ℕ)
    → n ≤ length s
    → n < 2 ^ 32
    → from_chunk (record { buffer = s; size = n }) ≡ frame s n
unfolding from_chunk frame slice slice_from to_string octet be32 extract_be bounds_check field
from_chunk-eq [] n h b = ground arith
from_chunk-eq (a ∷ []) n h b = ground arith
from_chunk-eq (a ∷ c ∷ []) n h b = ground arith
from_chunk-eq (a ∷ c ∷ d ∷ []) n h b = ground arith
from_chunk-eq (a ∷ c ∷ d ∷ e ∷ []) n h b = ground arith
from_chunk-eq (a ∷ c ∷ d ∷ e ∷ o ∷ s) n h b = ground arith
