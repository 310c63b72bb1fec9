-- ===== src/Meow.antt =====
-- src/execution/meow/message.hh and message.cc: the messages that the coordinator and the workers
-- exchange, and the parser that finds them in a stream of bytes.
pub mod Frame
pub mod Turns
pub mod Stream
pub mod Wire
use gg.Prelude.{
  ℕ, zero, suc, ◌+◌, ◌-◌, ◌*◌, ◌/◌, ◌%◌, ◌^◌, ◌≤◌, ◌≡◌, refl, Bool, true, false, Option, none, some,
  List, [], ◌∷◌, ◌++◌, arith, ltb, if◌then◌else◌, length, take, drop, is_empty, Result, ok, err,
  out_of_range, out_of_fuel, ◌>>=◌, ◌>>◌, guard,
}
use gg.Text.{Bytes}
use gg.Chunk.{Chunk, of_string, slice, slice_from, to_string, octet, be32}

-- The opcode is a `uint8_t`: the cast from an octet lets every value through.
pub record Message : Type 0 where
  pub payload_length : ℕ
  pub opcode : ℕ
  pub payload : Bytes

pub data OpCode : Type 0 where
  hey put get ping pong execute executed execution_failed bye : OpCode

unfoldable pub opcode_value : OpCode → ℕ
opcode_value hey = 1
opcode_value put = 2
opcode_value get = 3
opcode_value ping = 4
opcode_value pong = 5
opcode_value execute = 6
opcode_value executed = 7
opcode_value execution_failed = 8
opcode_value bye = 9

-- A `uint32_t` in network order.
unfoldable pub put_field : ℕ → Bytes
put_field n = n / 2 ^ 24 % 256 ∷ n / 2 ^ 16 % 256 ∷ n / 2 ^ 8 % 256 ∷ n % 256 ∷ []

-- `Message( opcode, payload )`
unfoldable pub message : OpCode → Bytes → Message
unfolding opcode_value
message o s = record { payload_length = length s % 2 ^ 32; opcode = opcode_value o; payload = s }

unfoldable pub str : Message → Bytes
unfolding put_field
str m = put_field m.payload_length ++ m.opcode ∷ m.payload

-- `Message( chunk )`
unfoldable pub from_chunk : Chunk → Result Message
unfolding slice slice_from to_string octet be32
from_chunk c = if ltb c.size 5 then err (out_of_range "incomplete header") else (do
  field ← slice c 0 4
  n ← be32 field
  code ← slice c 4 1
  o ← octet code
  rest ← slice_from c 5
  ok (record { payload_length = n; opcode = o; payload = to_string rest }))

-- A `uint32_t`: the sum wraps around.
unfoldable pub expected_length : Chunk → Result ℕ
unfolding slice be32
expected_length c =
    if ltb c.size 5 then ok 5 else (do field ← slice c 0 4; n ← be32 field; ok ((5 + n) % 2 ^ 32))

pub record MessageParser : Type 0 where
  pub raw_buffer : Bytes
  pub completed_messages : List Message

unfoldable pub empty : MessageParser → Bool
empty p = is_empty p.completed_messages

unfoldable pub front : MessageParser → Option Message
front p = elim p.completed_messages [ [] ↦ none | m ∷ _ ↦ some m ]

unfoldable pub pop : MessageParser → MessageParser
pop p = record { raw_buffer = p.raw_buffer; completed_messages = drop 1 p.completed_messages }

-- The loop of `parse`. Each turn takes at least five bytes or throws.
unfoldable pub parse_loop : ℕ → Bytes → List Message → Result MessageParser
unfolding expected_length of_string from_chunk
parse_loop zero raw done = err out_of_fuel
parse_loop (suc fuel) raw done = do
  expected ← expected_length (of_string raw)
  elim (ltb (length raw) expected) [
    | true ↦ ok (record { raw_buffer = raw; completed_messages = done })
    | false ↦ do
      m ← from_chunk (record { buffer = raw; size = expected })
      parse_loop fuel (drop expected raw) (done ++ m ∷ [])
  ]

unfoldable pub parse : MessageParser → Bytes → Result MessageParser
unfolding parse_loop
parse p buf =
    let raw = p.raw_buffer ++ buf in parse_loop (suc (length raw)) raw p.completed_messages
