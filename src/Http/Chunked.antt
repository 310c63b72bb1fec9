-- ===== src/Http/Chunked.antt =====
-- src/net/chunked_parser.hh and chunked_parser.cc: where a chunked body ends. A position in the stream is
-- taken as a number without bound; the size of a chunk is a `uint32_t`.
pub mod Framing
use gg.Prelude.{
  ℕ, zero, suc, ◌+◌, ◌-◌, ◌*◌, ◌%◌, ◌^◌, ◌≡◌, Bool, true, false, not, ◌||◌, ◌&&◌, Option, none,
  some, List, [], ◌∷◌, ◌++◌, ◌==◌, leb, ltb, if◌then◌else◌, is_empty, length, take, drop, Result,
  ok, err, runtime_error, unix_error, assert_failed, out_of_fuel, ◌>>=◌, ◌>>◌, guard,
}
use gg.Text.{Bytes, codes, ◌≈◌, find, substr, substr_from}
use gg.Hash.Hex.{skip_spaces, digit_value}
use package.gg.Http.{crlf}

pub data ChunkState : Type 0 where
  chunk_hdr chunk trailer : ChunkState

pub record ChunkedBodyParser : Type 0 where
  pub parser_buffer : Bytes
  pub current_chunk_size : ℕ
  pub acked_so_far : ℕ
  pub parsed_so_far : ℕ
  pub state : ChunkState
  pub trailers_enabled : Bool

unfoldable pub fresh_parser : Bool → ChunkedBodyParser
fresh_parser trailers_enabled = record {
  parser_buffer = [];
  current_chunk_size = 0;
  acked_so_far = 0;
  parsed_so_far = 0;
  state = chunk_hdr;
  trailers_enabled = trailers_enabled;
}

-- Hexadecimal digits, all of them, and a value of at most `limit`.
unfoldable pub hex_digits_value : ℕ → ℕ → Bytes → Result ℕ
unfolding digit_value
hex_digits_value limit n [] = if leb n limit then ok n else err (unix_error "strtol")
hex_digits_value limit n (c ∷ s) = elim (digit_value c) [
  | none ↦ err (if leb n limit then runtime_error "Invalid integer: " else unix_error "strtol")
  | some d ↦ hex_digits_value limit (n * 16 + d) s
]

-- `0x` may stand in front.
unfoldable pub prefixed_hex : ℕ → Bytes → Result ℕ
unfolding hex_digits_value
prefixed_hex limit [] = err (runtime_error "Invalid integer: ")
prefixed_hex limit (c ∷ []) = hex_digits_value limit 0 (c ∷ [])
prefixed_hex limit (c ∷ x ∷ []) = hex_digits_value limit 0 (c ∷ x ∷ [])
prefixed_hex limit (c ∷ x ∷ y ∷ s) =
    if c == b'0' && (x == b'x' || x == b'X')
    then hex_digits_value limit 0 (y ∷ s)
    else hex_digits_value limit 0 (c ∷ x ∷ y ∷ s)

-- The sign, and the value as a `uint32_t`.
unfoldable pub signed_hex : Bytes → Result ℕ
unfolding prefixed_hex
signed_hex [] = err (runtime_error "Invalid integer: ")
signed_hex (c ∷ s) =
    if c == b'-'
    then (do n ← prefixed_hex (2 ^ 63) s; ok ((2 ^ 64 - n) % 2 ^ 32))
    else (do n ← prefixed_hex (2 ^ 63 - 1) (if c == b'+' then s else c ∷ s); ok (n % 2 ^ 32))

-- `strict_atoi( str, 16 )`, taken as a `uint32_t`.
unfoldable pub strict_hex : Bytes → Result ℕ
unfolding signed_hex
strict_hex s =
    if is_empty s
    then err (runtime_error "Invalid integer string: empty")
    else signed_hex (skip_spaces s)

-- Where the size ends: at the extensions, or at the end of the line.
unfoldable pub size_end : Bytes → Result ℕ
size_end hdr = elim (find (codes ";") hdr) [
  | some pos ↦ ok pos
  | none ↦ elim (find crlf hdr) [ some pos ↦ ok pos | none ↦ err assert_failed ]
]

unfoldable pub cut_at_space : Bytes → Bytes
cut_at_space s = elim (find (codes " ") s) [ none ↦ s | some pos ↦ take pos s ]

unfoldable pub get_chunk_size : Bytes → Result ℕ
unfolding strict_hex size_end cut_at_space
get_chunk_size hdr = do
  guard (drop (length hdr - 2) hdr ≈ crlf) assert_failed
  pos ← size_end hdr
  strict_hex (cut_at_space (take pos hdr))

-- `npos`, with what has been given acknowledged.
unfoldable pub wait : ℕ → ChunkedBodyParser → Option ℕ × ChunkedBodyParser
wait given p = (none, record p { acked_so_far = p.acked_so_far + given })

unfoldable pub compute_ack_size :
    Bytes → ℕ → ChunkedBodyParser → Result (Option ℕ × ChunkedBodyParser)
unfolding wait
compute_ack_size needle given p = elim (find needle p.parser_buffer) [
  | none ↦ ok (wait given p)
  | some loc ↦
      let parsed = p.parsed_so_far + (loc + length needle) in
      if ltb p.acked_so_far parsed
      then ok (some (parsed - p.acked_so_far), record p { parsed_so_far = parsed })
      else err assert_failed
]

-- A header that is complete at `it`.
unfoldable pub take_header : ℕ → ChunkedBodyParser → Result ChunkedBodyParser
unfolding get_chunk_size
take_header it p = do
  size ← get_chunk_size (take (it + 2) p.parser_buffer)
  ok (record p {
    current_chunk_size = size;
    state = if size == 0 then trailer else chunk;
    parsed_so_far = p.parsed_so_far + (it + 2);
    parser_buffer = drop (it + 2) p.parser_buffer;
  })

-- The size of the chunk with the end of its line, as a `uint32_t`.
unfoldable pub framed_size : ChunkedBodyParser → ℕ
framed_size p = (p.current_chunk_size + 2) % 2 ^ 32

-- A chunk that is complete.
unfoldable pub take_chunk : ChunkedBodyParser → Result ChunkedBodyParser
unfolding framed_size
take_chunk p = do
  end ← substr p.parser_buffer p.current_chunk_size 2
  guard (end ≈ crlf) assert_failed
  ok (record p {
    state = chunk_hdr;
    parsed_so_far = p.parsed_so_far + framed_size p;
    parser_buffer = drop (framed_size p) p.parser_buffer;
  })

-- The loop of `read`, on fuel; `given` is the length of what has been given.
unfoldable pub read_loop : ℕ → ℕ → ChunkedBodyParser → Result (Option ℕ × ChunkedBodyParser)
unfolding wait compute_ack_size take_header take_chunk framed_size
read_loop zero given p = err out_of_fuel
read_loop (suc fuel) given p =
    if is_empty p.parser_buffer then ok (wait given p) else elim p.state [
      | chunk_hdr ↦ elim (find crlf p.parser_buffer) [
        | none ↦ ok (wait given p)
        | some it ↦ do q ← take_header it p; read_loop fuel given q
      ]
      | chunk ↦
          if leb (framed_size p) (length p.parser_buffer)
          then (do q ← take_chunk p; read_loop fuel given q)
          else ok (wait given p)
      | trailer ↦ compute_ack_size (if p.trailers_enabled then crlf ++ crlf else crlf) given p
    ]

-- `read`: a turn of the loop takes at least two bytes of the buffer.
unfoldable pub read : Bytes → ChunkedBodyParser → Result (Option ℕ × ChunkedBodyParser)
unfolding read_loop
read input p =
    let buffer = p.parser_buffer ++ input in
    read_loop (suc (length buffer)) (length input) (record p { parser_buffer = buffer })
