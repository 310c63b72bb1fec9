-- ===== src/Http/Chunked/Framing.antt =====
-- The end of a chunked body is found, in one reading.
use native.Mathlib.Nat.{mod-eq_of_lt}
use gg.Prelude.{
  ℕ, suc, ◌+◌, ◌-◌, ◌*◌, ◌≤◌, ◌<◌, ◌≡◌, ◌^◌, refl, ap, ◌∙◌, true, false, some, List, [], ◌∷◌, ◌++◌,
  append_assoc, arith, ◌==◌, leb, if◌then◌else◌, is_empty, length, length-append, take-append,
  drop-append, All, ok,
}
use gg.Text.{Bytes, find, starts_with, substr, Lacks, ◌≈◌}
use package.gg.Http.{crlf}
use package.gg.Http.Chunked.{
  ChunkState, chunk_hdr, chunk, trailer, ChunkedBodyParser, fresh_parser, get_chunk_size,
  compute_ack_size, take_header, framed_size, take_chunk, read_loop, read,
}

-- The header of a chunk, without the end of its line, and its bytes.
abbrev pub WireChunk : Type 0
WireChunk = Bytes × Bytes

-- A header that says how many bytes there are.
abbrev pub IsHeader : Bytes → ℕ → Type 0
IsHeader h n = Lacks 13 h × (get_chunk_size (h ++ crlf) ≡ ok n)

abbrev pub IsChunk : WireChunk → Type 0
IsChunk w = IsHeader w.0 (length w.1) × (0 < length w.1) × (length w.1 + 2 < 2 ^ 32)

unfoldable pub wire : List WireChunk → Bytes
wire [] = []
wire (w ∷ ws) = (w.0 ++ crlf) ++ ((w.1 ++ crlf) ++ wire ws)

-- A parser without trailers that has acknowledged nothing.
abbrev pub at_place : Bytes → ℕ → ℕ → ChunkState → ChunkedBodyParser
at_place buffer size parsed state = record {
  parser_buffer = buffer;
  current_chunk_size = size;
  acked_so_far = 0;
  parsed_so_far = parsed;
  state = state;
  trailers_enabled = false;
}

find-crlf : (h t : Bytes) → Lacks 13 h → find crlf (h ++ (crlf ++ t)) ≡ some (length h)
unfolding find starts_with
find-crlf [] t l = refl
find-crlf (x ∷ h) t l = ground (arith, find-crlf h t l.1, l.0)

full : (h t : Bytes) → is_empty ((h ++ crlf) ++ t) ≡ false
full [] t = refl
full (x ∷ h) t = refl

length-line : (h : Bytes) → length h + 2 ≡ length (h ++ crlf)
length-line h = omega (arith, length-append h crlf)

take_header-line :
    (h t : Bytes) (size parsed n : ℕ)
    → get_chunk_size (h ++ crlf) ≡ ok n
    → take_header (length h) (at_place ((h ++ crlf) ++ t) size parsed chunk_hdr)
      ≡ ok (at_place t n (parsed + (length h + 2)) (if n == 0 then trailer else chunk))
unfolding take_header
take_header-line h t size parsed n e =
    rw
      (
        take-append (h ++ crlf) t (length h + 2) (length-line h),
        drop-append (h ++ crlf) t (length h + 2) (length-line h),
        e,
      )
      refl

find-line : (h t : Bytes) → Lacks 13 h → find crlf ((h ++ crlf) ++ t) ≡ some (length h)
find-line h t l = ap (find crlf) (append_assoc h crlf t) ∙ find-crlf h t l

read_loop-header :
    (fuel given : ℕ) (h t : Bytes) (size parsed n : ℕ)
    → IsHeader h n
    → read_loop (suc fuel) given (at_place ((h ++ crlf) ++ t) size parsed chunk_hdr)
      ≡ read_loop fuel given
          (at_place t n (parsed + (length h + 2)) (if n == 0 then trailer else chunk))
unfolding read_loop
read_loop-header fuel given h t size parsed n e =
    rw (full h t, find-line h t e.0, take_header-line h t size parsed n e.1) refl

framed_size-small :
    (b : Bytes) (size parsed : ℕ) (s : ChunkState)
    → size + 2 < 2 ^ 32
    → framed_size (at_place b size parsed s) ≡ size + 2
unfolding framed_size
framed_size-small b size parsed s h = mod-eq_of_lt h

fits : (d t : Bytes) → leb (length d + 2) (length ((d ++ crlf) ++ t)) ≡ true
fits d t = ground (arith, length-append (d ++ crlf) t, length-line d)

reaches : (d t : Bytes) → leb (length d) (length (d ++ (crlf ++ t))) ≡ true
reaches d t = ground (arith, length-append d (crlf ++ t))

end_of_chunk : (d t : Bytes) → substr ((d ++ crlf) ++ t) (length d) 2 ≡ ok crlf
unfolding substr
end_of_chunk d t =
    rw (append_assoc d crlf t, drop-append d (crlf ++ t) (length d) refl, reaches d t) refl

take_chunk-line :
    (d t : Bytes) (parsed : ℕ)
    → length d + 2 < 2 ^ 32
    → take_chunk (at_place ((d ++ crlf) ++ t) (length d) parsed chunk)
      ≡ ok (at_place t (length d) (parsed + (length d + 2)) chunk_hdr)
unfolding take_chunk ◌≈◌
take_chunk-line d t parsed b =
    rw
      (
        end_of_chunk d t,
        framed_size-small ((d ++ crlf) ++ t) (length d) parsed chunk b,
        drop-append (d ++ crlf) t (length d + 2) (length-line d),
      )
      refl

read_loop-chunk :
    (fuel given : ℕ) (d t : Bytes) (parsed : ℕ)
    → length d + 2 < 2 ^ 32
    → read_loop (suc fuel) given (at_place ((d ++ crlf) ++ t) (length d) parsed chunk)
      ≡ read_loop fuel given (at_place t (length d) (parsed + (length d + 2)) chunk_hdr)
unfolding read_loop
read_loop-chunk fuel given d t parsed b =
    rw
      (
        full d t,
        take_chunk-line d t parsed b,
        framed_size-small ((d ++ crlf) ++ t) (length d) parsed chunk b,
        fits d t,
      )
      refl

read_loop-trailer :
    (fuel given : ℕ) (t : Bytes) (size parsed : ℕ)
    → read_loop (suc fuel) given (at_place (crlf ++ t) size parsed trailer)
      ≡ ok (some (parsed + 2), at_place (crlf ++ t) size (parsed + 2) trailer)
unfolding read_loop compute_ack_size find starts_with
read_loop-trailer fuel given t size parsed = ground arith

-- The turns of the loop up to the last header.
unfoldable turns : List WireChunk → ℕ → ℕ
turns [] fuel = fuel
turns (w ∷ ws) fuel = suc (suc (turns ws fuel))

length-turns : (ws : List WireChunk) (fuel : ℕ) → turns ws fuel ≡ 2 * length ws + fuel
unfolding turns
length-turns [] fuel = omega arith
length-turns (w ∷ ws) fuel = omega (arith, length-turns ws fuel)

positive : (n : ℕ) → 0 < n → (n == 0) ≡ false
positive n h = ground arith

regroup :
    (h d t rest : Bytes)
    → ((h ++ crlf) ++ ((d ++ crlf) ++ t)) ++ rest ≡ (h ++ crlf) ++ ((d ++ crlf) ++ (t ++ rest))
regroup h d t rest =
    append_assoc (h ++ crlf) ((d ++ crlf) ++ t) rest
    ∙ ap (λ (b : Bytes). (h ++ crlf) ++ b) (append_assoc (d ++ crlf) t rest)

length-wire :
    (w : WireChunk) (ws : List WireChunk)
    → length (wire (w ∷ ws)) ≡ (length w.0 + 2) + ((length w.1 + 2) + length (wire ws))
unfolding wire
length-wire w ws = omega (
  arith,
  length-append (w.0 ++ crlf) ((w.1 ++ crlf) ++ wire ws),
  length-append (w.1 ++ crlf) (wire ws),
  length-line w.0,
  length-line w.1,
)

-- The size that the parser remembers after the chunks.
unfoldable last_size : List WireChunk → ℕ → ℕ
last_size [] size = size
last_size (w ∷ ws) size = last_size ws (length w.1)

read_loop-turn :
    (w : WireChunk) (fuel given : ℕ) (t : Bytes) (size parsed : ℕ)
    → IsChunk w
    → read_loop
        (suc (suc fuel))
        given
        (at_place ((w.0 ++ crlf) ++ ((w.1 ++ crlf) ++ t)) size parsed chunk_hdr)
      ≡ read_loop fuel given
          (at_place t (length w.1) ((parsed + (length w.0 + 2)) + (length w.1 + 2)) chunk_hdr)
read_loop-turn w fuel given t size parsed h =
    read_loop-header (suc fuel) given w.0 ((w.1 ++ crlf) ++ t) size parsed (length w.1) h.0
    ∙ rw (positive (length w.1) h.1)
        (read_loop-chunk fuel given w.1 t (parsed + (length w.0 + 2)) h.2)

read_loop-wire :
    (ws : List WireChunk) (fuel given : ℕ) (t : Bytes) (size parsed : ℕ)
    → All IsChunk ws
    → read_loop (turns ws fuel) given (at_place (wire ws ++ t) size parsed chunk_hdr)
      ≡ read_loop fuel given (at_place t (last_size ws size) (parsed + length (wire ws)) chunk_hdr)
unfolding wire turns last_size
read_loop-wire [] fuel given t size parsed h =
    ap (λ (k : ℕ). read_loop fuel given (at_place t size k chunk_hdr)) (omega arith)
read_loop-wire (w ∷ ws) fuel given t size parsed h = rw (regroup w.0 w.1 (wire ws) t) (
    read_loop-turn w (turns ws fuel) given (wire ws ++ t) size parsed h.0
    ∙ read_loop-wire ws fuel given t (length w.1) ((parsed + (length w.0 + 2)) + (length w.1 + 2))
        h.1
    ∙ ap (λ (k : ℕ). read_loop fuel given (at_place t (last_size ws (length w.1)) k chunk_hdr))
        (omega (arith, length-wire w ws)))

le-wire : (ws : List WireChunk) → 2 * length ws ≤ length (wire ws)
unfolding wire
le-wire [] = omega arith
le-wire (w ∷ ws) = omega (arith, le-wire ws, length-wire w ws)

-- The end of a body: the last header and an empty line.
abbrev pub last_chunk : Bytes → Bytes → Bytes
last_chunk h rest = (h ++ crlf) ++ (crlf ++ rest)

read_loop-last_chunk :
    (h rest : Bytes) (fuel given size parsed : ℕ)
    → IsHeader h 0
    → read_loop (suc (suc fuel)) given (at_place (last_chunk h rest) size parsed chunk_hdr)
      ≡ ok (
        some ((parsed + (length h + 2)) + 2),
        at_place (crlf ++ rest) 0 ((parsed + (length h + 2)) + 2) trailer,
      )
read_loop-last_chunk h rest fuel given size parsed e =
    read_loop-header (suc fuel) given h (crlf ++ rest) size parsed 0 e
    ∙ read_loop-trailer fuel given rest 0 (parsed + (length h + 2))

-- A whole body, and what follows it.
abbrev pub body : List WireChunk → Bytes → Bytes → Bytes
body ws h rest = wire ws ++ last_chunk h rest

pub length-last_chunk : (h rest : Bytes) → length (last_chunk h rest) ≡ length h + 4 + length rest
length-last_chunk h rest = omega (arith, length-append (h ++ crlf) (crlf ++ rest), length-line h)

unfoldable spare : List WireChunk → Bytes → ℕ
spare ws buffer = length buffer - (2 * length ws + 1)

enough :
    (ws : List WireChunk) (h rest : Bytes)
    → suc (length (body ws h rest)) ≡ turns ws (suc (suc (spare ws (body ws h rest))))
unfolding spare
enough ws h rest = omega (
  arith,
  le-wire ws,
  length-last_chunk h rest,
  length-append (wire ws) (last_chunk h rest),
  length-turns ws (suc (suc (spare ws (body ws h rest)))),
)

-- A body of chunks that have bytes, each under a header that gives its length, with the header of a last
-- chunk of no bytes and an empty line behind it, is acknowledged to its last byte in one reading of a parser that
-- has been made without trailers; no byte of what follows counts. A chunk's length is less than 2 ^ 32 - 2.
pub read-wire :
    (ws : List WireChunk) (h rest : Bytes)
    → All IsChunk ws
    → IsHeader h 0
    → read (body ws h rest) (fresh_parser false)
      ≡ ok (
        some (length (wire ws) + (length h + 4)),
        at_place (crlf ++ rest) 0 (length (wire ws) + (length h + 4)) trailer,
      )
unfolding read fresh_parser
read-wire ws h rest c e =
    ap (λ (k : ℕ). read_loop k (length (body ws h rest)) (at_place (body ws h rest) 0 0 chunk_hdr))
      (enough ws h rest)
    ∙ read_loop-wire ws (suc (suc (spare ws (body ws h rest)))) (length (body ws h rest))
        (last_chunk h rest) 0 0 c
    ∙ read_loop-last_chunk h rest (spare ws (body ws h rest)) (length (body ws h rest))
        (last_size ws 0) (0 + length (wire ws)) e
    ∙ ap (λ (k : ℕ). ok (some k, at_place (crlf ++ rest) 0 k trailer)) (omega arith)
