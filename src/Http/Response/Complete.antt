-- ===== src/Http/Response/Complete.antt =====
-- A response with a chunked body is complete where the body ends.
use gg.Prelude.{
  ◌+◌, ◌-◌, ◌^◌, ◌≡◌, refl, ap, ◌∙◌, true, false, some, List, [], ◌++◌, append_assoc, arith, length,
  length-append, take, take-append, All, ok, ◌>>=◌,
}
use gg.Text.{Bytes, codes}
use package.gg.Http.{complete, has_header, crlf}
use package.gg.Http.Chunked.{ChunkedBodyParser, fresh_parser, trailer}
use package.gg.Http.Chunked.Framing.{
  WireChunk, IsHeader, IsChunk, wire, body, at_place, read-wire, last_chunk, length-last_chunk,
}
use package.gg.Http.Response.{
  chunked_body_parser, HttpResponse, is_body_pending, has_no_body, is_chunked, set_parser,
  calculate_expected_body_size, read_in_body,
}

-- What follows the body does not belong to it.
body-append : (ws : List WireChunk) (h rest : Bytes) → body ws h rest ≡ body ws h [] ++ rest
body-append ws h rest =
    rw (append_assoc (wire ws) ((h ++ crlf) ++ crlf) rest, append_assoc (h ++ crlf) crlf rest) refl

length-body :
    (ws : List WireChunk) (h : Bytes) → length (wire ws) + (length h + 4) ≡ length (body ws h [])
length-body ws h = omega (arith, length-last_chunk h [], length-append (wire ws) (last_chunk h []))

take-body :
    (ws : List WireChunk) (h rest : Bytes)
    → take (length (wire ws) + (length h + 4)) (body ws h rest) ≡ body ws h []
take-body ws h rest =
    ap (take (length (wire ws) + (length h + 4))) (body-append ws h rest)
    ∙ take-append (body ws h []) rest (length (wire ws) + (length h + 4)) (length-body ws h)

-- A response whose body comes in chunks, by its headers and by the request that it answers.
abbrev pub ComesInChunks : HttpResponse → Type 0
ComesInChunks r =
    (is_body_pending r.message ≡ true)
    × (has_no_body r ≡ ok false)
    × (is_chunked r.message ≡ ok true)
    × (has_header r.message (codes "Trailer") ≡ false)

-- The parser where the body has been read.
abbrev pub parser_at_end : List WireChunk → Bytes → Bytes → ChunkedBodyParser
parser_at_end ws h rest = at_place (crlf ++ rest) 0 (length (body ws h [])) trailer

-- The response with its whole body.
unfoldable pub with_body : HttpResponse → List WireChunk → Bytes → Bytes → HttpResponse
with_body r ws h rest = record r {
  message = record r.message {
    body = r.message.body ++ body ws h [];
    state = complete;
    expected = (false, 2 ^ 64 - 1);
  };
  body_parser = some (chunked_body_parser (parser_at_end ws h rest));
}

calculate_expected_body_size_chunked :
    (r : HttpResponse)
    → ComesInChunks r
    → calculate_expected_body_size r ≡ ok (set_parser r (chunked_body_parser (fresh_parser false)))
unfolding calculate_expected_body_size
calculate_expected_body_size_chunked r c = rw (c.0, c.1, c.2, c.3) refl

read_in_body-fresh :
    (r : HttpResponse) (ws : List WireChunk) (h rest : Bytes)
    → is_body_pending r.message ≡ true
    → All IsChunk ws
    → IsHeader h 0
    → read_in_body (set_parser r (chunked_body_parser (fresh_parser false))) (body ws h rest)
      ≡ ok (length (body ws h []), with_body r ws h rest)
unfolding read_in_body set_parser with_body
read_in_body-fresh r ws h rest p c e =
    rw (p, read-wire ws h rest c e, take-body ws h rest, length-body ws h) refl

-- Where the headers of a response and the request that it answers say that the body comes in chunks, with no trailers,
-- and the bytes that come are chunks that have bytes, each under a header that gives its length, then the header of a
-- chunk of no bytes, an empty line and any rest, one reading takes exactly the bytes before the rest, adds them to the
-- body and completes the response. A chunk's length is less than 2 ^ 32 - 2.
pub read_in_body-body :
    (r : HttpResponse) (ws : List WireChunk) (h rest : Bytes)
    → ComesInChunks r
    → All IsChunk ws
    → IsHeader h 0
    → (calculate_expected_body_size r >>= λ q. read_in_body q (body ws h rest))
      ≡ ok (length (body ws h []), with_body r ws h rest)
read_in_body-body r ws h rest p c e =
    rw (calculate_expected_body_size_chunked r p) (read_in_body-fresh r ws h rest p.0 c e)
