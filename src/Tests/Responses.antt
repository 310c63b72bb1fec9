-- ===== src/Tests/Responses.antt =====
-- Examples for the responses.
use gg.Prelude.{◌≡◌, refl, none, List, [], ◌∷◌, length, ok, ◌>>=◌, arith, All}
use gg.Text.{codes, ◌≈◌, find, starts_with, find_at, substr, substr_from}
use gg.Hash.Hex.{skip_spaces}
use gg.Tokenize.{split}
use gg.Http.{body_pending, has_header, fresh}
use gg.Http.Chunked.{get_chunk_size}
use gg.Http.Chunked.Framing.{WireChunk, IsHeader, IsChunk, body}
use gg.Http.Response.{
  HttpResponse, is_body_pending, has_no_body, is_chunked, calculate_expected_body_size,
  read_in_body,
}
use gg.Http.Response.Complete.{ComesInChunks, with_body, read_in_body-body}

-- Three bytes.
abbrev one_chunk : List WireChunk
one_chunk = (codes "3;x", codes "abc") ∷ []

three-IsHeader : IsHeader (codes "3;x") 3
unfolding get_chunk_size ◌≈◌ find starts_with skip_spaces
three-IsHeader = (((λ e. omega arith), ((λ e. omega arith), ((λ e. omega arith), tt))), refl)

zero-IsHeader : IsHeader (codes "0") 0
unfolding get_chunk_size ◌≈◌ find starts_with skip_spaces
zero-IsHeader = (((λ e. omega arith), tt), refl)

one_chunk-IsChunk : All IsChunk one_chunk
one_chunk-IsChunk = ((three-IsHeader, (omega arith), (omega arith)), tt)

abbrev answer : HttpResponse
answer = record {
  message = record fresh {
    first_line = codes "HTTP/1.1 200 OK";
    headers = record { key = codes "Transfer-Encoding"; value = codes "chunked" } ∷ [];
    state = body_pending;
  };
  request = record fresh { first_line = codes "GET / HTTP/1.1"; state = body_pending };
  body_parser = none;
}

answer-ComesInChunks : ComesInChunks answer
unfolding is_body_pending has_no_body is_chunked has_header split substr substr_from find_at find
    starts_with ◌≈◌
answer-ComesInChunks = (refl, refl, refl, refl)

read_in_body-body_example :
    (calculate_expected_body_size answer >>= λ q.
    read_in_body q (body one_chunk (codes "0") (codes "HTTP")))
    ≡ ok (
      length (body one_chunk (codes "0") []),
      with_body answer one_chunk (codes "0") (codes "HTTP"),
    )
read_in_body-body_example =
    read_in_body-body answer one_chunk (codes "0") (codes "HTTP") answer-ComesInChunks
      one_chunk-IsChunk zero-IsHeader
