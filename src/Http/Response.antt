-- ===== src/Http/Response.antt =====
-- src/net/http_response.hh, http_response.cc, body_parser.hh, mime_type.cc and http_response_parser.cc: the
-- responses, and the queue of the requests that they answer.
pub mod Complete
use gg.Prelude.{
  ℕ, zero, suc, ◌+◌, ◌-◌, ◌*◌, ◌^◌, Bool, true, false, ◌&&◌, ◌||◌, not, Option, none, some, List,
  [], ◌∷◌, ◌++◌, leb, ltb, ◌==◌, min, if◌then◌else◌, length, take, is_empty, get_elem?, Result, ok,
  err, runtime_error, assert_failed, out_of_range, ◌>>=◌, ◌>>◌, guard,
}
use gg.Text.{Bytes, codes, ◌≈◌}
use gg.Tokenize.{split}
use package.gg.Http.{
  State, first_line_pending, headers_pending, body_pending, complete, HttpMessage,
  equivalent_strings, has_header, get_header_value, strict_atoi, append_body,
}
use package.gg.Http.Chunked.{ChunkedBodyParser, fresh_parser}
use package.gg.Http.Chunked as Chunked

pub data BodyParser : Type 0 where
  chunked_body_parser : ChunkedBodyParser → BodyParser
  rule5_body_parser : BodyParser

pub record HttpResponse : Type 0 where
  pub message : HttpMessage
  pub request : HttpMessage
  pub body_parser : Option BodyParser

-- `state_ > FIRST_LINE_PENDING`
unfoldable pub has_first_line : HttpMessage → Bool
has_first_line m = elim m.state [ first_line_pending ↦ false | _ ↦ true ]

unfoldable pub is_body_pending : HttpMessage → Bool
is_body_pending m = elim m.state [ body_pending ↦ true | _ ↦ false ]

-- `HTTPRequest::is_head`
unfoldable pub is_head : HttpMessage → Result Bool
unfolding has_first_line
is_head m = do guard (has_first_line m) assert_failed; ok (take 5 m.first_line ≈ codes "HEAD ")

-- The second of at least three tokens.
unfoldable pub second_of_three : List Bytes → Result Bytes
second_of_three (a ∷ code ∷ c ∷ rest) = ok code
second_of_three _ = err (runtime_error "HTTPResponse: Invalid status line: ")

unfoldable pub status_code : HttpMessage → Result Bytes
unfolding has_first_line second_of_three
status_code m = do
  guard (has_first_line m) assert_failed
  tokens ← split m.first_line (codes " ")
  second_of_three tokens

-- `status_code().at( 0 ) == '1'`
unfoldable pub is_informational : Bytes → Result Bool
is_informational [] = err (out_of_range "at")
is_informational (c ∷ code) = ok (c == b'1')

-- Rule 1: the response has no body.
unfoldable pub has_no_body : HttpResponse → Result Bool
unfolding status_code is_informational is_head
has_no_body r = do
  code ← status_code r.message
  informational ← is_informational code
  if informational || (code ≈ codes "204") || (code ≈ codes "304")
      then ok true
      else is_head r.request

-- `split( … ).back()`; `split` gives one token or more.
unfoldable pub back : List Bytes → Result Bytes
back [] = err assert_failed
back (t ∷ []) = ok t
back (t ∷ u ∷ ts) = back (u ∷ ts)

-- Rule 2: the last of the transfer encodings is `chunked`.
unfoldable pub is_chunked : HttpMessage → Result Bool
unfolding has_header get_header_value equivalent_strings back
is_chunked m =
    if has_header m (codes "Transfer-Encoding")
    then (do
      field ← get_header_value m (codes "Transfer-Encoding")
      encodings ← split field (codes ",")
      last ← back encodings
      ok (equivalent_strings last (codes "chunked")))
    else ok false

-- The type of a `MIMEType( content_type )`.
unfoldable pub first_nonempty : List Bytes → Result Bytes
first_nonempty [] = err (runtime_error "MIMEType: invalid MIME media-type string")
first_nonempty (t ∷ ts) =
    if is_empty t then err (runtime_error "MIMEType: invalid MIME media-type string") else ok t

unfoldable pub mime_type : Bytes → Result Bytes
unfolding first_nonempty
mime_type content_type = do parts ← split content_type (codes ";"); first_nonempty parts

-- Rule 4: parts, which say where they end.
unfoldable pub is_multipart : HttpMessage → Result Bool
unfolding has_header get_header_value equivalent_strings mime_type
is_multipart m =
    if has_header m (codes "Content-Type")
    then (do
      field ← get_header_value m (codes "Content-Type")
      type ← mime_type field
      ok (equivalent_strings type (codes "multipart/byteranges")))
    else ok false

-- `set_expected_body_size( true, n )`
unfoldable pub set_known : HttpResponse → ℕ → HttpResponse
set_known r n = record r { message = record r.message { expected = (true, n) } }

-- `set_expected_body_size( false )`, and the parser of the body.
unfoldable pub set_parser : HttpResponse → BodyParser → HttpResponse
set_parser r p = record r {
  message = record r.message { expected = (false, 2 ^ 64 - 1) };
  body_parser = some p;
}

-- Rules 4 and 5.
unfoldable pub unknown_size : HttpResponse → Result HttpResponse
unfolding is_multipart set_parser
unknown_size r = do
  multipart ← is_multipart r.message
  if multipart
      then err
          (runtime_error "HTTPResponse: unsupported multipart/byteranges without Content-Length")
      else ok (set_parser r rule5_body_parser)

-- Rules 3 to 5.
unfoldable pub plain_size : HttpResponse → Result HttpResponse
unfolding has_header get_header_value strict_atoi set_known unknown_size
plain_size r =
    if not (has_header r.message (codes "Transfer-Encoding"))
      && has_header r.message (codes "Content-Length")
    then (do
      field ← get_header_value r.message (codes "Content-Length")
      n ← strict_atoi field
      ok (set_known r n))
    else unknown_size r

unfoldable pub calculate_expected_body_size : HttpResponse → Result HttpResponse
unfolding has_no_body is_chunked has_header set_known set_parser plain_size
calculate_expected_body_size r = do
  guard (is_body_pending r.message) assert_failed
  bodiless ← has_no_body r
  if bodiless then ok (set_known r 0) else (do
    chunked ← is_chunked r.message
    if chunked
        then ok (
            set_parser r
              (chunked_body_parser (fresh_parser (has_header r.message (codes "Trailer")))))
        else plain_size r)

-- `BodyParser::read`, with the parser as it is left.
unfoldable pub parser_read : Bytes → BodyParser → Result (Option ℕ × BodyParser)
parser_read s rule5_body_parser = ok (none, rule5_body_parser)
parser_read s (chunked_body_parser p) = do
  done ← Chunked.read s p
  ok (done.0, chunked_body_parser done.1)

-- What has been read of the body, and whether that is all.
unfoldable pub add_to_body : HttpResponse → Bytes → Option ℕ × BodyParser → ℕ × HttpResponse
add_to_body r s (none, p) = (
  length s,
  record r { message = record r.message { body = r.message.body ++ s }; body_parser = some p },
)
add_to_body r s (some n, p) = (
  n,
  record r {
    message = record r.message { body = r.message.body ++ take n s; state = complete };
    body_parser = some p;
  },
)

unfoldable pub read_in_complex_body : HttpResponse → Bytes → Result (ℕ × HttpResponse)
unfolding is_body_pending parser_read add_to_body
read_in_complex_body r s = do
  guard (is_body_pending r.message) assert_failed
  elim r.body_parser [
    | none ↦ err assert_failed
    | some parser ↦ do done ← parser_read s parser; ok (add_to_body r s done)
  ]

unfoldable pub of_known_size : HttpResponse → ℕ × HttpMessage → ℕ × HttpResponse
of_known_size r done = (done.0, record r { message = done.1 })

-- `HTTPMessage::read_in_body`
unfoldable pub read_in_body : HttpResponse → Bytes → Result (ℕ × HttpResponse)
unfolding read_in_complex_body append_body of_known_size
read_in_body r s = do
  guard (is_body_pending r.message) assert_failed
  if r.message.expected.0
      then (if leb (length r.message.body) r.message.expected.1
          then ok (
              of_known_size r (
                append_body r.message s
                  (min (r.message.expected.1 - length r.message.body) (length s))))
          else err assert_failed)
      else read_in_complex_body r s

-- `HTTPResponse::eof_in_body`; both parsers say that the end of the stream may end the body.
unfoldable pub eof_in_body : HttpResponse → Result Bool
eof_in_body r = elim r.body_parser [
  | none ↦ err (runtime_error "HTTPResponse: got EOF in middle of body")
  | some parser ↦ ok true
]

-- `HTTPMessage::eof`
unfoldable pub eof : HttpResponse → Result HttpResponse
unfolding eof_in_body
eof r = elim r.message.state [
  | first_line_pending ↦ ok r
  | headers_pending ↦ err (runtime_error "HTTPMessage: EOF received in middle of headers")
  | body_pending ↦ do
    ends ← eof_in_body r
    ok (if ends then record r { message = record r.message { state = complete } } else r)
  | complete ↦ err assert_failed
]

unfoldable pub set_request : HttpResponse → HttpMessage → Result HttpResponse
set_request r request = elim r.message.state [
  | first_line_pending ↦ ok (record r { request = request })
  | _ ↦ err assert_failed
]

-- `HTTPResponseParser::initialize_new_message`, with the requests that are left.
unfoldable pub initialize_new_message :
    HttpResponse → List HttpMessage → Result (HttpResponse × List HttpMessage)
unfolding set_request
initialize_new_message r [] =
    err (runtime_error "HTTPResponseParser: response without matching request")
initialize_new_message r (request ∷ requests) = do q ← set_request r request; ok (q, requests)

unfoldable pub new_request_arrived : List HttpMessage → HttpMessage → List HttpMessage
new_request_arrived requests request = requests ++ request ∷ []
