-- ===== src/Http.antt =====
-- src/net/http_header.cc, http_message.hh, http_message.cc and http_request.cc, and the integers of
-- strict_conversions.cc: an HTTP request as it is read. A `long int` is taken as the `size_t` that
-- it is assigned to.
pub mod Sequence
pub mod Header
pub mod Body
pub mod Chunked
pub mod Response
use gg.Prelude.{
  ℕ, zero, suc, ◌+◌, ◌-◌, ◌*◌, ◌^◌, ◌≤◌, ◌≡◌, Bool, true, false, ◌&&◌, ◌||◌, not, Option, none,
  some, List, [], ◌∷◌, ◌++◌, map, leb, ltb, ◌==◌, min, if◌then◌else◌, length, take, drop, is_empty,
  Result, ok, err, runtime_error, unix_error, assert_failed, ◌>>=◌, ◌>>◌, guard,
}
use gg.Text.{Bytes, codes, ◌≈◌, find}
use gg.Hash.Hex.{skip_spaces}

pub data State : Type 0 where
  first_line_pending headers_pending body_pending complete : State

pub record HttpHeader : Type 0 where
  pub key : Bytes
  pub value : Bytes

-- `expected` says whether the size of the body is known, and the size.
pub record HttpMessage : Type 0 where
  pub first_line : Bytes
  pub headers : List HttpHeader
  pub body : Bytes
  pub state : State
  pub expected : Bool × ℕ

abbrev pub fresh : HttpMessage
fresh = record {
  first_line = [];
  headers = [];
  body = [];
  state = first_line_pending;
  expected = (false, 2 ^ 64 - 1);
}

abbrev pub crlf : Bytes
crlf = 13 ∷ 10 ∷ []

-- `s.substr( s.find_first_not_of( " " ) )`
unfoldable pub drop_spaces : Bytes → Bytes
drop_spaces [] = []
drop_spaces (c ∷ s) = let rest = drop_spaces s in if c == b' ' then rest else c ∷ s

-- A value of spaces only keeps them.
unfoldable pub strip_value : Bytes → Bytes
unfolding drop_spaces
strip_value s = if is_empty (drop_spaces s) then s else drop_spaces s

-- `HTTPHeader( buf )`
unfoldable pub header_of : Bytes → Result HttpHeader
unfolding strip_value
header_of buf = elim (find (b':' ∷ []) buf) [
  | none ↦ err (runtime_error "HTTPHeader: buffer does not contain colon")
  | some i ↦ ok (record { key = take i buf; value = strip_value (drop (i + 1) buf) })
]

unfoldable pub header_str : HttpHeader → Bytes
header_str h = h.key ++ b':' ∷ b' ' ∷ h.value

-- `http_to_lower`
unfoldable pub http_to_lower : ℕ → ℕ
http_to_lower c = if leb b'A' c && leb c b'Z' then c + 32 else c

unfoldable pub equivalent_strings : Bytes → Bytes → Bool
unfolding drop_spaces http_to_lower
equivalent_strings a b = map http_to_lower (drop_spaces a) ≈ map http_to_lower (drop_spaces b)

-- The first header of that name.
unfoldable pub find_header : Bytes → List HttpHeader → Option Bytes
unfolding equivalent_strings
find_header name [] = none
find_header name (h ∷ hs) =
    let rest = find_header name hs in if equivalent_strings h.key name then some h.value else rest

unfoldable pub has_header : HttpMessage → Bytes → Bool
unfolding find_header
has_header m name = elim (find_header name m.headers) [ none ↦ false | some _ ↦ true ]

unfoldable pub get_header_value : HttpMessage → Bytes → Result Bytes
unfolding find_header
get_header_value m name = elim (find_header name m.headers) [
  | none ↦ err (runtime_error "HTTPMessage header not found: ")
  | some v ↦ ok v
]

unfoldable pub set_first_line : HttpMessage → Bytes → Result HttpMessage
set_first_line m line = elim m.state [
  | first_line_pending ↦ ok (record m { first_line = line; state = headers_pending })
  | _ ↦ err assert_failed
]

unfoldable pub add_header : HttpMessage → Bytes → Result HttpMessage
unfolding header_of
add_header m line = elim m.state [
  | headers_pending ↦ do h ← header_of line; ok (record m { headers = m.headers ++ h ∷ [] })
  | _ ↦ err assert_failed
]

-- The digits of a decimal number, to the end of the text.
unfoldable pub decimal : ℕ → Bytes → Option ℕ
decimal n [] = some n
decimal n (c ∷ s) =
    let rest = decimal (n * 10 + (c - b'0')) s in if leb b'0' c && leb c b'9' then rest else none

unfoldable pub digits : Bytes → Option ℕ
unfolding decimal
digits [] = none
digits (c ∷ s) = decimal 0 (c ∷ s)

unfoldable pub in_range : Bool → Option ℕ → Result ℕ
in_range negative none = err (runtime_error "Invalid integer: ")
in_range false (some n) = if ltb n (2 ^ 63) then ok n else err (unix_error "strtol")
in_range true (some n) =
    if n == 0 then ok 0 else if leb n (2 ^ 63) then ok (2 ^ 64 - n) else err (unix_error "strtol")

unfoldable pub signed_digits : Bytes → Result ℕ
unfolding digits in_range
signed_digits [] = err (runtime_error "Invalid integer: ")
signed_digits (c ∷ s) =
    if c == b'-'
    then in_range true (digits s)
    else if c == b'+'
    then in_range false (digits s)
    else in_range false (digits (c ∷ s))

-- `strict_atoi( str, 10 )`
unfoldable pub strict_atoi : Bytes → Result ℕ
unfolding signed_digits
strict_atoi s =
    if is_empty s
    then err (runtime_error "Invalid integer string: empty")
    else signed_digits (skip_spaces s)

-- `HTTPRequest::calculate_expected_body_size`, called where the body is pending.
unfoldable pub calculate_expected_body_size : HttpMessage → Result HttpMessage
unfolding has_header get_header_value strict_atoi
calculate_expected_body_size m =
    if take 4 m.first_line ≈ codes "GET " || take 5 m.first_line ≈ codes "HEAD "
    then ok (record m { expected = (true, 0) })
    else if take 5 m.first_line ≈ codes "POST " || take 4 m.first_line ≈ codes "PUT "
    then (if has_header m (codes "Content-Length")
        then (do
          field ← get_header_value m (codes "Content-Length")
          n ← strict_atoi field
          ok (record m { expected = (true, n) }))
        else err (runtime_error "HTTPRequest: does not support chunked requests"))
    else err (runtime_error "Cannot handle HTTP method: ")

unfoldable pub done_with_headers : HttpMessage → Result HttpMessage
unfolding calculate_expected_body_size
done_with_headers m = elim m.state [
  | headers_pending ↦ calculate_expected_body_size (record m { state = body_pending })
  | _ ↦ err assert_failed
]

-- A body of known size: as much of the text as is still expected.
unfoldable pub append_body : HttpMessage → Bytes → ℕ → ℕ × HttpMessage
append_body m s n =
    let body = m.body ++ take n s in
    (n, record m { body = body; state = if length body == m.expected.1 then complete else m.state })

-- `HTTPRequest` has no other bodies than those of known size.
unfoldable pub read_in_body : HttpMessage → Bytes → Result (ℕ × HttpMessage)
unfolding append_body
read_in_body m s = elim m.state [
  | body_pending ↦
      if m.expected.0
      then (if leb (length m.body) m.expected.1
          then ok (append_body m s (min (m.expected.1 - length m.body) (length s)))
          else err assert_failed)
      else err (runtime_error "HTTPRequest: does not support chunked requests")
  | _ ↦ err assert_failed
]

-- `eof`, with `HTTPRequest::eof_in_body`.
unfoldable pub eof : HttpMessage → Result (Unit {0})
eof m = elim m.state [
  | first_line_pending ↦ ok tt
  | headers_pending ↦ err (runtime_error "HTTPMessage: EOF received in middle of headers")
  | body_pending ↦ err (runtime_error "HTTPRequest: got EOF in middle of body")
  | complete ↦ err assert_failed
]

unfoldable pub headers_str : List HttpHeader → Bytes
unfolding header_str
headers_str [] = []
headers_str (h ∷ hs) = header_str h ++ crlf ++ headers_str hs

unfoldable pub str : HttpMessage → Result Bytes
unfolding headers_str
str m = elim m.state [
  | complete ↦ ok (m.first_line ++ crlf ++ headers_str m.headers ++ crlf ++ m.body)
  | _ ↦ err assert_failed
]
