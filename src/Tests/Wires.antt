-- ===== src/Tests/Wires.antt =====
-- Examples for the messages and for `split`.
use gg.Prelude.{◌≡◌, refl, List, [], ◌∷◌, ◌++◌, ok, ◌>>=◌, arith, All}
use gg.Text.{Bytes, codes, Lacks}
use gg.Tokenize.{split}
use gg.Tokenize.Join.{join, split-join}
use gg.Http.{HttpHeader, header_of, header_str, drop_spaces, read_in_body}
use gg.Http.Header.{IsStripped, header_of-header_str}
use gg.Http.Body.{pending, go_on, read_in_body-append}
use gg.Meow.{Message, MessageParser, message, ping, put, str, parse}
use gg.Meow.Wire.{strs, IsFramed, message-IsFramed, parse-strs}
use gg.Meow.Stream.{parse-append}

abbrev idle : MessageParser
idle = record { raw_buffer = []; completed_messages = [] }

abbrev two_messages : List Message
two_messages = message ping [] ∷ message put (codes "data") ∷ []

two-IsFramed : All IsFramed two_messages
two-IsFramed = (
  message-IsFramed ping [] (omega arith),
  (message-IsFramed put (codes "data") (omega arith), tt),
)

parse-strs_example :
    parse
      (record { raw_buffer = []; completed_messages = message ping [] ∷ [] })
      (strs two_messages)
    ≡ ok (record { raw_buffer = []; completed_messages = message ping [] ∷ [] ++ two_messages })
parse-strs_example = parse-strs two_messages (message ping [] ∷ []) two-IsFramed

parse-append_example :
    parse idle (str (message put (codes "data")) ++ codes "more")
    ≡ (parse idle (str (message put (codes "data"))) >>= λ q. parse q (codes "more"))
parse-append_example = parse-append idle (str (message put (codes "data"))) (codes "more")

split-join_example :
    (ts : List Bytes) × (split (codes "PATH=a=b") (b'=' ∷ []) ≡ ok ts)
    × (join b'=' ts ≡ codes "PATH=a=b")
    × All (Lacks b'=') ts
split-join_example = split-join (codes "PATH=a=b") b'=' (omega arith)

abbrev host : HttpHeader
host = record { key = b'H' ∷ []; value = codes "a b" }

header_of-header_str_example : header_of (header_str host) ≡ ok host
header_of-header_str_example = header_of-header_str host ((λ e. omega arith), tt) stripped
  where
    same : drop_spaces host.value ≡ host.value
    same = unfold drop_spaces in refl

    stripped : IsStripped host.value
    stripped = (refl, same)

read_in_body-append_example :
    read_in_body (pending (codes "PUT /x") (host ∷ []) 5 (codes "ab")) (codes "c" ++ codes "deGET")
    ≡ (read_in_body (pending (codes "PUT /x") (host ∷ []) 5 (codes "ab")) (codes "c") >>= λ r.
        go_on r (codes "deGET"))
read_in_body-append_example =
    read_in_body-append (codes "PUT /x") (host ∷ []) 5 (codes "ab") (codes "c") (codes "deGET")
      (omega arith)
