-- ===== src/Http/Sequence.antt =====
-- src/net/http_message_sequence.hh, for requests: messages cut from a stream of bytes.
use gg.Prelude.{
  ℕ, zero, suc, ◌+◌, ◌*◌, Bool, true, false, none, some, List, [], ◌∷◌, ◌++◌, ◌==◌, if◌then◌else◌,
  length, take, drop, is_empty, Result, ok, err, assert_failed, out_of_fuel, ◌>>=◌, ◌>>◌, guard,
}
use gg.Text.{Bytes, find}
use package.gg.Http.{
  State, first_line_pending, headers_pending, body_pending, complete, HttpMessage, fresh, crlf,
  set_first_line, add_header, done_with_headers, read_in_body, eof,
}

pub record Sequence : Type 0 where
  pub buffer : Bytes
  pub complete_messages : List HttpMessage
  pub message_in_progress : HttpMessage

abbrev is_complete : State → Bool
is_complete complete = true
is_complete _ = false

-- What a line does to the message in progress.
unfoldable pub take_line : HttpMessage → State → Bytes → Result HttpMessage
take_line m first_line_pending line = set_first_line m line
take_line m headers_pending line = if is_empty line then done_with_headers m else add_header m line
take_line m _ line = err assert_failed

-- A step that waits for a line.
unfoldable pub line_step : Sequence → State → Result (Bool × Sequence)
unfolding take_line
line_step q state = elim (find crlf q.buffer) [
  | none ↦ ok (false, q)
  | some i ↦ do
    m ← take_line q.message_in_progress state (take i q.buffer)
    ok (true, record q { buffer = drop (i + 2) q.buffer; message_in_progress = m })
]

unfoldable pub body_step : Sequence → Result (Bool × Sequence)
body_step q = do
  done ← read_in_body q.message_in_progress q.buffer
  let finished = is_complete done.1.state
  guard (if done.0 == length q.buffer then true else finished) assert_failed
  ok (finished, record q { buffer = drop done.0 q.buffer; message_in_progress = done.1 })

-- Whether to go on, and the state after the step.
unfoldable pub parsing_step : Sequence → Result (Bool × Sequence)
unfolding line_step body_step
parsing_step q = elim q.message_in_progress.state [
  | first_line_pending ↦ line_step q first_line_pending
  | headers_pending ↦ line_step q headers_pending
  | body_pending ↦ body_step q
  | complete ↦ ok (
    true,
    record q {
      complete_messages = q.complete_messages ++ q.message_in_progress ∷ [];
      message_in_progress = fresh;
    },
  )
]

-- `while ( parsing_step() ) {}`
unfoldable pub parsing_loop : ℕ → Sequence → Result Sequence
unfolding parsing_step
parsing_loop zero q = err out_of_fuel
parsing_loop (suc fuel) q = do
  done ← parsing_step q
  if done.0 then parsing_loop fuel done.1 else ok done.1

-- Two bytes of a line take one step; the bodies and the ends of messages take three more a message.
unfoldable pub parse : Sequence → Bytes → Result Sequence
unfolding parsing_loop
parse q buf = do
  (if is_empty buf then eof q.message_in_progress else ok tt)
  let q' = record q { buffer = q.buffer ++ buf }
  parsing_loop (4 * length q'.buffer + 8) q'
