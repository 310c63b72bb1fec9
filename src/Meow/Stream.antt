-- ===== src/Meow/Stream.antt =====
-- The parser on a stream: how the bytes are cut into reads does not matter.
use gg.Prelude.{
  ℕ, zero, suc, ◌≤◌, ◌<◌, ◌≡◌, refl, ap, sym, ◌∙◌, inl, inr, false, List, [], ◌∷◌, ◌++◌,
  append_assoc, arith, ltb, length, drop, ok, ◌>>=◌, drop-append_le, length-append, Bool-cases,
  Result-cases,
}
use gg.Text.{Bytes}
use package.gg.Meow.{Message, MessageParser, parse_loop, parse}
use package.gg.Meow.Frame.{frame_length, frame}
use package.gg.Meow.Turns.{
  resume, parse_loop-turn_short, parse_loop-turn_whole, shorter, frame_length-append, frame-append,
  whole_size,
}

-- The loop ends before the fuel does, so more of it changes nothing.
parse_loop-fuel :
    (fuel more : ℕ) (raw : Bytes) (done : List Message)
    → length raw < fuel
    → length raw < more
    → parse_loop fuel raw done ≡ parse_loop more raw done
parse_loop-fuel zero more raw done h k = absurd (omega arith)
parse_loop-fuel (suc fuel) zero raw done h k = absurd (omega arith)
parse_loop-fuel (suc fuel) (suc more) raw done h k =
    elim (Bool-cases (ltb (length raw) (frame_length raw))) [
      | inl short ↦
          parse_loop-turn_short fuel raw done short
          ∙ sym (parse_loop-turn_short more raw done short)
      | inr whole ↦
          parse_loop-turn_whole fuel raw done whole
          ∙ (elim (Result-cases (frame raw (frame_length raw))) [
            | inl (m, e) ↦ rw e (
                parse_loop-fuel fuel more (drop (frame_length raw) raw) (done ++ m ∷ [])
                  (shorter raw m fuel e h (ground arith)) (shorter raw m more e k (ground arith)))
            | inr (x, e) ↦ rw e refl
          ])
          ∙ sym (parse_loop-turn_whole more raw done whole)
    ]

whole-append :
    (raw t : Bytes)
    → ltb (length raw) (frame_length raw) ≡ false
    → ltb (length (raw ++ t)) (frame_length (raw ++ t)) ≡ false
whole-append raw t h = ground (arith, frame_length-append raw t (ground arith), length-append raw t)

-- A complete frame at the head is taken off whatever follows it.
parse_loop-turn_append :
    (fuel : ℕ) (raw t : Bytes) (done : List Message)
    → ltb (length raw) (frame_length raw) ≡ false
    → parse_loop (suc fuel) (raw ++ t) done ≡ (
        frame raw (frame_length raw) >>= λ m.
        parse_loop fuel (drop (frame_length raw) raw ++ t) (done ++ m ∷ []))
parse_loop-turn_append fuel raw t done h =
    let le : frame_length raw ≤ length raw = ground arith in
    parse_loop-turn_whole fuel (raw ++ t) done (whole-append raw t h)
    ∙ rw
        (
          frame_length-append raw t le,
          frame-append raw t (frame_length raw) le (whole_size raw le),
          drop-append_le (frame_length raw) raw t le,
        )
        refl

rest_shorter :
    (raw t : Bytes) (more : ℕ) (m : Message)
    → frame raw (frame_length raw) ≡ ok m
    → length (raw ++ t) < suc more
    → frame_length raw ≤ length raw
    → length (drop (frame_length raw) raw ++ t) < more
rest_shorter raw t more m e k le = omega (
  arith,
  length-append (drop (frame_length raw) raw) t,
  length-append raw t,
  shorter raw m (length raw) e (omega arith) le,
)

parse_loop-append :
    (fuel more : ℕ) (raw t : Bytes) (done : List Message)
    → length raw < fuel
    → length (raw ++ t) < more
    → parse_loop more (raw ++ t) done ≡ (parse_loop fuel raw done >>= resume t)
unfolding parse
parse_loop-append zero more raw t done h k = absurd (omega arith)
parse_loop-append (suc fuel) zero raw t done h k = absurd (omega arith)
parse_loop-append (suc fuel) (suc more) raw t done h k =
    elim (Bool-cases (ltb (length raw) (frame_length raw))) [
      | inl short ↦
          parse_loop-fuel (suc more) (suc (length (raw ++ t))) (raw ++ t) done k (omega arith)
          ∙ sym (ap (λ r. r >>= resume t) (parse_loop-turn_short fuel raw done short))
      | inr whole ↦
          parse_loop-turn_append more raw t done whole
          ∙ (elim (Result-cases (frame raw (frame_length raw))) [
            | inl (m, e) ↦ rw e (
                parse_loop-append fuel more (drop (frame_length raw) raw) t (done ++ m ∷ [])
                  (shorter raw m fuel e h (ground arith))
                  (rest_shorter raw t more m e k (ground arith)))
            | inr (x, e) ↦ rw e refl
          ])
          ∙ sym (ap (λ r. r >>= resume t) (parse_loop-turn_whole fuel raw done whole))
    ]

-- Bytes that arrive in two reads give the same messages, and the same rest or the same exception,
-- as the same bytes in one read.
pub parse-append :
    (p : MessageParser) (a b : Bytes) → parse p (a ++ b) ≡ (parse p a >>= λ q. parse q b)
unfolding parse
parse-append p a b =
    ap (λ raw. parse_loop (suc (length raw)) raw p.completed_messages)
      (sym (append_assoc p.raw_buffer a b))
    ∙ parse_loop-append (suc (length (p.raw_buffer ++ a))) (suc (length ((p.raw_buffer ++ a) ++ b)))
        (p.raw_buffer ++ a) b p.completed_messages (omega arith) (omega arith)
