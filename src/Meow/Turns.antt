-- ===== src/Meow/Turns.antt =====
-- One turn of the loop of `parse`, and what more bytes behind the buffer change in it.
use gg.Prelude.{
  ℕ, suc, ◌-◌, ◌^◌, ◌≤◌, ◌<◌, ◌≡◌, refl, ap, ◌∙◌, inl, inr, Bool, true, false, List, [], ◌∷◌, ◌++◌,
  arith, ltb, length, drop, Result, ok, ◌>>=◌, take-append_le, length-append, length-drop,
  Bool-cases, err-ne-ok,
}
use gg.Text.{Bytes}
use package.gg.Meow.{Message, MessageParser, from_chunk, parse_loop, parse}
use package.gg.Meow.Frame.{field, frame_length, frame, expected_length-eq, from_chunk-eq}

abbrev pub parser : Bytes → List Message → MessageParser
parser raw done = record { raw_buffer = raw; completed_messages = done }

-- One turn of the loop.
turn : (fuel : ℕ) → Bytes → List Message → Bool → Result MessageParser
turn fuel raw done true = ok (record { raw_buffer = raw; completed_messages = done })
turn fuel raw done false = frame raw (frame_length raw) >>= λ m.
    parse_loop fuel (drop (frame_length raw) raw) (done ++ m ∷ [])

abbrev pub resume : Bytes → MessageParser → Result MessageParser
resume t q = parse q t

frame_length-below : (s : Bytes) → frame_length s < 2 ^ 32
unfolding frame_length
frame_length-below s = ground arith

known : (fuel : ℕ) → Bytes → List Message → ℕ → Bool → Result MessageParser
known fuel raw done expected short = elim short [
  | true ↦ ok (record { raw_buffer = raw; completed_messages = done })
  | false ↦ from_chunk (record { buffer = raw; size = expected }) >>= λ m.
      parse_loop fuel (drop expected raw) (done ++ m ∷ [])
]

parse_loop-known :
    (fuel : ℕ) (raw : Bytes) (done : List Message)
    → parse_loop (suc fuel) raw done
      ≡ known fuel raw done (frame_length raw) (ltb (length raw) (frame_length raw))
unfolding parse_loop known
parse_loop-known fuel raw done =
    ap (λ r. r >>= λ n. known fuel raw done n (ltb (length raw) n)) (expected_length-eq raw)

known-turn :
    (fuel : ℕ) (raw : Bytes) (done : List Message) (short : Bool)
    → ltb (length raw) (frame_length raw) ≡ short
    → known fuel raw done (frame_length raw) short ≡ turn fuel raw done short
unfolding known turn
known-turn fuel raw done true e = refl
known-turn fuel raw done false e =
    rw (from_chunk-eq raw (frame_length raw) (ground arith) (frame_length-below raw)) refl

parse_loop-turn :
    (fuel : ℕ) (raw : Bytes) (done : List Message)
    → parse_loop (suc fuel) raw done ≡ turn fuel raw done (ltb (length raw) (frame_length raw))
parse_loop-turn fuel raw done = parse_loop-known fuel raw done ∙ known-turn fuel raw done _ refl

pub frame_length-append :
    (s t : Bytes) → frame_length s ≤ length s → frame_length (s ++ t) ≡ frame_length s
unfolding frame_length field
frame_length-append s t h = elim (Bool-cases (ltb (length s) 5)) [
  | inl short ↦ absurd (ground arith)
  | inr whole ↦ ground (arith, length-append s t, take-append_le 4 s t (ground arith))
]

pub frame-append :
    (s t : Bytes) (n : ℕ) → n ≤ length s → 5 ≤ length s → frame (s ++ t) n ≡ frame s n
unfolding frame
frame-append [] t n h f = absurd (omega arith)
frame-append (a ∷ []) t n h f = absurd (omega arith)
frame-append (a ∷ b ∷ []) t n h f = absurd (omega arith)
frame-append (a ∷ b ∷ c ∷ []) t n h f = absurd (omega arith)
frame-append (a ∷ b ∷ c ∷ d ∷ []) t n h f = absurd (omega arith)
frame-append (a ∷ b ∷ c ∷ d ∷ o ∷ s) t n h f = rw (take-append_le (n - 5) s t (omega arith)) refl

-- A frame that is read is at least five bytes long.
frame-size : (s : Bytes) (n : ℕ) (m : Message) → frame s n ≡ ok m → 5 ≤ n
unfolding frame
frame-size [] n m e = absurd (err-ne-ok _ m e)
frame-size (a ∷ []) n m e = absurd (err-ne-ok _ m e)
frame-size (a ∷ b ∷ []) n m e = absurd (err-ne-ok _ m e)
frame-size (a ∷ b ∷ c ∷ []) n m e = absurd (err-ne-ok _ m e)
frame-size (a ∷ b ∷ c ∷ d ∷ []) n m e = absurd (err-ne-ok _ m e)
frame-size (a ∷ b ∷ c ∷ d ∷ o ∷ s) n m e = ground arith

pub whole_size : (s : Bytes) → frame_length s ≤ length s → 5 ≤ length s
unfolding frame_length
whole_size s h = ground arith

pub shorter :
    (s : Bytes) (m : Message) (fuel : ℕ)
    → frame s (frame_length s) ≡ ok m
    → (length s < suc fuel)
    → frame_length s ≤ length s
    → length (drop (frame_length s) s) < fuel
shorter s m fuel e h le =
    omega (arith, length-drop (frame_length s) s, frame-size s (frame_length s) m e)

pub parse_loop-turn_short :
    (fuel : ℕ) (raw : Bytes) (done : List Message)
    → ltb (length raw) (frame_length raw) ≡ true
    → parse_loop (suc fuel) raw done ≡ ok (parser raw done)
unfolding turn
parse_loop-turn_short fuel raw done e = parse_loop-turn fuel raw done ∙ ap (turn fuel raw done) e

pub parse_loop-turn_whole :
    (fuel : ℕ) (raw : Bytes) (done : List Message)
    → ltb (length raw) (frame_length raw) ≡ false
    → parse_loop (suc fuel) raw done ≡ (
        frame raw (frame_length raw) >>= λ m.
        parse_loop fuel (drop (frame_length raw) raw) (done ++ m ∷ []))
unfolding turn
parse_loop-turn_whole fuel raw done e = parse_loop-turn fuel raw done ∙ ap (turn fuel raw done) e
