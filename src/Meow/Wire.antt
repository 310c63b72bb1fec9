-- ===== src/Meow/Wire.antt =====
-- Messages through the wire: `str` and then `parse`.
use gg.Prelude.{
  ℕ, zero, suc, ◌+◌, ◌-◌, ◌^◌, ◌<◌, ◌≡◌, refl, ap, sym, ◌∙◌, List, [], ◌∷◌, ◌++◌, append_assoc,
  append-nil, arith, length, ok, length-append, All, drop-append, take-append,
}
use gg.Text.{Bytes}
use gg.Chunk.{be_value}
use package.gg.Meow.{Message, put_field, str, parse_loop, parse, OpCode, message}
use package.gg.Meow.Frame.{field, frame_length, frame}
use package.gg.Meow.Turns.{parser, parse_loop-turn_whole, parse_loop-turn_short}

-- What the constructors of `Message` give for a payload that the length field can frame.
abbrev pub IsFramed : Message → Type 0
IsFramed m = (length m.payload ≡ m.payload_length) × (m.payload_length + 5 < 2 ^ 32)

length-str : (m : Message) → length (str m) ≡ 5 + length m.payload
unfolding str put_field
length-str m = omega arith

field-str :
    (m : Message) (t : Bytes) → m.payload_length < 2 ^ 32 → field (str m ++ t) ≡ m.payload_length
unfolding field str put_field be_value
field-str m t h = omega arith

frame_length-str :
    (m : Message) (t : Bytes) → IsFramed m → frame_length (str m ++ t) ≡ 5 + m.payload_length
unfolding frame_length
frame_length-str m t h =
    ground
      (arith, field-str m t (omega (arith, h.1)), length-append (str m) t, length-str m, h.0, h.1)

frame-str :
    (m : Message) (t : Bytes) → IsFramed m → frame (str m ++ t) (5 + m.payload_length) ≡ ok m
unfolding frame str put_field field be_value
frame-str m t h = ground (
  arith,
  take-append m.payload t (5 + m.payload_length - 5) (omega (arith, h.0)),
  field-str m t (omega (arith, h.1)),
)

parse_loop-str :
    (fuel : ℕ) (m : Message) (t : Bytes) (done : List Message)
    → IsFramed m
    → parse_loop (suc fuel) (str m ++ t) done ≡ parse_loop fuel t (done ++ m ∷ [])
parse_loop-str fuel m t done h =
    parse_loop-turn_whole fuel (str m ++ t) done
      (ground (arith, frame_length-str m t h, length-append (str m) t, length-str m, h.0))
    ∙ rw
        (
          frame_length-str m t h,
          frame-str m t h,
          drop-append (str m) t (5 + m.payload_length) (omega (arith, length-str m, h.0)),
        )
        refl

-- The bytes of the messages, one after the other.
abbrev pub strs : List Message → Bytes
strs [] = []
strs (m ∷ ms) = str m ++ strs ms

parse_loop-strs :
    (fuel : ℕ) (ms done : List Message)
    → All IsFramed ms
    → length (strs ms) < fuel
    → parse_loop fuel (strs ms) done ≡ ok (parser [] (done ++ ms))
parse_loop-strs zero ms done a h = absurd (omega arith)
parse_loop-strs (suc fuel) [] done a h =
    parse_loop-turn_short fuel [] done (unfold frame_length in refl)
    ∙ ap (λ d. ok (parser [] d)) (sym (append-nil done))
parse_loop-strs (suc fuel) (m ∷ ms) done a h =
    parse_loop-str fuel m (strs ms) done a.0
    ∙ parse_loop-strs fuel ms (done ++ m ∷ []) a.1
        (omega (arith, length-append (str m) (strs ms), length-str m))
    ∙ ap (λ d. ok (parser [] d)) (append_assoc done (m ∷ []) ms)

-- Messages whose length field frames their payload, written one after the other, are read back:
-- all of them, in order, behind those that were there, with nothing left in the buffer.
pub parse-strs :
    (ms done : List Message)
    → All IsFramed ms
    → parse (record { raw_buffer = []; completed_messages = done }) (strs ms)
      ≡ ok (record { raw_buffer = []; completed_messages = done ++ ms })
unfolding parse
parse-strs ms done a = parse_loop-strs (suc (length (strs ms))) ms done a (omega arith)

-- A payload of less than 2^32 - 5 bytes makes a message that is framed so.
pub message-IsFramed : (o : OpCode) (s : Bytes) → length s + 5 < 2 ^ 32 → IsFramed (message o s)
unfolding message
message-IsFramed o s h = (omega arith, omega arith)
