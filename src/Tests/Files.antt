-- ===== src/Tests/Files.antt =====
-- Examples for placeholders and for the factory of thunks.
use gg.Prelude.{
  length, ◌<◌, err, runtime_error, arith, not, ◌&&◌, ◌≡◌, ◌⊎◌, refl, Bool, true, false, none, some,
  List, [], ◌∷◌, ◌++◌, ok,
}
use gg.Text.{Bytes, codes}
use gg.Hash
use gg.Hash.{value, thunk, type}
use gg.DataList.{emplace_all, emplace}
use gg.Thunk.{Function, Thunk, set_hash, from_data, set_timeout}
use gg.Thunk.Wire.{serialize, to_protobuf, data_to_string}
use gg.Hash.Hex.{hex_text, hex_digits, hex_digit}
use gg.Placeholder.{shebang_directive, is_placeholder, read, written, is_space}
use gg.Placeholder.RoundTrip.{Solid, read-written, is_placeholder-read}
use gg.Factory.{
  Data, Output, Options, Generated, generate, create_thunk, placeholders_of, manifest_text,
  with_manifest,
}
use gg.Factory.Created.{Makes, manifest_datum, generate-create_thunk}
use gg.Factory.Placeholders.{StandForAll, generate-StandFor}
use package.gg.Tests.Sample.{encode, digest, codec, name_tool, name_value}

read-written_example :
    (read [] (written (codes "a.o") (codes "T1")) ≡ ok (some (codes "T1")))
    × (is_placeholder (written (codes "a.o") (codes "T1")) ≡ true)
unfolding is_space
read-written_example = read-written [] (codes "a.o") (codes "T1") refl (refl, (refl, tt))

-- A file of two bytes, in front of what an earlier reader has left.
is_placeholder-read_example :
    ((is_placeholder (codes "#!") ≡ true) × ¬ (read shebang_directive (codes "#!") ≡ ok none))
    ⊎ ((is_placeholder (codes "#!") ≡ false) × (read shebang_directive (codes "#!") ≡ ok none))
    ⊎ ((is_placeholder (codes "#!") ≡ false)
        × (length (codes "#!") < length shebang_directive)
        × (read shebang_directive (codes "#!") ≡ err (runtime_error "failed reading from ")))
is_placeholder-read_example = is_placeholder-read shebang_directive (codes "#!")

abbrev tool : Function
tool = record { hash = name_tool; args = codes "tool" ∷ []; envars = [] }

abbrev inputs : List Data
inputs =
    record {
      filename = codes "i";
      real_filename = codes "i";
      hash = name_value;
      object_type = value;
    }
    ∷ []

abbrev executables : List Data
executables =
    record { filename = []; real_filename = []; hash = name_tool; object_type = value } ∷ []

abbrev outputs : List Output
outputs =
    record { tag = codes "output"; filename = some (codes "a.o") }
    ∷ record { tag = codes "log"; filename = none }
    ∷ []

abbrev options : Options
options = record {
  generate_manifest = false;
  create_placeholder = true;
  collect_data = false;
  include_filenames = true;
}

abbrev made : Thunk
made = record {
  function = tool;
  values = (name_value, codes "i") ∷ [];
  thunks = [];
  executables = (name_tool, []) ∷ [];
  outputs = codes "output" ∷ codes "log" ∷ [];
  links = [];
  timeout = 7;
  hash_ = none;
}

abbrev name : Bytes
name = Hash.compute digest (serialize codec made) thunk

abbrev generated : Generated
generated = record {
  hash = name;
  made = set_hash made name;
  blobs = (name, serialize codec made) ∷ [];
  copies = [];
  placeholders = placeholders_of name outputs;
}

generate-create_thunk_example :
    ((options.generate_manifest ≡ false)
      × Makes digest codec [] (create_thunk tool inputs executables outputs 7 true []) generated)
    ⊎ ((options.generate_manifest ≡ true)
        × (text : Bytes) × (manifest_text outputs [] ≡ ok text)
        × Makes digest codec
            ((Hash.compute digest text value, text) ∷ [])
            (create_thunk
              (with_manifest (Hash.compute digest text value) tool)
              (inputs ++ manifest_datum (Hash.compute digest text value) ∷ [])
              executables
              outputs
              7
              true
              [])
            generated)
unfolding generate from_data type emplace_all emplace set_timeout
generate-create_thunk_example =
    generate-create_thunk digest codec tool inputs executables outputs [] 7 options [] generated
      refl

all_solid : Bytes → Bool
all_solid [] = true
all_solid (c ∷ s) = not (is_space c) && all_solid s

solid : (s : Bytes) → all_solid s ≡ true → Solid s
unfolding all_solid
solid [] h = tt
solid (c ∷ s) h = ground (arith, solid s)

generate-StandFor_example : StandForAll [] name outputs (placeholders_of name outputs)
unfolding generate is_space from_data type emplace_all emplace set_timeout Hash.compute all_solid
    hex_text serialize encode to_protobuf data_to_string hex_digits hex_digit
generate-StandFor_example =
    generate-StandFor digest codec tool inputs executables outputs [] 7 options [] generated [] refl
      refl refl (solid name refl) (solid (codes "output") refl, (solid (codes "log") refl, tt))
