-- ===== src/Gcc.antt =====
-- src/models/gcc.hh and gcc-base.cc: the compiler's stages and languages, and how a file's name or the
-- argument of -x gives its language. `basename` is libgen's: a parameter.
pub mod Languages
pub mod Options
pub mod Arguments
pub mod WOption
pub mod Parse
pub mod SourceName
pub mod Closed
pub mod Indices
pub mod Stages
pub mod Generate
pub mod Linked
pub mod Orders
pub mod DefaultOutput
pub mod ThunkArgs
pub mod Isolate
use gg.Prelude.{
  ℕ, zero, suc, ◌+◌, ◌≤◌, ◌≡◌, Bool, true, false, ◌||◌, ◌&&◌, Option, none, some, List, [], ◌∷◌,
  ◌++◌, ◌==◌, leb, if◌then◌else◌, is_empty, drop, take, Result, ok, err, runtime_error, ◌>>=◌,
}
use gg.Text.{Bytes, codes, starts_with}
use gg.Dict.{Dict, get, contains}

pub data GccStage : Type 0 where
  preprocess compile assemble link : GccStage

-- The enumerators are numbered from 1.
unfoldable pub stage_value : GccStage → ℕ
stage_value preprocess = 1
stage_value compile = 2
stage_value assemble = 3
stage_value link = 4

pub data Language : Type 0 where
  no_language c c_header cpp_output cxx cxx_header cxx_cpp_output assembler assembler_with_cpp
        object shared_object archive_library shared_library :
      Language

abbrev pub ext_to_lang : Dict Language
ext_to_lang =
    (codes "c", c)
    ∷ (codes "h", c_header)
    ∷ (codes "i", cpp_output)
    ∷ (codes "C", cxx)
    ∷ (codes "cc", cxx)
    ∷ (codes "cxx", cxx)
    ∷ (codes "cpp", cxx)
    ∷ (codes "CPP", cxx)
    ∷ (codes "c++", cxx)
    ∷ (codes "ii", cxx_cpp_output)
    ∷ (codes "s", assembler)
    ∷ (codes "S", assembler_with_cpp)
    ∷ (codes "sx", assembler_with_cpp)
    ∷ (codes "o", object)
    ∷ (codes "so", shared_object)
    ∷ (codes "sho", object)
    ∷ (codes "lo", object)
    ∷ (codes "a", archive_library)
    ∷ []

abbrev pub name_to_lang : Dict Language
name_to_lang =
    (codes "none", no_language)
    ∷ (codes "c", c)
    ∷ (codes "c-header", c_header)
    ∷ (codes "cpp-output", cpp_output)
    ∷ (codes "c++", cxx)
    ∷ (codes "c++-header", cxx_header)
    ∷ (codes "c++-cpp-output", cxx_cpp_output)
    ∷ (codes "assembler", assembler)
    ∷ (codes "assembler-with-cpp", assembler_with_cpp)
    ∷ []

-- `filename.find_last_of( '.' )`
unfoldable pub find_last_of : ℕ → Bytes → Option ℕ
find_last_of x [] = none
find_last_of x (y ∷ s) = elim (find_last_of x s) [
  | some i ↦ some (suc i)
  | none ↦ if y == x then some 0 else none
]

-- `basename` is a parameter: the part of a path after its last slash.
unfoldable pub split_source_name : (Bytes → Bytes) → Bytes → Result (Bytes × Bytes)
unfolding find_last_of
split_source_name basename path = elim (find_last_of b'.' (basename path)) [
  | none ↦ err (runtime_error "missing extension in filename: ")
  | some pos ↦ ok (take pos (basename path), drop (pos + 1) (basename path))
]

-- `[\.\d+]` and what `.` matches.
unfoldable pub is_version_char : ℕ → Bool
is_version_char x = x == b'.' || x == b'+' || (leb b'0' x && leb x b'9')

unfoldable pub is_line_char : ℕ → Bool
is_line_char x = if x == 10 || x == 13 then false else true

unfoldable pub is_version : Bytes → Bool
unfolding is_version_char
is_version [] = true
is_version (x ∷ s) = is_version_char x && is_version s

-- `.so` and at least one character of a version, at the front of the text.
unfoldable pub so_version : Bytes → Bool
unfolding is_version
so_version s =
    starts_with (codes ".so") s && (if is_empty (drop 3 s) then false else is_version (drop 3 s))

-- `regex_match` with ".+\.so[\.\d+]+$"; `seen` where a character of the text has been passed.
unfoldable pub so_pattern : Bool → Bytes → Bool
unfolding so_version is_line_char
so_pattern seen [] = false
so_pattern seen (x ∷ s) = (seen && so_version (x ∷ s)) || (is_line_char x && so_pattern true s)

unfoldable pub filename_to_language : (Bytes → Bytes) → Bytes → Result Language
unfolding split_source_name so_pattern
filename_to_language basename path = do
  name ← split_source_name basename path
  elim (get ext_to_lang name.1) [
    | some l ↦ ok l
    | none ↦
        if so_pattern false path
        then ok shared_object
        else err (runtime_error "unknown file extension: ")
  ]

unfoldable pub name_to_language : Bytes → Result Language
name_to_language name = elim (get name_to_lang name) [
  | some l ↦ ok l
  | none ↦ err (runtime_error "unknown language name: ")
]

-- `lang_to_name` and the look-up in it.
unfoldable pub language_to_name : Language → Result Bytes
language_to_name no_language = ok (codes "none")
language_to_name c = ok (codes "c")
language_to_name c_header = ok (codes "c-header")
language_to_name cpp_output = ok (codes "cpp-output")
language_to_name cxx = ok (codes "c++")
language_to_name cxx_header = ok (codes "c++-header")
language_to_name cxx_cpp_output = ok (codes "c++-cpp-output")
language_to_name assembler = ok (codes "assembler")
language_to_name assembler_with_cpp = ok (codes "assembler-with-cpp")
language_to_name object = err (runtime_error "unknown language")
language_to_name shared_object = err (runtime_error "unknown language")
language_to_name archive_library = err (runtime_error "unknown language")
language_to_name shared_library = err (runtime_error "unknown language")

unfoldable pub language_to_stage : Language → Result GccStage
language_to_stage c = ok preprocess
language_to_stage cxx = ok preprocess
language_to_stage c_header = ok preprocess
language_to_stage cxx_header = ok preprocess
language_to_stage assembler_with_cpp = ok preprocess
language_to_stage cpp_output = ok compile
language_to_stage cxx_cpp_output = ok compile
language_to_stage assembler = ok assemble
language_to_stage object = ok link
language_to_stage shared_object = ok link
language_to_stage no_language = err (runtime_error "unknown language")
language_to_stage archive_library = err (runtime_error "unknown language")
language_to_stage shared_library = err (runtime_error "unknown language")

unfoldable pub stage_output_name : GccStage → Bytes → Bytes
stage_output_name preprocess basename = basename ++ codes ".i"
stage_output_name compile basename = basename ++ codes ".s"
stage_output_name assemble basename = basename ++ codes ".o"
stage_output_name link basename = basename ++ codes ".out"
