-- ===== src/Gcc/Arguments.antt =====
-- src/models/gcc-args.cc: the compiler's command line. What `getopt_long_only` returns, one event for each
-- call, is a parameter, like libgen's `basename` and the file system's `exists`.
use gg.Prelude.{
  ℕ, Bool, false, ◌||◌, Option, none, some, List, [], ◌∷◌, ◌++◌, ◌==◌, if◌then◌else◌, length,
}
use gg.Text.{Bytes, codes}
use package.gg.Gcc.{GccStage, link, stage_value, Language, shared_library}
use package.gg.Gcc.Options.{GccOption, option_value, no_argument, required_argument, GccOptionData}

-- `indata` is set when the thunks are made.
pub record InputFile : Type 0 where
  pub name : Bytes
  pub language : Language
  pub source_language : Language
  pub index : ℕ

-- `canonical_root` is the canonical path of the system root.
pub record GccArguments : Type 0 where
  pub last_stage : Option GccStage
  pub input_files : List InputFile
  pub opt_map : List (GccOption × (ℕ × Bytes))
  pub args : List Bytes
  pub output : Bytes
  pub include_dirs : List Bytes
  pub library_dirs : List Bytes
  pub system_include_dirs : List Bytes
  pub extra_infiles : List (GccStage × List Bytes)
  pub no_stdlib : Bool
  pub no_stdinc : Bool
  pub no_stdincpp : Bool
  pub no_defaultlibs : Bool
  pub force_strip : Bool
  pub canonical_paths : Bool
  pub canonical_root : Bytes

-- What a call of `getopt_long_only` returns, and `optarg`.
pub record Event : Type 0 where
  pub opt : ℕ
  pub optarg : Option Bytes

-- The text of `optarg`. It is there where an option requires an argument.
unfoldable pub text : Option Bytes → Bytes
text none = []
text (some s) = s

unfoldable pub is_absolute : Bytes → Bool
is_absolute [] = false
is_absolute (x ∷ s) = x == b'/'

unfoldable pub ends_in_slash : Bytes → Bool
ends_in_slash [] = false
ends_in_slash (x ∷ []) = x == b'/'
ends_in_slash (x ∷ y ∷ s) = ends_in_slash (y ∷ s)

-- `prefix / suffix`
unfoldable pub join_path : Bytes → Bytes → Bytes
unfolding ends_in_slash is_absolute
join_path prefix suffix =
    if ends_in_slash prefix || is_absolute suffix
    then prefix ++ suffix
    else prefix ++ (b'/' ∷ suffix)

unfoldable pub normalize_pathname : Bytes → Bytes → Bytes
unfolding is_absolute join_path
normalize_pathname root path = if is_absolute path then join_path root path else path

unfoldable pub path_fn : Bytes → GccArguments → Bytes
unfolding normalize_pathname
path_fn path a = if a.canonical_paths then normalize_pathname a.canonical_root path else path

-- `last_stage()`
unfoldable pub get_last_stage : GccArguments → GccStage
get_last_stage a = elim a.last_stage [ none ↦ link | some s ↦ s ]

-- `opt_map_.count( option )`
unfoldable pub has_option : GccOption → List (GccOption × (ℕ × Bytes)) → Bool
has_option key [] = false
has_option key ((o, v) ∷ m) = option_value o == option_value key || has_option key m

-- `opt_map_.insert`, which leaves an entry that is there.
unfoldable pub insert_option :
    GccOption → ℕ × Bytes → List (GccOption × (ℕ × Bytes)) → List (GccOption × (ℕ × Bytes))
unfolding has_option
insert_option key v m = if has_option key m then m else m ++ (key, v) ∷ []

-- `option_argument`
unfoldable pub option_argument_in : GccOption → List (GccOption × (ℕ × Bytes)) → Option Bytes
option_argument_in key [] = none
option_argument_in key ((o, v) ∷ m) =
    let rest = option_argument_in key m in
    if option_value o == option_value key then some v.1 else rest

unfoldable pub option_argument : GccOption → GccArguments → Option Bytes
unfolding option_argument_in
option_argument key a = option_argument_in key a.opt_map

-- What is put on the command line for an option: the separator tells how its argument is written.
unfoldable pub option_words : Bytes → Bytes → ℕ → List Bytes
option_words optstr value arg_separator =
    if arg_separator == b'X'
    then optstr ∷ []
    else if arg_separator == b' '
    then optstr ∷ value ∷ []
    else if arg_separator == 0
    then (optstr ++ value) ∷ []
    else (optstr ++ arg_separator ∷ value) ∷ []

unfoldable pub add_option : GccOption → Bytes → Bytes → ℕ → Bool → GccArguments → GccArguments
unfolding option_words insert_option
add_option key optstr value arg_separator double_dash a =
    let actual_optstr = (if double_dash then codes "--" else codes "-") ++ optstr in
    record a {
      args = a.args ++ option_words actual_optstr value arg_separator;
      opt_map = insert_option key (length a.args, value) a.opt_map;
    }

unfoldable pub add_option_data : GccOptionData → Option Bytes → GccArguments → GccArguments
unfolding add_option text
add_option_data d optarg a =
    let arg_separator : ℕ = elim d.has_arg [
      | no_argument ↦ b'X'
      | required_argument ↦ d.arg_separator
    ] in
    add_option d.option d.option_str (text optarg) arg_separator d.double_dash a

-- How an input stands on the command line.
unfoldable pub input_word : Bytes → Language → Bytes
input_word filename shared_library = codes "-l" ++ filename
input_word filename _ = filename

unfoldable pub add_input : Bytes → Language → GccArguments → GccArguments
unfolding input_word
add_input filename language a = record a {
  args = a.args ++ input_word filename language ∷ [];
  input_files =
      a.input_files
      ++ record {
        name = filename;
        language = language;
        source_language = language;
        index = length a.args;
      }
        ∷ [];
}

unfoldable pub push_arg : Bytes → GccArguments → GccArguments
push_arg word a = record a { args = a.args ++ word ∷ [] }

-- `extra_infiles_[ stage ].emplace_back( file )`
unfoldable pub put_extra :
    GccStage → Bytes → List (GccStage × List Bytes) → List (GccStage × List Bytes)
unfolding stage_value
put_extra stage file [] = (stage, file ∷ []) ∷ []
put_extra stage file ((s, files) ∷ m) =
    let rest = put_extra stage file m in
    if stage_value s == stage_value stage then (s, files ++ file ∷ []) ∷ m else (s, files) ∷ rest

unfoldable pub add_extra : GccStage → Bytes → GccArguments → GccArguments
unfolding put_extra
add_extra stage file a = record a { extra_infiles = put_extra stage file a.extra_infiles }

unfoldable pub extra_infiles_of : GccStage → List (GccStage × List Bytes) → List Bytes
unfolding stage_value
extra_infiles_of stage [] = []
extra_infiles_of stage ((s, files) ∷ m) =
    let rest = extra_infiles_of stage m in
    if stage_value s == stage_value stage then files else rest
