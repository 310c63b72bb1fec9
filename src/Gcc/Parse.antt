-- ===== src/Gcc/Parse.antt =====
-- src/models/gcc-args.cc: the loop over the compiler's command line.
use gg.Prelude.{
  ℕ, Bool, true, false, ◌&&◌, not, Option, none, some, List, [], ◌∷◌, ◌++◌, ◌==◌, leb,
  if◌then◌else◌, drop, Result, ok, err, runtime_error, out_of_range, ◌>>=◌,
}
use gg.Text.{Bytes, codes, ◌≈◌, starts_with}
use package.gg.Gcc.{
  GccStage, preprocess, compile, assemble, stage_value, Language, no_language, c, shared_library,
  filename_to_language, name_to_language,
}
use package.gg.Gcc.Options.{
  GccOption, opt_upper_d, opt_upper_e, opt_f, opt_g, opt_g1, opt_c, opt_isystem, opt_upper_md,
  opt_upper_mmd, opt_nodefaultlibs, opt_nostdinc, opt_nostdincpp, opt_nostdlib, opt_upper_o,
  opt_upper_s, opt_upper_u, opt_x, option_value, gcc_options, find_option,
}
use package.gg.Gcc.Arguments.{
  GccArguments, Event, text, path_fn, add_option, add_option_data, add_input, push_arg,
}
use package.gg.Gcc.WOption.{process_w_option}

unfoldable pub is_preprocess : Option GccStage → Bool
is_preprocess (some preprocess) = true
is_preprocess _ = false

-- The language that an input has: that of -x, or that of its name; the standard input has one only
-- where there is nothing to do but to preprocess.
unfoldable pub file_language :
    (Bytes → Bytes) → Bytes → Option GccStage → Language → Result Language
unfolding filename_to_language
file_language basename input_file last_stage no_language =
    if input_file ≈ codes "-" && is_preprocess last_stage
    then ok c
    else filename_to_language basename input_file
file_language basename input_file last_stage l = ok l

-- The members' initial values.
unfoldable pub no_arguments : Bool → Bool → Bytes → GccArguments
no_arguments force_strip canonical_paths canonical_root = record {
  last_stage = none;
  input_files = [];
  opt_map = [];
  args = [];
  output = [];
  include_dirs = [];
  library_dirs = [];
  system_include_dirs = [];
  extra_infiles = [];
  no_stdlib = false;
  no_stdinc = false;
  no_stdincpp = false;
  no_defaultlibs = false;
  force_strip = force_strip;
  canonical_paths = canonical_paths;
  canonical_root = canonical_root;
}

-- What an event does to the arguments and to the language of the inputs that come.
abbrev pub Parse : Type 0
Parse = GccArguments × Language

-- An argument that is not an option.
unfoldable pub process_input :
    (Bytes → Bytes) → Bytes → GccArguments → Language → Result GccArguments
unfolding path_fn add_input
process_input basename arg a current_language =
    let input_file = path_fn arg a in
    do
      file_lang ← file_language basename input_file a.last_stage current_language
      ok (add_input input_file file_lang a)

-- The first switch, over the options of one letter; `none` where the flag is not processed.
unfoldable pub process_letter :
    (Bytes → Bool) → ℕ → Option Bytes → GccArguments → Option (Result GccArguments)
unfolding text path_fn add_input add_option process_w_option push_arg
process_letter exists opt optarg a =
    if opt == b'l'
    then some (ok (add_input (text optarg) shared_library a))
    else if opt == b'i'
    then (if starts_with (codes "system") (text optarg)
        then (let optarg_str = path_fn (drop 6 (text optarg)) a in
            some (
              ok (record (push_arg (codes "-isystem" ++ optarg_str) a) {
                system_include_dirs = a.system_include_dirs ++ optarg_str ∷ [];
              })))
        else none)
    else if opt == b'o'
    then some (ok (record a { output = text optarg }))
    else if opt == b'I'
    then (let optarg_str = path_fn (text optarg) a in
        some (
          ok (record (push_arg (codes "-I" ++ optarg_str) a) {
            include_dirs = a.include_dirs ++ optarg_str ∷ [];
          })))
    else if opt == b'L'
    then (let optarg_str = path_fn (text optarg) a in
        some (
          ok (record (push_arg (codes "-L" ++ optarg_str) a) {
            library_dirs = a.library_dirs ++ optarg_str ∷ [];
          })))
    else if opt == b'g'
    then some (ok (if a.force_strip then a else add_option opt_g (codes "g") [] b'X' false a))
    else if opt == b'O'
    then some (ok (add_option opt_upper_o (codes "O") (text optarg) 0 false a))
    else if opt == b'D'
    then some (ok (add_option opt_upper_d (codes "D") (text optarg) 0 false a))
    else if opt == b'U'
    then some (ok (add_option opt_upper_u (codes "U") (text optarg) 0 false a))
    else if opt == b'f'
    then some (ok (add_option opt_f (codes "f") (text optarg) 0 false a))
    else if opt == b'W'
    then some (process_w_option exists (text optarg) a)
    else if opt == b'B'
    then some (err (runtime_error "illegal -B flag"))
    else none

-- A stage is the last one, unless one before it has been asked for.
unfoldable pub at_most : GccStage → Option GccStage → Option GccStage
unfolding stage_value
at_most stage none = some stage
at_most stage (some s) = some (if leb (stage_value stage) (stage_value s) then stage else s)

-- The second switch; whether the option is put on the command line, too.
unfoldable pub process_long :
    GccOption → Option Bytes → GccArguments → Language → Result (Parse × Bool)
unfolding add_option_data find_option at_most name_to_language text path_fn push_arg
process_long opt_upper_mmd optarg a l = elim (find_option (option_value opt_upper_md) gcc_options) [
  | none ↦ err (out_of_range "at")
  | some d ↦ ok ((add_option_data d optarg a, l), false)
]
process_long opt_upper_e optarg a l = ok ((record a { last_stage = some preprocess }, l), true)
process_long opt_upper_s optarg a l =
    ok ((record a { last_stage = at_most compile a.last_stage }, l), true)
process_long opt_c optarg a l =
    ok ((record a { last_stage = at_most assemble a.last_stage }, l), true)
process_long opt_x optarg a l = do named ← name_to_language (text optarg); ok ((a, named), false)
process_long opt_isystem optarg a l =
    let optarg_str = path_fn (text optarg) a in
    ok (
      (
        record (push_arg (codes "-isystem" ++ optarg_str) a) {
          system_include_dirs = a.system_include_dirs ++ optarg_str ∷ [];
        },
        l,
      ),
      false,
    )
process_long opt_nostdlib optarg a l = ok ((record a { no_stdlib = true }, l), true)
process_long opt_nostdinc optarg a l = ok ((record a { no_stdinc = true }, l), true)
process_long opt_nostdincpp optarg a l = ok ((record a { no_stdincpp = true }, l), true)
process_long opt_nodefaultlibs optarg a l = ok ((record a { no_defaultlibs = true }, l), true)
process_long opt_g1 optarg a l = ok ((a, l), not a.force_strip)
process_long _ optarg a l = ok ((a, l), true)

-- An option that the first switch leaves; each option that the second one names is in the table.
unfoldable pub process_option : ℕ → Option Bytes → GccArguments → Language → Result Parse
unfolding find_option process_long add_option_data
process_option opt optarg a l = elim (find_option opt gcc_options) [
  | none ↦ err (runtime_error "unknown gcc flag: ")
  | some d ↦ do
    r ← process_long d.option optarg a l
    ok (if r.1 then (add_option_data d optarg r.0.0, r.0.1) else r.0)
]

module _ (basename : Bytes → Bytes) (exists : Bytes → Bool) where
  -- The body of the loop.
  unfoldable pub process_event : Event → GccArguments → Language → Result Parse
  unfolding process_input process_letter process_option text
  process_event e a l =
      if e.opt == 1
      then (do b ← process_input basename (text e.optarg) a l; ok (b, l))
      else elim (process_letter exists e.opt e.optarg a) [
        | none ↦ process_option e.opt e.optarg a l
        | some r ↦ do b ← r; ok (b, l)
      ]

  unfoldable pub process_events : List Event → GccArguments → Language → Result Parse
  unfolding process_event
  process_events [] a l = ok (a, l)
  process_events (e ∷ es) a l = do r ← process_event e a l; process_events es r.0 r.1

  -- The constructor, given what `getopt_long_only` returns for the arguments.
  unfoldable pub gcc_arguments : Bool → Bool → Bytes → List Event → Result GccArguments
  unfolding process_events
  gcc_arguments force_strip canonical_paths canonical_root events = do
    r ← process_events events (no_arguments force_strip canonical_paths canonical_root) no_language
    ok r.0
