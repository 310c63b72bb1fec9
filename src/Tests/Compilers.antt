-- ===== src/Tests/Compilers.antt =====
-- Examples for the model of the compiler.
use gg.Prelude.{
  err, runtime_error, arith, Bool, ◌≡◌, ◌↔◌, refl, false, List, [], ◌∷◌, ◌++◌, none, some, ok, All,
}
use gg.Text.{Bytes, codes, ◌≈◌, Lacks}
use gg.Dict.{get}
use gg.Gcc.{
  GccStage, preprocess, link, compile, cpp_output, assembler, assemble, stage_value, Language, c,
  object, language_to_stage, split_source_name, filename_to_language, name_to_language,
  language_to_name,
}
use gg.Gcc.Languages.{name_to_language_iff}
use gg.Gcc.SourceName.{split_source_name_iff}
use gg.Gcc.Options.{option_value, opt_c, opt_upper_d}
use gg.Gcc.Arguments.{input_word, GccArguments, InputFile, Event, get_last_stage}
use gg.Gcc.Parse.{gcc_arguments, no_arguments, file_language}
use gg.Gcc.Indices.{IsIndexed, gcc_arguments-IsIndexed}
use gg.Gcc.Stages.{least, gcc_arguments-last_stage}
use gg.Gcc.Generate.{run_input, Order, run_inputs, Plan, generate}
use gg.Gcc.Orders.{IsWellOrdered, run_input-IsWellOrdered}
use gg.Gcc.DefaultOutput.{run_input-default_output}
use gg.Gcc.ThunkArgs.{only_input}
use gg.Gcc.Isolate.{isolated, only_input-isolated}
use gg.Gcc.Linked.{IsLinkable, generate-IsLinkable}

-- The names of the examples have no slash.
abbrev basename : Bytes → Bytes
basename path = path

name_to_language_iff_example :
    (name_to_language (codes "c") ≡ ok c) ↔ (language_to_name c ≡ ok (codes "c"))
name_to_language_iff_example = name_to_language_iff (codes "c") c

split_source_name_iff_example :
    (split_source_name basename (codes "a.b.c") ≡ ok (codes "a.b", codes "c"))
    ↔ ((codes "a.b.c" ≡ codes "a.b" ++ b'.' ∷ codes "c") × Lacks b'.' (codes "c"))
split_source_name_iff_example =
    split_source_name_iff basename (codes "a.b.c") (codes "a.b") (codes "c")

abbrev exists : Bytes → Bool
exists path = false

-- gcc -o p -c -Dx a.c
abbrev events : List Event
events =
    record { opt = b'o'; optarg = some (codes "p") }
    ∷ record { opt = option_value opt_c; optarg = none }
    ∷ record { opt = b'D'; optarg = some (codes "x") }
    ∷ record { opt = 1; optarg = some (codes "a.c") }
    ∷ []

abbrev input : InputFile
input = record { name = codes "a.c"; language = c; source_language = c; index = 2 }

abbrev made : GccArguments
made = record {
  last_stage = some assemble;
  input_files = input ∷ [];
  opt_map = (opt_c, (0, [])) ∷ (opt_upper_d, (1, codes "x")) ∷ [];
  args = codes "-c" ∷ codes "-Dx" ∷ codes "a.c" ∷ [];
  output = codes "p";
  include_dirs = [];
  library_dirs = [];
  system_include_dirs = [];
  extra_infiles = [];
  no_stdlib = false;
  no_stdinc = false;
  no_stdincpp = false;
  no_defaultlibs = false;
  force_strip = false;
  canonical_paths = false;
  canonical_root = [];
}

gcc_arguments-IsIndexed_example : IsIndexed made
unfolding gcc_arguments filename_to_language get ◌≈◌ file_language no_arguments
gcc_arguments-IsIndexed_example =
    gcc_arguments-IsIndexed basename exists false false [] events made refl

gcc_arguments-last_stage_example : stage_value (get_last_stage made) ≡ least events
unfolding gcc_arguments filename_to_language get ◌≈◌ file_language no_arguments
gcc_arguments-last_stage_example =
    gcc_arguments-last_stage basename exists false false [] events made refl

-- The same input, which is to be linked.
abbrev to_link : GccArguments
to_link = record made { last_stage = none }

-- The input before and after each of its stages.
abbrev step : Bytes → Language → InputFile
step name l = record input { name = name; language = l }

abbrev order : GccStage → InputFile → Bytes → Order
order stage f output = record {
  first_stage = preprocess;
  stage = stage;
  input = f;
  output = output;
  write_placeholder = false;
  local = false;
}

abbrev plan : Plan
plan = record {
  orders =
      order preprocess input (codes "output_0_1")
      ∷ order compile (step (codes "output_0_1") cpp_output) (codes "output_0_2")
      ∷ order assemble (step (codes "output_0_2") assembler) (codes "output_0_3")
      ∷ [];
  link_inputs = some (step (codes "output_0_3") object ∷ [], codes "p");
}

generate-IsLinkable_example : All IsLinkable (step (codes "output_0_3") object ∷ [])
unfolding generate run_inputs language_to_stage
generate-IsLinkable_example =
    generate-IsLinkable basename false to_link plan (step (codes "output_0_3") object ∷ [])
      (codes "p") refl refl

run_input-IsWellOrdered_example : IsWellOrdered (codes "a.c") (record {
  input = step (codes "output_0_3") object;
  final_output = codes "p";
  orders = plan.orders;
})
unfolding run_input language_to_stage
run_input-IsWellOrdered_example =
    run_input-IsWellOrdered basename false link 0 input (codes "p") _ refl refl

-- The same source with -c and no -o.
run_input-default_output_example :
    run_input basename false assemble 0 (record { input = input; final_output = []; orders = [] })
    ≡ err (runtime_error "missing extension in filename: ")
unfolding language_to_stage
run_input-default_output_example =
    run_input-default_output basename (λ s h. refl) false 0
      (record { input = input; final_output = []; orders = [] }) refl refl

-- gcc a.c -c b.c, where b.c is the input of the thunk.
abbrev two_inputs : GccArguments
two_inputs = record made {
  input_files = record input { index = 0 } ∷ record input { name = codes "b.c"; index = 2 } ∷ [];
  args = codes "a.c" ∷ codes "-c" ∷ codes "b.c" ∷ [];
}

only_input-isolated_example :
    only_input
      (record input { name = codes "b.c"; index = 2 })
      two_inputs.input_files
      two_inputs.args
    ≡ ok (
        isolated
          (codes "-x" ∷ codes "c" ∷ codes "b.c" ∷ [])
          2
          0
          two_inputs.input_files
          two_inputs.args)
unfolding language_to_name IsIndexed input_word
only_input-isolated_example =
    only_input-isolated (record input { name = codes "b.c"; index = 2 }) (codes "c") refl two_inputs
      (omega arith, refl, (omega arith, refl, tt))
