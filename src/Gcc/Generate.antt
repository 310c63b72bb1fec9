-- ===== src/Gcc/Generate.antt =====
-- src/models/gcc.cc: `generate`, which takes each source through its stages and then links. The thunks
-- that it makes, and the files that it preprocesses, are the orders that it gives, in their order;
-- what is in an order is made elsewhere.
use gg.Prelude.{
  ℕ, zero, suc, ◌+◌, ◌-◌, ◌/◌, ◌%◌, Bool, true, false, ◌&&◌, not, Option, none, some, List, [], ◌∷◌,
  ◌++◌, ◌==◌, ltb, if◌then◌else◌, is_empty, Result, ok, err, runtime_error, ◌>>=◌,
}
use gg.Text.{Bytes, codes}
use package.gg.Gcc.{
  GccStage, preprocess, compile, assemble, link, stage_value, Language, c, c_header, cpp_output,
  cxx, cxx_header, cxx_cpp_output, assembler, assembler_with_cpp, object, shared_object,
  archive_library, shared_library, language_to_stage, stage_output_name, split_source_name,
}
use package.gg.Gcc.Arguments.{InputFile, GccArguments, get_last_stage}

-- What is asked of `generate_thunk`, or of `do_preprocessing` where `local` holds.
pub record Order : Type 0 where
  pub first_stage : GccStage
  pub stage : GccStage
  pub input : InputFile
  pub output : Bytes
  pub write_placeholder : Bool
  pub local : Bool

-- An input on its way: how it is called and what it is now, the name of the final output, and the
-- orders so far.
pub record Way : Type 0 where
  pub input : InputFile
  pub final_output : Bytes
  pub orders : List Order

unfoldable pub is_non_object_input : Language → Bool
is_non_object_input shared_library = false
is_non_object_input archive_library = false
is_non_object_input object = false
is_non_object_input shared_object = false
is_non_object_input _ = true

-- `count_if` over the inputs.
unfoldable pub source_inputs : List InputFile → ℕ
unfolding is_non_object_input
source_inputs [] = 0
source_inputs (f ∷ fs) =
    let rest = source_inputs fs in if is_non_object_input f.language then suc rest else rest

-- `to_string`, on fuel: a number has no more digits than it has units.
unfoldable pub digits : ℕ → ℕ → Bytes
digits zero n = []
digits (suc fuel) n =
    let front = digits fuel (n / 10) in
    if ltb n 10 then (b'0' + n) ∷ [] else front ++ (b'0' + n % 10) ∷ []

unfoldable pub to_string : ℕ → Bytes
unfolding digits
to_string n = digits (suc n) n

unfoldable pub same_stage : GccStage → GccStage → Bool
unfolding stage_value
same_stage s t = stage_value s == stage_value t

-- `static_cast<GCCStage>`
unfoldable pub stage_at : ℕ → GccStage
stage_at n =
    if n == 1 then preprocess else if n == 2 then compile else if n == 3 then assemble else link

unfoldable pub is_assembler_with_cpp : Language → Bool
is_assembler_with_cpp assembler_with_cpp = true
is_assembler_with_cpp _ = false

-- What an input is after a stage.
unfoldable pub next_language : GccStage → Language → Result Language
next_language preprocess c = ok cpp_output
next_language preprocess c_header = ok cpp_output
next_language preprocess cxx_header = ok cxx_cpp_output
next_language preprocess cxx = ok cxx_cpp_output
next_language preprocess assembler_with_cpp = ok assembler
next_language preprocess _ = err (runtime_error "invalid preprocessing language")
next_language compile _ = ok assembler
next_language assemble _ = ok object
next_language link _ = err (runtime_error "unexpected stage")

-- The default name of the last stage's output.
unfoldable pub default_output : (Bytes → Bytes) → GccStage → Bytes → Result Bytes
unfolding split_source_name stage_output_name
default_output basename preprocess name =
    err (runtime_error "gcc model cannot preprocess to stdout")
default_output basename link name = err (runtime_error "internal error")
default_output basename stage name = do
  split ← split_source_name basename name
  ok (stage_output_name stage split.0)

-- `"output_" + to_string( input_index ) + "_" + to_string( stage_num )`
unfoldable pub step_output : ℕ → ℕ → Bytes
unfolding to_string
step_output input_index stage_num =
    codes "output_" ++ (to_string input_index ++ (codes "_" ++ to_string stage_num))

module _ (basename : Bytes → Bytes) (preprocess_locally : Bool) (last_stage : GccStage) where
  -- The name of a stage's output, and that of the final output, which the last stage sets.
  unfoldable pub output_name : ℕ → ℕ → GccStage → Bytes → Bytes → Result (Bytes × Bytes)
  unfolding default_output step_output same_stage
  output_name input_index stage_num stage name final_output =
      if same_stage stage last_stage
      then (if is_empty final_output
          then (do final ← default_output basename stage name; ok (final, final))
          else ok (final_output, final_output))
      else ok (step_output input_index stage_num, final_output)

  -- The body of the loop over the stages, for one that is not skipped.
  unfoldable pub run_stage : ℕ → GccStage → ℕ → Way → Result Way
  unfolding output_name next_language same_stage stage_at
  run_stage input_index first_stage stage_num w =
      let stage = stage_at stage_num in
      do
        names ← output_name input_index stage_num stage w.input.name w.final_output
        language ← next_language stage w.input.language
        ok (record {
          input = record w.input { name = names.0; language = language };
          final_output = names.1;
          orders =
              w.orders
              ++ record {
                first_stage = first_stage;
                stage = stage;
                input = w.input;
                output = names.0;
                write_placeholder = same_stage stage last_stage;
                local =
                    preprocess_locally
                    && (same_stage stage preprocess && not (same_stage stage last_stage));
              }
                ∷ [];
        })

  -- The loop, given how many stages are left.
  unfoldable pub run_stages : ℕ → ℕ → GccStage → ℕ → Way → Result Way
  unfolding run_stage is_assembler_with_cpp same_stage stage_at
  run_stages input_index zero first_stage stage_num w = ok w
  run_stages input_index (suc left) first_stage stage_num w = do
    w' ←
        (if is_assembler_with_cpp w.input.source_language && same_stage (stage_at stage_num) compile
          then ok w
          else run_stage input_index first_stage stage_num w)
    run_stages input_index left first_stage (stage_num + 1) w'

  -- The last stage of an input.
  unfoldable pub input_last_stage : GccStage
  unfolding same_stage
  input_last_stage = if same_stage last_stage link then assemble else last_stage

  -- A source goes through its stages; another input is left alone.
  unfoldable pub run_input : ℕ → Way → Result Way
  unfolding is_non_object_input run_stages input_last_stage stage_value
  run_input input_index w =
      if is_non_object_input w.input.language
      then (do
        first_stage ← language_to_stage w.input.language
        run_stages input_index (suc (stage_value input_last_stage) - stage_value first_stage)
            first_stage (stage_value first_stage) w)
      else ok w

  -- The loop over the inputs: what has become of them, the final output and the orders.
  unfoldable pub run_inputs :
      ℕ → List InputFile → Bytes → List Order → Result (List InputFile × (Bytes × List Order))
  unfolding run_input
  run_inputs input_index [] final_output orders = ok ([], (final_output, orders))
  run_inputs input_index (f ∷ fs) final_output orders = do
    w ← run_input input_index (record { input = f; final_output = final_output; orders = orders })
    rest ← run_inputs (input_index + 1) fs w.final_output w.orders
    ok (w.input ∷ rest.0, rest.1)

-- What is asked for: the stages' orders, and the inputs and the output of the linker.
pub record Plan : Type 0 where
  pub orders : List Order
  pub link_inputs : Option (List InputFile × Bytes)

unfoldable pub planned : GccStage → List InputFile × (Bytes × List Order) → Plan
unfolding same_stage
planned last_stage r = record {
  orders = r.1.1;
  link_inputs =
      if same_stage last_stage link
      then some (r.0, if is_empty r.1.0 then codes "a.out" else r.1.0)
      else none;
}

unfoldable pub generate : (Bytes → Bytes) → Bool → GccArguments → Result Plan
unfolding source_inputs run_inputs get_last_stage planned
generate basename preprocess_locally a =
    if ltb 1 (source_inputs a.input_files) && not (is_empty a.output)
    then err (runtime_error "cannot specify -o with -c, -S or -E with multiple files")
    else (do
      r ← run_inputs basename preprocess_locally (get_last_stage a) 0 a.input_files a.output []
      ok (planned (get_last_stage a) r))
