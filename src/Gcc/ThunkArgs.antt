-- ===== src/Gcc/ThunkArgs.antt =====
-- src/models/gcc.cc: the command line of the thunk for one input and one stage.
use gg.Prelude.{
  ℕ, zero, suc, Bool, true, false, ◌||◌, ◌&&◌, not, List, [], ◌∷◌, ◌++◌, ◌==◌, if◌then◌else◌,
  Result, ok, ◌>>=◌,
}
use gg.Text.{Bytes, codes, ◌≈◌}
use package.gg.Gcc.{GccStage, assemble, language_to_name}
use package.gg.Gcc.Options.{opt_g, opt_g0, opt_g1, opt_gdwarf_4}
use package.gg.Gcc.Arguments.{InputFile, GccArguments, has_option}
use package.gg.Gcc.Generate.{same_stage}

-- `args.erase( args.begin() + index )`
unfoldable pub erase_at : ℕ → List Bytes → List Bytes
erase_at index [] = []
erase_at zero (w ∷ ws) = ws
erase_at (suc index) (w ∷ ws) = w ∷ erase_at index ws

-- The word at the index gives way to the others.
unfoldable pub put_at : ℕ → List Bytes → List Bytes → List Bytes
put_at index words [] = []
put_at zero words (w ∷ ws) = words ++ ws
put_at (suc index) words (w ∷ ws) = w ∷ put_at index words ws

-- The body of the loop over the inputs: the input of the thunk gets its name and its language, any
-- other one goes.
unfoldable pub put_input : InputFile → InputFile → List Bytes → Result (List Bytes)
unfolding erase_at put_at
put_input input f args = if not (f.index == input.index) then ok (erase_at f.index args) else (do
  language ← language_to_name input.language
  ok (put_at input.index (codes "-x" ∷ language ∷ input.name ∷ []) args))

-- The loop, which starts at the last input.
unfoldable pub only_input : InputFile → List InputFile → List Bytes → Result (List Bytes)
unfolding put_input
only_input input [] args = ok args
only_input input (f ∷ fs) args = do later ← only_input input fs args; put_input input f later

unfoldable pub is_one_of : Bytes → List Bytes → Bool
is_one_of s [] = false
is_one_of s (w ∷ ws) = s ≈ w || is_one_of s ws

-- `args.erase( remove_if( … ), args.end() )`, for the words that are listed.
unfoldable pub remove_words : List Bytes → List Bytes → List Bytes
unfolding is_one_of
remove_words words [] = []
remove_words words (s ∷ args) =
    let rest = remove_words words args in if is_one_of s words then rest else s ∷ rest

-- `skip` where the flag before takes this word as its value.
unfoldable pub prune_flags : Bool → List Bytes → List Bytes
unfolding is_one_of
prune_flags skip [] = []
prune_flags true (s ∷ args) = prune_flags false args
prune_flags false (s ∷ args) =
    let rest = prune_flags false args in
    let rest_after_value = prune_flags true args in
    if is_one_of s (codes "-M" ∷ codes "-MD" ∷ codes "-MP" ∷ [])
    then rest
    else if is_one_of s (codes "-MF" ∷ codes "-MT" ∷ [])
    then rest_after_value
    else s ∷ rest

unfoldable pub prune_makedep_flags : List Bytes → List Bytes
unfolding prune_flags
prune_makedep_flags args = prune_flags false args

-- What all stages after the first have in common; `gcc` is the compiler's file name.
unfoldable pub base_args : Bytes → GccArguments → InputFile → Bytes → Result (List Bytes)
unfolding only_input remove_words
base_args gcc a input output = do
  args ← only_input input a.input_files a.args
  ok (
      (gcc ∷ codes "-specs=/__gg__/gcc-specs" ∷ [])
      ++ (remove_words (codes "-E" ∷ codes "-S" ∷ codes "-c" ∷ []) args
          ++ (codes "-o" ∷ output ∷ [])))

unfoldable pub compile_args : Bytes → GccArguments → InputFile → Bytes → Result (List Bytes)
unfolding base_args prune_makedep_flags
compile_args gcc a input output = do
  args ← base_args gcc a input output
  ok (
      prune_makedep_flags (
        args
        ++ (codes "-S"
            ∷ (codes "-frandom-seed=__GG_BEGIN_REPLACE__"
                ++ (input.name ++ codes "__GG_END_REPLACE__"))
            ∷ [])))

-- The debugging flags are for the stages before, if there were any.
unfoldable pub assemble_args :
    Bytes → GccArguments → GccStage → InputFile → Bytes → Result (List Bytes)
unfolding base_args prune_makedep_flags remove_words has_option same_stage
assemble_args gcc a first_stage input output = do
  args ← base_args gcc a input output
  ok (
      let undebugged =
        if not (same_stage first_stage assemble)
          && (has_option opt_gdwarf_4 a.opt_map
              || (has_option opt_g a.opt_map
                  || (has_option opt_g0 a.opt_map || has_option opt_g1 a.opt_map)))
        then remove_words (codes "-gdwarf-4" ∷ codes "-g" ∷ codes "-g0" ∷ codes "-g1" ∷ []) args
        else args in
      prune_makedep_flags (undebugged ++ codes "-c" ∷ []))
