-- ===== src/Gcc/Linked.antt =====
-- What the linker gets.
use gg.Prelude.{
  ℕ, zero, suc, ◌+◌, ◌-◌, ◌≤◌, ◌≡◌, refl, ap, sym, subst, ◌∙◌, Bool, true, false, ◌&&◌, not, Option,
  none, some, List, [], ◌∷◌, arith, ltb, is_empty, All, ok, ◌>>=◌, >>=-Returns, >>=-Returns_any,
  Returns, Returns-elim, either,
}
use gg.Text.{Bytes}
use package.gg.Gcc.{
  no_language, shared_object, archive_library, shared_library, GccStage, preprocess, compile,
  assemble, link, stage_value, Language, object, language_to_stage,
}
use package.gg.Gcc.Arguments.{InputFile, GccArguments, get_last_stage}
use package.gg.Gcc.Generate.{
  planned, Order, Way, Plan, is_non_object_input, same_stage, stage_at, is_assembler_with_cpp,
  next_language, run_stage, run_stages, input_last_stage, run_input, run_inputs, generate,
  source_inputs,
}

-- The input is not a source.
abbrev pub IsLinkable : InputFile → Type 0
IsLinkable f = is_non_object_input f.language ≡ false

-- The first stage of a source comes before the linker.
source_stage :
    (l : Language)
    → is_non_object_input l ≡ true
    → Returns (λ s. stage_value s ≤ 3) (language_to_stage l)
unfolding is_non_object_input language_to_stage stage_value
source_stage object h = cc
source_stage archive_library h = cc
source_stage shared_object h = cc
source_stage shared_library h = cc
source_stage no_language h = tt
source_stage _ h = omega arith

abbrev Ran : Type 0
Ran = List InputFile × (Bytes × List Order)

abbrev inputs_or : List InputFile → Option (List InputFile × Bytes) → List InputFile
inputs_or fs none = fs
inputs_or fs (some l) = l.0

abbrev LinksObjects : Plan → Type 0
LinksObjects plan =
    (fs : List InputFile) (output : Bytes)
    → plan.link_inputs ≡ some (fs, output)
    → All IsLinkable fs

none-ne-some : {A : Type 0} (x : A) → ¬ (none ≡ some x)
none-ne-some x h = cc

module _ (basename : Bytes → Bytes) (preprocess_locally : Bool) where
  run_stage_last :
      (input_index : ℕ) (first_stage : GccStage) (w : Way)
      → Returns
          (λ (w' : Way). IsLinkable w'.input)
          (run_stage basename preprocess_locally link input_index first_stage 3 w)
  unfolding run_stage next_language stage_at is_non_object_input
  run_stage_last input_index first_stage w = refl

  skipped_last :
      (l : Language) → ¬ ((is_assembler_with_cpp l && same_stage (stage_at 3) compile) ≡ true)
  unfolding same_stage stage_at stage_value
  skipped_last l h = ground arith

  run_stages-IsLinkable :
      (input_index left : ℕ) (first_stage : GccStage) (n : ℕ) (w : Way)
      → n + suc left ≡ 4
      → Returns
          (λ (w' : Way). IsLinkable w'.input)
          (run_stages basename preprocess_locally link input_index (suc left) first_stage n w)
  unfolding run_stages
  run_stages-IsLinkable input_index zero first_stage n w h =
      subst
        (λ (m : ℕ).
          Returns (λ (w' : Way). IsLinkable w'.input)
            (run_stages basename preprocess_locally link input_index 1 first_stage m w))
        (let three : 3 ≡ n = omega arith in three)
        (>>=-Returns (λ (w' : Way). IsLinkable w'.input) (λ (w' : Way). IsLinkable w'.input) _ _
          (either (Returns (λ (w' : Way). IsLinkable w'.input))
            (is_assembler_with_cpp w.input.source_language && same_stage (stage_at 3) compile)
            (λ y. absurd (skipped_last w.input.source_language y))
            (λ n'. run_stage_last input_index first_stage w))
          (λ w' k. k))
  run_stages-IsLinkable input_index (suc left) first_stage n w h =
      >>=-Returns_any (λ (w' : Way). IsLinkable w'.input) _ _
        (λ w'. run_stages-IsLinkable input_index left first_stage (n + 1) w' (omega arith))

  from_stage :
      (input_index : ℕ) (s : GccStage) (w : Way)
      → stage_value s ≤ 3
      → Returns
          (λ (w' : Way). IsLinkable w'.input)
          (run_stages basename preprocess_locally link input_index
            (4 - stage_value s)
            s
            (stage_value s)
            w)
  unfolding stage_value
  from_stage input_index preprocess w h = run_stages-IsLinkable input_index 2 preprocess 1 w refl
  from_stage input_index compile w h = run_stages-IsLinkable input_index 1 compile 2 w refl
  from_stage input_index assemble w h = run_stages-IsLinkable input_index 0 assemble 3 w refl
  from_stage input_index link w h = absurd (omega arith)

  run_input-IsLinkable :
      (input_index : ℕ) (w : Way)
      → Returns
          (λ (w' : Way). IsLinkable w'.input)
          (run_input basename preprocess_locally link input_index w)
  unfolding run_input input_last_stage same_stage stage_value
  run_input-IsLinkable input_index w =
      either (Returns (λ (w' : Way). IsLinkable w'.input)) (is_non_object_input w.input.language)
        (λ y.
          >>=-Returns (λ s. stage_value s ≤ 3) (λ (w' : Way). IsLinkable w'.input)
            (language_to_stage w.input.language) _ (source_stage w.input.language y)
            (λ s k. from_stage input_index s w k))
        (λ n. n)

  run_inputs-IsLinkable :
      (input_index : ℕ) (fs : List InputFile) (final_output : Bytes) (orders : List Order)
      → Returns
          (λ (r : Ran). All IsLinkable r.0)
          (run_inputs basename preprocess_locally link input_index fs final_output orders)
  unfolding run_inputs
  run_inputs-IsLinkable input_index [] final_output orders = tt
  run_inputs-IsLinkable input_index (f ∷ fs) final_output orders =
      >>=-Returns (λ (w : Way). IsLinkable w.input) (λ (r : Ran). All IsLinkable r.0)
        (run_input basename preprocess_locally link input_index
          (record { input = f; final_output = final_output; orders = orders }))
        (λ w.
          run_inputs basename preprocess_locally link (input_index + 1) fs w.final_output w.orders
          >>= λ (rest : Ran). ok (w.input ∷ rest.0, rest.1))
        (run_input-IsLinkable input_index _)
        (λ w k.
          >>=-Returns (λ (r : Ran). All IsLinkable r.0) (λ (r : Ran). All IsLinkable r.0)
            (run_inputs basename preprocess_locally link (input_index + 1) fs w.final_output
              w.orders)
            (λ (rest : Ran). ok (w.input ∷ rest.0, rest.1))
            (run_inputs-IsLinkable (input_index + 1) fs w.final_output w.orders) (λ r ks. (k, ks)))

  unlinked :
      (s : GccStage) (a : GccArguments)
      → ((r : Ran) → (planned s r).link_inputs ≡ none)
      → Returns LinksObjects (
          run_inputs basename preprocess_locally s 0 a.input_files a.output [] >>= λ (r : Ran).
          ok (planned s r))
  unlinked s a k =
      >>=-Returns_any LinksObjects
        (run_inputs basename preprocess_locally s 0 a.input_files a.output [])
        (λ (r : Ran). ok (planned s r))
        (λ r fs output h. absurd (none-ne-some (fs, output) (sym (k r) ∙ h)))

  planned-IsLinkable :
      (s : GccStage) (a : GccArguments)
      → Returns LinksObjects (
          run_inputs basename preprocess_locally s 0 a.input_files a.output [] >>= λ (r : Ran).
          ok (planned s r))
  unfolding same_stage stage_value planned
  planned-IsLinkable preprocess a = unlinked preprocess a (λ r. refl)
  planned-IsLinkable compile a = unlinked compile a (λ r. refl)
  planned-IsLinkable assemble a = unlinked assemble a (λ r. refl)
  planned-IsLinkable link a =
      >>=-Returns (λ (r : Ran). All IsLinkable r.0) LinksObjects
        (run_inputs basename preprocess_locally link 0 a.input_files a.output [])
        (λ (r : Ran). ok (planned link r)) (run_inputs-IsLinkable 0 a.input_files a.output [])
        (λ r k fs output h.
          subst (All IsLinkable) (ap (λ (o : Option (List InputFile × Bytes)). inputs_or r.0 o) h)
            k)

  -- Where the plan is to link, each input of the linker is an object, a library or an archive: every
  -- source has been taken through its stages.
  pub generate-IsLinkable :
      (a : GccArguments) (plan : Plan) (fs : List InputFile) (output : Bytes)
      → generate basename preprocess_locally a ≡ ok plan
      → plan.link_inputs ≡ some (fs, output)
      → All IsLinkable fs
  unfolding generate
  generate-IsLinkable a plan fs output e h =
      Returns-elim LinksObjects (generate basename preprocess_locally a) plan
        (either (Returns LinksObjects)
          (ltb 1 (source_inputs a.input_files) && not (is_empty a.output)) (λ y. tt)
          (λ n. planned-IsLinkable (get_last_stage a) a))
        e fs output h
