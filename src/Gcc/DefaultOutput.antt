-- ===== src/Gcc/DefaultOutput.antt =====
-- What becomes of -c without -o: the default name of the output is made from what the stage before has
-- made, which has no extension.
use gg.Prelude.{
  ℕ, zero, suc, ◌-◌, ◌/◌, ◌<◌, ◌≡◌, ◌≢◌, refl, ap, sym, subst, ◌∙◌, Bool, true, false, ◌&&◌, none,
  [], ◌∷◌, arith, ltb, leb, if◌then◌else◌, All-append, Result, ok, err, Error, runtime_error, ◌>>=◌,
  either,
}
use gg.Text.{Bytes, codes, Lacks}
use package.gg.Gcc.{
  c, cxx, c_header, cxx_header, assembler_with_cpp, object, shared_object, archive_library,
  shared_library, GccStage, preprocess, compile, assemble, stage_value, Language, language_to_stage,
  find_last_of, split_source_name,
}
use package.gg.Gcc.SourceName.{find_last_of-none}
use package.gg.Gcc.Generate.{
  Way, digits, to_string, is_non_object_input, same_stage, stage_at, is_assembler_with_cpp,
  next_language, output_name, run_stage, run_stages, input_last_stage, run_input, step_output,
  default_output,
}

digits-Lacks : (x fuel n : ℕ) → x < 48 → Lacks x (digits fuel n)
unfolding digits
digits-Lacks x zero n h = tt
digits-Lacks x (suc fuel) n h =
    either (Lacks x) (ltb n 10) (λ y. (λ e. omega (arith, e), tt))
      (λ k.
        All-append (λ y. y ≢ x) (digits fuel (n / 10)) _ (digits-Lacks x fuel (n / 10) h)
          (λ e. omega (arith, e), tt))

-- The names that the stages before the last one give to what they make.
Plain : Bytes → Type 0
Plain name = Lacks b'/' name × Lacks b'.' name

-- No byte is below the digits.
high : Bytes → Bool
high [] = true
high (x ∷ s) = leb 48 x && high s

Lacks-high : (x : ℕ) (s : Bytes) → x < 48 → high s ≡ true → Lacks x s
unfolding high
Lacks-high x [] h k = tt
Lacks-high x (y ∷ s) h k = ground (arith, Lacks-high x s h)

step_output-Lacks : (x i n : ℕ) → x < 48 → Lacks x (step_output i n)
unfolding step_output to_string high
step_output-Lacks x i n h =
    All-append (λ y. y ≢ x) (codes "output_") _ (Lacks-high x (codes "output_") h refl)
      (All-append (λ y. y ≢ x) (digits (suc i) i) _ (digits-Lacks x (suc i) i h)
        (All-append (λ y. y ≢ x) (codes "_") _ (Lacks-high x (codes "_") h refl)
          (digits-Lacks x (suc n) n h)))

-- An input that a stage has made, with no final output yet.
Made : Way → Type 0
Made w = Plain w.input.name × (w.final_output ≡ [])

cons-ne-nil : (x : ℕ) (s : Bytes) → ¬ (x ∷ s ≡ [])
cons-ne-nil x s e = cc

skipped_last : (b : Bool) → ¬ ((b && false) ≡ true)
skipped_last b h = ground arith

preprocessed_source :
    (l : Language) → language_to_stage l ≡ ok preprocess → ¬ (is_non_object_input l ≡ false)
unfolding language_to_stage is_non_object_input
preprocessed_source object q n = cc
preprocessed_source shared_object q n = cc
preprocessed_source archive_library q n = cc
preprocessed_source shared_library q n = cc
preprocessed_source _ q n = cc

-- A result that is there, with the property.
Yields : {A : Type 0} → (A → Type 0) → Result A → Type 0
Yields P (ok a) = P a
Yields P (err x) = ⊥

Yields-then :
    {A B : Type 0} (P : A → Type 0) (Q : Result B → Type 0) (r : Result A) (step : A → Result B)
    → Yields P r
    → ((a : A) → P a → Q (step a))
    → Q (r >>= step)
unfolding Yields
Yields-then P Q (ok a) step h k = k a h
Yields-then P Q (err x) step h k = absurd h

abbrev pub missing_extension : Error
missing_extension = runtime_error "missing extension in filename: "

-- No name for the output can be made.
Misses : {A : Type 0} → Result A → Type 0
Misses r = r ≡ err missing_extension

Misses-then : {A B : Type 0} (r : Result A) (step : A → Result B) → Misses r → Misses (r >>= step)
unfolding Misses
Misses-then r step h = rw h refl

HasNext : GccStage → Language → Type 0
HasNext stage l = Yields (λ (m : Language). Unit {0}) (next_language stage l)

preprocess-HasNext : (l : Language) → language_to_stage l ≡ ok preprocess → HasNext preprocess l
unfolding language_to_stage next_language HasNext Yields
preprocess-HasNext c q = tt
preprocess-HasNext cxx q = tt
preprocess-HasNext c_header q = tt
preprocess-HasNext cxx_header q = tt
preprocess-HasNext assembler_with_cpp q = tt
preprocess-HasNext _ q = absurd cc

compile-HasNext : (l : Language) → HasNext compile l
unfolding next_language HasNext Yields
compile-HasNext l = tt

module _ (basename : Bytes → Bytes) (plain : (s : Bytes) → Lacks b'/' s → basename s ≡ s)
    (preprocess_locally : Bool) where
  split-Plain : (name : Bytes) → Plain name → Misses (split_source_name basename name)
  unfolding split_source_name Plain Misses
  split-Plain name h =
      let missing : find_last_of b'.' (basename name) ≡ none =
        ap (find_last_of b'.') (plain name h.0) ∙ find_last_of-none b'.' name h.1 in
      rw (split_source_name, missing) refl

  -- Before the last stage, the output has a name of its own.
  output_name-before :
      (i n : ℕ) (name final_output : Bytes)
      → n < 3
      → output_name basename preprocess_locally assemble i n (stage_at n) name final_output
        ≡ ok (step_output i n, final_output)
  unfolding output_name same_stage stage_at stage_value
  output_name-before i n name final_output h = ground arith

  run_stage-Made :
      (i : ℕ) (first_stage : GccStage) (n : ℕ) (w : Way)
      → n < 3
      → w.final_output ≡ []
      → HasNext (stage_at n) w.input.language
      → Yields Made (run_stage basename preprocess_locally assemble i first_stage n w)
  unfolding run_stage Made Plain HasNext Yields
  run_stage-Made i first_stage n w l h m =
      Yields-then
        (λ (names : Bytes × Bytes). (names.0 ≡ step_output i n) × (names.1 ≡ w.final_output))
        (Yields Made)
        (output_name basename preprocess_locally assemble i n (stage_at n) w.input.name
          w.final_output)
        _
        (subst
          (Yields
            (λ (names : Bytes × Bytes). (names.0 ≡ step_output i n) × (names.1 ≡ w.final_output)))
          (sym (output_name-before i n w.input.name w.final_output l)) (refl, refl))
        (λ names p.
          Yields-then (λ (language : Language). Unit {0}) (Yields Made)
            (next_language (stage_at n) w.input.language) _ m
            (λ language u. (
              subst Plain (sym p.0) (
                step_output-Lacks b'/' i n (omega arith),
                step_output-Lacks b'.' i n (omega arith),
              ),
              p.1 ∙ h,
            )))

  -- The last stage has no name for its output.
  output_name_fails :
      (i : ℕ) (name final_output : Bytes)
      → Plain name
      → final_output ≡ []
      → Misses (output_name basename preprocess_locally assemble i 3 assemble name final_output)
  unfolding output_name default_output same_stage stage_value
  output_name_fails i name [] p e =
      Misses-then _ (λ final. ok (final, final))
        (Misses-then (split_source_name basename name) _ (split-Plain name p))
  output_name_fails i name (x ∷ s) p e = absurd (cons-ne-nil x s e)

  run_stage_fails :
      (i : ℕ) (first_stage : GccStage) (w : Way)
      → Made w
      → Misses (run_stage basename preprocess_locally assemble i first_stage 3 w)
  unfolding run_stage Made stage_at
  run_stage_fails i first_stage w h =
      Misses-then
        (output_name basename preprocess_locally assemble i 3 assemble w.input.name w.final_output)
        _ (output_name_fails i w.input.name w.final_output h.0 h.1)

  -- What is skipped changes nothing.
  run_second :
      (i : ℕ) (w : Way)
      → Made w
      → Yields Made (
          if is_assembler_with_cpp w.input.source_language && same_stage (stage_at 2) compile
          then ok w
          else run_stage basename preprocess_locally assemble i preprocess 2 w)
  unfolding Made stage_at Yields
  run_second i w h =
      either (Yields Made)
        (is_assembler_with_cpp w.input.source_language && same_stage (stage_at 2) compile) (λ y. h)
        (λ n. run_stage-Made i preprocess 2 w (omega arith) h.1 (compile-HasNext w.input.language))

  run_last :
      (i : ℕ) (w : Way)
      → Made w
      → Misses (run_stages basename preprocess_locally assemble i 1 preprocess 3 w)
  unfolding run_stages same_stage stage_at stage_value
  run_last i w h = Misses-then _ _ (
      either Misses
        (is_assembler_with_cpp w.input.source_language && same_stage (stage_at 3) compile)
        (λ y. absurd (skipped_last (is_assembler_with_cpp w.input.source_language) y))
        (λ n. run_stage_fails i preprocess w h))

  run_rest :
      (i : ℕ) (w : Way)
      → Made w
      → Misses (run_stages basename preprocess_locally assemble i 2 preprocess 2 w)
  unfolding run_stages
  run_rest i w h =
      Yields-then Made Misses _
        (λ w'. run_stages basename preprocess_locally assemble i 1 preprocess 3 w')
        (run_second i w h) (λ w' k. run_last i w' k)

  run_all :
      (i : ℕ) (w : Way)
      → w.final_output ≡ []
      → language_to_stage w.input.language ≡ ok preprocess
      → Misses (run_stages basename preprocess_locally assemble i 3 preprocess 1 w)
  unfolding run_stages same_stage stage_at stage_value
  run_all i w h q =
      Yields-then Made Misses _
        (λ w'. run_stages basename preprocess_locally assemble i 2 preprocess 2 w')
        (either (Yields Made) (is_assembler_with_cpp w.input.source_language && false)
          (λ y. absurd (skipped_last (is_assembler_with_cpp w.input.source_language) y))
          (λ n.
            run_stage-Made i preprocess 1 w (omega arith) h
              (preprocess-HasNext w.input.language q)))
        (λ w' k. run_rest i w' k)

  first_returned :
      (stage : Result GccStage) (w : Way) (i : ℕ)
      → stage ≡ ok preprocess
      → w.final_output ≡ []
      → language_to_stage w.input.language ≡ ok preprocess
      → Misses (
          stage >>= λ s.
          run_stages basename preprocess_locally assemble i (4 - stage_value s) s (stage_value s) w)
  unfolding stage_value
  first_returned stage w i q h l =
      subst
        (λ (r : Result GccStage). Misses (
          r >>= λ s.
          run_stages basename preprocess_locally assemble i (4 - stage_value s) s (stage_value s)
            w))
        (sym q) (run_all i w h l)

  -- With -c and without -o, a source that has to be preprocessed has no thunk: the plan fails for
  -- the lack of an extension, since the default name of the output is made from the name that the
  -- stage before has given, which has none. `basename` leaves a text without a slash as it is.
  pub run_input-default_output :
      (i : ℕ) (w : Way)
      → language_to_stage w.input.language ≡ ok preprocess
      → w.final_output ≡ []
      → run_input basename preprocess_locally assemble i w
        ≡ err (runtime_error "missing extension in filename: ")
  unfolding run_input input_last_stage same_stage stage_value Misses
  run_input-default_output i w q h =
      either Misses (is_non_object_input w.input.language)
        (λ y. first_returned (language_to_stage w.input.language) w i q h q)
        (λ n. absurd (preprocessed_source w.input.language q n))
