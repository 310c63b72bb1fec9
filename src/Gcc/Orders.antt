-- ===== src/Gcc/Orders.antt =====
-- The orders for one input.
use gg.Prelude.{
  Returns-map, Returns-self, ℕ, zero, suc, ◌+◌, ◌≤◌, ◌≡◌, refl, ap, sym, subst, ◌∙◌, ◌⊎◌, inl, inr,
  Bool, true, false, ◌&&◌, List, [], ◌∷◌, ◌++◌, arith, if◌then◌else◌, All, All-append, ok,
  >>=-Returns, >>=-Returns_any, ok-injective, err-ne-ok, Returns, Returns-elim, either,
}
use gg.Text.{Bytes}
use package.gg.Gcc.{
  GccStage, preprocess, compile, assemble, link, stage_value, Language, c, c_header, cpp_output,
  cxx, cxx_header, cxx_cpp_output, assembler, assembler_with_cpp, language_to_stage,
}
use package.gg.Gcc.Arguments.{InputFile}
use package.gg.Gcc.Generate.{
  Order, Way, is_non_object_input, same_stage, stage_at, is_assembler_with_cpp, next_language,
  output_name, run_stage, run_stages, run_input,
}

-- What the input is when a stage is next: `Ready stage source language`, where nothing is next after
-- the stages that make objects.
data Ready : GccStage → Language → Language → Type 0 where
  raw : (l : Language) → language_to_stage l ≡ ok preprocess → Ready preprocess l l
  preprocessed :
      (source l : Language)
      → is_assembler_with_cpp source ≡ false
      → language_to_stage l ≡ ok compile
      → Ready compile source l
  skipped : Ready compile assembler_with_cpp assembler
  compiled : (source l : Language) → language_to_stage l ≡ ok assemble → Ready assemble source l
  assembled : (source l : Language) → Ready link source l

-- The stage of an order is the one that its input's language is for.
unfoldable pub IsFitting : Order → Type 0
IsFitting o = language_to_stage o.input.language ≡ ok o.stage

-- The stage after.
after : GccStage → GccStage
after preprocess = compile
after compile = assemble
after assemble = link
after link = link

Ready-fits :
    (s : GccStage) (source l : Language)
    → Ready s source l
    → (is_assembler_with_cpp source && same_stage s compile) ≡ false
    → (s ≡ link) ⊎ (language_to_stage l ≡ ok s)
unfolding is_assembler_with_cpp same_stage stage_value language_to_stage
Ready-fits s source l (raw _ h) n = inr h
Ready-fits s source l (preprocessed _ _ a h) n = inr h
Ready-fits s source l skipped n = cc
Ready-fits s source l (compiled _ _ h) n = inr h
Ready-fits s source l (assembled _ _) n = inl refl

raw-next :
    (l l' : Language)
    → language_to_stage l ≡ ok preprocess
    → next_language preprocess l ≡ ok l'
    → Ready compile l l'
unfolding language_to_stage next_language is_assembler_with_cpp
raw-next c l' h e = subst (Ready compile c) (ok-injective e) (preprocessed c cpp_output refl refl)
raw-next c_header l' h e =
    subst (Ready compile c_header) (ok-injective e) (preprocessed c_header cpp_output refl refl)
raw-next cxx l' h e =
    subst (Ready compile cxx) (ok-injective e) (preprocessed cxx cxx_cpp_output refl refl)
raw-next cxx_header l' h e =
    subst (Ready compile cxx_header) (ok-injective e)
      (preprocessed cxx_header cxx_cpp_output refl refl)
raw-next assembler_with_cpp l' h e =
    subst (Ready compile assembler_with_cpp) (ok-injective e) skipped
raw-next _ l' h e = cc

-- A stage leaves what the next one is for.
Ready-next :
    (s : GccStage) (source l l' : Language)
    → Ready s source l
    → (is_assembler_with_cpp source && same_stage s compile) ≡ false
    → next_language s l ≡ ok l'
    → Ready (after s) source l'
unfolding after next_language is_assembler_with_cpp same_stage stage_value language_to_stage
Ready-next s source l l' (raw _ h) n e = raw-next l l' h e
Ready-next s source l l' (preprocessed _ _ a h) n e =
    compiled source l' (ap language_to_stage (sym (ok-injective e)))
Ready-next s source l l' skipped n e = cc
Ready-next s source l l' (compiled _ _ h) n e = assembled source l'
Ready-next s source l l' (assembled _ _) n e = cc

-- The stage that is skipped leaves the input ready.
Ready-skip :
    (s : GccStage) (source l : Language)
    → Ready s source l
    → (is_assembler_with_cpp source && same_stage s compile) ≡ true
    → Ready (after s) source l
unfolding after is_assembler_with_cpp same_stage stage_value language_to_stage
Ready-skip s source l (raw _ h) y = ground (arith, y)
Ready-skip s source l (preprocessed _ _ a h) y = ground (arith, a, y)
Ready-skip s source l skipped y = compiled assembler_with_cpp assembler refl
Ready-skip s source l (compiled _ _ h) y = ground (arith, y)
Ready-skip s source l (assembled _ _) y = ground (arith, y)

-- The first order takes the file `first`, and each one what the order before it has made; `last` is
-- what the last one makes.
unfoldable pub Chained : Bytes → List Order → Bytes → Type 0
Chained first [] last = first ≡ last
Chained first (o ∷ os) last = (first ≡ o.input.name) × Chained o.output os last

Chained-last :
    (first last : Bytes) (os : List Order) (o : Order)
    → Chained first os last
    → last ≡ o.input.name
    → Chained first (os ++ o ∷ []) o.output
unfolding Chained
Chained-last first last [] o h e = (h ∙ e, refl)
Chained-last first last (p ∷ os) o h e = (h.0, Chained-last p.output last os o h.1 e)

-- The input is ready for the stage, and its orders fit and are a chain.
Sound : Bytes → GccStage → Way → Type 0
Sound first s w =
    Ready s w.input.source_language w.input.language
    × All IsFitting w.orders
    × Chained first w.orders w.input.name

after-stage_at : (n : ℕ) → 1 ≤ n → after (stage_at n) ≡ stage_at (n + 1)
unfolding after stage_at
after-stage_at n h = ground arith

stage_at-stage_value : (s : GccStage) → stage_at (stage_value s) ≡ s
unfolding stage_at stage_value
stage_at-stage_value preprocess = refl
stage_at-stage_value compile = refl
stage_at-stage_value assemble = refl
stage_at-stage_value link = refl

order_fits :
    (s : GccStage) (source l l' : Language)
    → Ready s source l
    → (is_assembler_with_cpp source && same_stage s compile) ≡ false
    → next_language s l ≡ ok l'
    → language_to_stage l ≡ ok s
unfolding next_language
order_fits s source l l' r n e = elim (Ready-fits s source l r n) [
  | inl last ↦ absurd (err-ne-ok _ l' (subst (λ t. next_language t l ≡ ok l') last e))
  | inr fits ↦ fits
]

skip-Sound :
    (first : Bytes) (n : ℕ) (w : Way)
    → Sound first (stage_at n) w
    → (is_assembler_with_cpp w.input.source_language && same_stage (stage_at n) compile) ≡ true
    → Sound first (after (stage_at n)) w
unfolding Sound
skip-Sound first n w h y =
    (Ready-skip (stage_at n) w.input.source_language w.input.language h.0 y, h.1, h.2)

module _ (basename : Bytes → Bytes) (preprocess_locally : Bool) (last_stage : GccStage)
    (first : Bytes) where
  run_stage-Sound :
      (input_index : ℕ) (first_stage : GccStage) (n : ℕ) (w : Way)
      → Sound first (stage_at n) w
      → (is_assembler_with_cpp w.input.source_language && same_stage (stage_at n) compile) ≡ false
      → Returns
          (Sound first (after (stage_at n)))
          (run_stage basename preprocess_locally last_stage input_index first_stage n w)
  unfolding run_stage Sound IsFitting
  run_stage-Sound input_index first_stage n w h k =
      >>=-Returns_any (Sound first (after (stage_at n)))
        (output_name basename preprocess_locally last_stage input_index n (stage_at n) w.input.name
          w.final_output)
        _
        (λ names.
          >>=-Returns (λ l'. next_language (stage_at n) w.input.language ≡ ok l')
            (Sound first (after (stage_at n))) (next_language (stage_at n) w.input.language) _
            (Returns-self (next_language (stage_at n) w.input.language))
            (λ l' e. (
              Ready-next (stage_at n) w.input.source_language w.input.language l' h.0 k e,
              All-append IsFitting w.orders _ h.1
                  (order_fits (stage_at n) w.input.source_language w.input.language l' h.0 k e, tt),
              Chained-last first w.input.name w.orders _ h.2 refl,
            )))

  -- A stage is run or skipped.
  step-Sound :
      (input_index : ℕ) (first_stage : GccStage) (n : ℕ) (w : Way)
      → Sound first (stage_at n) w
      → Returns (Sound first (after (stage_at n))) (
          if is_assembler_with_cpp w.input.source_language && same_stage (stage_at n) compile
          then ok w
          else run_stage basename preprocess_locally last_stage input_index first_stage n w)
  step-Sound input_index first_stage n w h =
      either (Returns (Sound first (after (stage_at n))))
        (is_assembler_with_cpp w.input.source_language && same_stage (stage_at n) compile)
        (λ y. skip-Sound first n w h y) (λ k. run_stage-Sound input_index first_stage n w h k)

  run_stages-Sound :
      (input_index left : ℕ) (first_stage : GccStage) (n : ℕ) (w : Way)
      → 1 ≤ n
      → Sound first (stage_at n) w
      → Returns
          (λ (w' : Way). (s : GccStage) × Sound first s w')
          (run_stages basename preprocess_locally last_stage input_index left first_stage n w)
  unfolding run_stages
  run_stages-Sound input_index zero first_stage n w l h = (stage_at n, h)
  run_stages-Sound input_index (suc left) first_stage n w l h =
      >>=-Returns (Sound first (after (stage_at n)))
        (λ (w' : Way). (s : GccStage) × Sound first s w') _
        (λ w'.
          run_stages basename preprocess_locally last_stage input_index left first_stage (n + 1) w')
        (step-Sound input_index first_stage n w h)
        (λ w' k.
          run_stages-Sound input_index left first_stage (n + 1) w' (omega arith)
            (subst (λ s. Sound first s w') (after-stage_at n l) k))

-- The orders for an input: each one fits, they are a chain from the input's name to the name that it
-- has in the end.
unfoldable pub IsWellOrdered : Bytes → Way → Type 0
unfolding IsFitting Chained
IsWellOrdered first w = All IsFitting w.orders × Chained first w.orders w.input.name

asm_compile : (l : Language) → language_to_stage l ≡ ok compile → is_assembler_with_cpp l ≡ false
unfolding language_to_stage is_assembler_with_cpp
asm_compile assembler_with_cpp e = cc
asm_compile _ e = refl

stage_value-range : (s : GccStage) → 1 ≤ stage_value s
unfolding stage_value
stage_value-range s = grind arith

first-Ready :
    (s : GccStage) (source l : Language)
    → source ≡ l
    → language_to_stage l ≡ ok s
    → Ready s source l
unfolding language_to_stage is_non_object_input is_assembler_with_cpp
first-Ready preprocess source l q e = subst (λ m. Ready preprocess m l) (sym q) (raw l e)
first-Ready compile source l q e =
    preprocessed source l (ap is_assembler_with_cpp q ∙ asm_compile l e) e
first-Ready assemble source l q e = compiled source l e
first-Ready link source l q e = assembled source l

-- Each order for a source asks for the stage that its input's language is for; the first one takes
-- the source, each other one what the one before it has made, and what the last one makes is what
-- the input is called in the end.
pub run_input-IsWellOrdered :
    (basename : Bytes → Bytes) (preprocess_locally : Bool) (last_stage : GccStage) (input_index : ℕ)
    (f : InputFile) (final_output : Bytes) (w : Way)
    → f.source_language ≡ f.language
    → run_input basename preprocess_locally last_stage input_index
        (record { input = f; final_output = final_output; orders = [] })
      ≡ ok w
    → IsWellOrdered f.name w
unfolding run_input IsWellOrdered Sound
run_input-IsWellOrdered basename preprocess_locally last_stage input_index f final_output w q e =
    Returns-elim (λ (w' : Way). All IsFitting w'.orders × Chained f.name w'.orders w'.input.name) _
      w
      (either
        (Returns (λ (w' : Way). All IsFitting w'.orders × Chained f.name w'.orders w'.input.name))
        (is_non_object_input f.language)
        (λ y.
          >>=-Returns (λ s. language_to_stage f.language ≡ ok s)
            (λ (w' : Way). All IsFitting w'.orders × Chained f.name w'.orders w'.input.name)
            (language_to_stage f.language) _ (Returns-self (language_to_stage f.language))
            (λ s k.
              Returns-map (λ (w' : Way). (t : GccStage) × Sound f.name t w')
                (λ (w' : Way). All IsFitting w'.orders × Chained f.name w'.orders w'.input.name) _
                (λ w' r. (r.1.1, r.1.2))
                (run_stages-Sound basename preprocess_locally last_stage f.name input_index _ s
                  (stage_value s) (record { input = f; final_output = final_output; orders = [] })
                  (stage_value-range s)
                  (
                    subst (λ t. Ready t f.source_language f.language) (sym (stage_at-stage_value s))
                        (first-Ready s f.source_language f.language q k),
                    tt,
                    refl,
                  ))))
        (λ n. (tt, refl)))
      e
