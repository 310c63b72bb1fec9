-- ===== src/Gcc/Stages.antt =====
-- The last stage that the compiler's command line asks for.
use gg.Prelude.{
  ℕ, ◌≤◌, ◌<◌, ◌≡◌, refl, subst, ◌∙◌, Bool, true, false, Option, none, some, List, [], ◌∷◌, min,
  arith, ◌==◌, if◌then◌else◌, Result, ok, err, ◌>>=◌, >>=-Returns, >>=-Returns_any, >>=-eq-ok,
  ok-injective, out_of_range, runtime_error, Returns, Returns-elim, either,
}
use gg.Text.{Bytes}
use package.gg.Gcc.{
  GccStage, preprocess, compile, assemble, stage_value, Language, no_language, name_to_language,
}
use package.gg.Gcc.Options.{
  GccOption, opt_upper_e, opt_upper_s, opt_c, opt_x, opt_upper_mmd, opt_upper_md, opt_isystem,
  option_value, GccOptionData, find_option, gcc_options,
}
use package.gg.Gcc.Arguments.{
  get_last_stage, GccArguments, Event, text, add_option_data, add_option, add_input, push_arg,
  add_extra,
}
use package.gg.Gcc.Parse.{
  Parse, at_most, no_arguments, process_input, process_letter, process_long, process_option,
  process_event, process_events, gcc_arguments,
}
use package.gg.Gcc.Closed.{
  IsClosed, Processed, add_option_data-IsClosed, process_letter-IsClosed, process_input-IsClosed,
  paired-Returns,
}

unfoldable rank : Option GccStage → ℕ
unfolding stage_value
rank none = 4
rank (some s) = stage_value s

-- The last stage as a number: linking is the last one where none is asked for.
unfoldable last_stage : GccArguments → ℕ
unfolding rank
last_stage a = rank a.last_stage

last_stage-get_last_stage : (a : GccArguments) → stage_value (get_last_stage a) ≡ last_stage a
unfolding get_last_stage last_stage rank stage_value
last_stage-get_last_stage a = grind arith

-- The stage that an option asks for.
unfoldable pub requested : ℕ → ℕ
unfolding option_value
requested opt =
    if opt == option_value opt_upper_e
    then 1
    else if opt == option_value opt_upper_s
    then 2
    else if opt == option_value opt_c
    then 3
    else 4

-- The least stage of those that the options ask for.
unfoldable pub least : List Event → ℕ
unfolding requested
least [] = 4
least (e ∷ es) = min (requested e.opt) (least es)

least-range : (es : List Event) → least es ≤ 4
unfolding least
least-range [] = omega arith
least-range (e ∷ es) = omega (arith, least-range es)

-- The last stage is the given one.
unfoldable EndsAt : ℕ → GccArguments → Type 0
EndsAt n a = last_stage a ≡ n

EndsAt-IsClosed : (n : ℕ) → IsClosed (EndsAt n)
unfolding EndsAt last_stage push_arg add_option add_input add_extra
EndsAt-IsClosed n = record {
  pushes = λ word a h. h;
  options = λ key optstr value separator double_dash a h. h;
  inputs = λ filename l a h. h;
  extras = λ stage file a h. h;
  outputs = λ file a h. h;
  system_dirs = λ dirs a h. h;
  includes = λ dirs a h. h;
  libraries = λ dirs a h. h;
}

rank-range : (o : Option GccStage) → (1 ≤ rank o) × (rank o ≤ 4)
unfolding rank stage_value
rank-range o = grind arith

rank-at_most :
    (s : GccStage) (o : Option GccStage) → rank (at_most s o) ≡ min (rank o) (stage_value s)
unfolding rank stage_value at_most
rank-at_most s o = grind arith

rank-preprocess : (o : Option GccStage) → rank (some preprocess) ≡ min (rank o) 1
unfolding rank stage_value
rank-preprocess o = omega (arith, rank-range o)

last_stage-range : (a : GccArguments) → last_stage a ≤ 4
unfolding last_stage
last_stage-range a = (rank-range a.last_stage).1

-- `-MMD` asks for none.
mmd-last_stage :
    (found : Option GccOptionData) (optarg : Option Bytes) (a : GccArguments) (l : Language) (n : ℕ)
    → last_stage a ≡ n
    → Returns
        (λ (r : Parse × Bool). last_stage r.0.0 ≡ n)
        (elim found as (λ o. Result (Parse × Bool)) [
          | none ↦ err (out_of_range "at")
          | some d ↦ ok ((add_option_data d optarg a, l), false)
        ])
unfolding EndsAt
mmd-last_stage none optarg a l n h = tt
mmd-last_stage (some d) optarg a l n h =
    add_option_data-IsClosed (EndsAt n) (EndsAt-IsClosed n) d optarg a h

-- An option of the table asks for a stage or leaves the stage alone.
process_long-last_stage :
    (key : GccOption) (optarg : Option Bytes) (a : GccArguments) (l : Language)
    → Returns
        (λ (r : Parse × Bool). last_stage r.0.0 ≡ min (last_stage a) (requested (option_value key)))
        (process_long key optarg a l)
unfolding process_long requested option_value last_stage push_arg
process_long-last_stage opt_c optarg a l = rank-at_most assemble a.last_stage
process_long-last_stage opt_upper_s optarg a l = rank-at_most compile a.last_stage
process_long-last_stage opt_upper_e optarg a l = rank-preprocess a.last_stage
process_long-last_stage opt_upper_mmd optarg a l =
    mmd-last_stage (find_option (option_value opt_upper_md) gcc_options) optarg a l _
      (omega (arith, rank-range a.last_stage))
process_long-last_stage opt_isystem optarg a l = omega (arith, rank-range a.last_stage)
process_long-last_stage opt_x optarg a l =
    >>=-Returns_any _ (name_to_language (text optarg)) _
      (λ named. omega (arith, rank-range a.last_stage))
process_long-last_stage _ optarg a l = omega (arith, rank-range a.last_stage)

put_option-last_stage :
    (d : GccOptionData) (optarg : Option Bytes) (r : Parse × Bool) (n : ℕ)
    → last_stage r.0.0 ≡ n
    → last_stage (if r.1 then (add_option_data d optarg r.0.0, r.0.1) else r.0).0 ≡ n
unfolding EndsAt
put_option-last_stage d optarg (r, true) n h =
    add_option_data-IsClosed (EndsAt n) (EndsAt-IsClosed n) d optarg r.0 h
put_option-last_stage d optarg (r, false) n h = h

-- What is found in the table has the number that was looked for.
option_value-find_option :
    (opt : ℕ) (ds : List GccOptionData) (d : GccOptionData)
    → find_option opt ds ≡ some d
    → option_value d.option ≡ opt
unfolding find_option
option_value-find_option opt [] d h = cc
option_value-find_option opt (e ∷ ds) d h = grind (arith, option_value-find_option opt ds d)

option-last_stage :
    (opt : ℕ) (found : Option GccOptionData) (optarg : Option Bytes) (a : GccArguments)
    (l : Language)
    → find_option opt gcc_options ≡ found
    → Returns
        (λ (r : Parse). last_stage r.0 ≡ min (last_stage a) (requested opt))
        (elim found as (λ o. Result Parse) [
          | none ↦ err (runtime_error "unknown gcc flag: ")
          | some d ↦ process_long d.option optarg a l >>= λ r.
              ok (if r.1 then (add_option_data d optarg r.0.0, r.0.1) else r.0)
        ])
option-last_stage opt none optarg a l q = tt
option-last_stage opt (some d) optarg a l q =
    subst
      (λ (n : ℕ).
        Returns (λ (r : Parse). last_stage r.0 ≡ min (last_stage a) (requested n))
          (process_long d.option optarg a l >>= λ r.
            ok (if r.1 then (add_option_data d optarg r.0.0, r.0.1) else r.0)))
      (option_value-find_option opt gcc_options d q)
      (>>=-Returns
        (λ (r : Parse × Bool).
          last_stage r.0.0 ≡ min (last_stage a) (requested (option_value d.option)))
        (λ (r : Parse). last_stage r.0 ≡ min (last_stage a) (requested (option_value d.option)))
        (process_long d.option optarg a l)
        (λ r. ok (if r.1 then (add_option_data d optarg r.0.0, r.0.1) else r.0))
        (process_long-last_stage d.option optarg a l) (λ r k. put_option-last_stage d optarg r _ k))

process_option-last_stage :
    (opt : ℕ) (optarg : Option Bytes) (a : GccArguments) (l : Language)
    → Returns
        (λ (r : Parse). last_stage r.0 ≡ min (last_stage a) (requested opt))
        (process_option opt optarg a l)
unfolding process_option
process_option-last_stage opt optarg a l =
    option-last_stage opt (find_option opt gcc_options) optarg a l refl

module _ (basename : Bytes → Bytes) (exists : Bytes → Bool) where
  process_letter-none :
      (opt : ℕ) (optarg : Option Bytes) (a : GccArguments)
      → 1000 ≤ opt
      → process_letter exists opt optarg a ≡ none
  unfolding process_letter
  process_letter-none opt optarg a h = ground arith

  requested_none : (opt : ℕ) → opt < 1000 → requested opt ≡ 4
  unfolding requested option_value
  requested_none opt h = ground arith

  requested-letter :
      (opt : ℕ) (optarg : Option Bytes) (a : GccArguments) (r : Result GccArguments)
      → process_letter exists opt optarg a ≡ some r
      → requested opt ≡ 4
  requested-letter opt optarg a r h =
      grind (arith, process_letter-none opt optarg a, requested_none opt)

  -- Where no stage is asked for, the last one stays.
  kept-last_stage :
      (opt : ℕ) (r : Result GccArguments) (a : GccArguments) (l : Language)
      → requested opt ≡ 4
      → Returns (EndsAt (last_stage a)) r
      → Returns
          (λ (p : Parse). last_stage p.0 ≡ min (last_stage a) (requested opt))
          (r >>= λ b. ok (b, l))
  unfolding EndsAt
  kept-last_stage opt r a l q k =
      subst (λ (n : ℕ). Returns (λ (p : Parse). last_stage p.0 ≡ n) (r >>= λ b. ok (b, l)))
        (let same : last_stage a ≡ min (last_stage a) (requested opt) =
            omega (arith, q, last_stage-range a) in
          same)
        (paired-Returns (EndsAt (last_stage a)) r l k)

  switched-last_stage :
      (first : Option (Result GccArguments)) (e : Event) (a : GccArguments) (l : Language)
      → process_letter exists e.opt e.optarg a ≡ first
      → Processed (EndsAt (last_stage a)) first
      → Returns
          (λ (p : Parse). last_stage p.0 ≡ min (last_stage a) (requested e.opt))
          (elim first as (λ o. Result Parse) [
            | none ↦ process_option e.opt e.optarg a l
            | some r ↦ r >>= λ b. ok (b, l)
          ])
  switched-last_stage none e a l q k = process_option-last_stage e.opt e.optarg a l
  switched-last_stage (some r) e a l q k =
      kept-last_stage e.opt r a l (requested-letter e.opt e.optarg a r q) k

  process_event-last_stage :
      (e : Event) (a : GccArguments) (l : Language)
      → Returns
          (λ (p : Parse). last_stage p.0 ≡ min (last_stage a) (requested e.opt))
          (process_event basename exists e a l)
  unfolding process_event EndsAt
  process_event-last_stage e a l =
      either (Returns (λ (p : Parse). last_stage p.0 ≡ min (last_stage a) (requested e.opt)))
        (e.opt == 1)
        (λ y.
          kept-last_stage e.opt (process_input basename (text e.optarg) a l) a l
            (requested_none e.opt (ground (arith, y)))
            (process_input-IsClosed (EndsAt (last_stage a)) (EndsAt-IsClosed (last_stage a))
              basename (text e.optarg) a l refl))
        (λ n. switched-last_stage (process_letter exists e.opt e.optarg a) e a l refl (
          process_letter-IsClosed (EndsAt (last_stage a)) (EndsAt-IsClosed (last_stage a)) exists
            e.opt e.optarg a refl))

  process_events-last_stage :
      (es : List Event) (a : GccArguments) (l : Language)
      → Returns
          (λ (p : Parse). last_stage p.0 ≡ min (last_stage a) (least es))
          (process_events basename exists es a l)
  unfolding process_events least
  process_events-last_stage [] a l = omega (arith, last_stage-range a)
  process_events-last_stage (e ∷ es) a l =
      >>=-Returns (λ (p : Parse). last_stage p.0 ≡ min (last_stage a) (requested e.opt))
        (λ (p : Parse). last_stage p.0 ≡ min (last_stage a) (min (requested e.opt) (least es)))
        (process_event basename exists e a l) _ (process_event-last_stage e a l)
        (λ p k.
          subst
            (λ (n : ℕ).
              Returns (λ (q : Parse). last_stage q.0 ≡ n)
                (process_events basename exists es p.0 p.1))
            (let same : min (last_stage p.0) (least es)
                  ≡ min (last_stage a) (min (requested e.opt) (least es)) =
                omega (arith, k) in
              same)
            (process_events-last_stage es p.0 p.1))

  -- The last stage of a command line is the least of those that -E, -S and -c ask for, in whatever
  -- order they stand, and linking where none of them is there.
  pub gcc_arguments-last_stage :
      (force_strip canonical_paths : Bool) (canonical_root : Bytes) (events : List Event)
      (a : GccArguments)
      → gcc_arguments basename exists force_strip canonical_paths canonical_root events ≡ ok a
      → stage_value (get_last_stage a) ≡ least events
  unfolding gcc_arguments last_stage rank no_arguments
  gcc_arguments-last_stage force_strip canonical_paths canonical_root events a e =
      let p =
        >>=-eq-ok
          (process_events basename exists events
            (no_arguments force_strip canonical_paths canonical_root) no_language)
          _ e in
      last_stage-get_last_stage a
      ∙ subst (λ (b : GccArguments). last_stage b ≡ least events) (ok-injective p.2)
          (let q =
              Returns-elim _ _ p.0
                (process_events-last_stage events
                  (no_arguments force_strip canonical_paths canonical_root) no_language)
                p.1 in
            omega (arith, q, least-range events))
