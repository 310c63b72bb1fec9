-- ===== src/Gcc/Indices.antt =====
-- The inputs of the compiler's command line know where they stand on it.
use gg.Prelude.{
  >>=-Returns_any, >>=-eq-ok, ok-injective, out_of_range, runtime_error, ℕ, zero, suc, ◌≤◌, ◌<◌,
  ◌≡◌, refl, ap, subst, ◌∙◌, Bool, true, false, Option, none, some, List, [], ◌∷◌, ◌++◌, arith,
  ◌==◌, if◌then◌else◌, length, get_elem?, Result, ok, err, ◌>>=◌, >>=-Returns, Returns,
  Returns-elim, either,
}
use gg.Text.{Bytes}
use package.gg.Gcc.{name_to_language, GccStage, Language, no_language}
use package.gg.Gcc.Options.{
  opt_upper_mmd, opt_isystem, option_value, opt_x, opt_upper_md, GccOption, GccOptionData,
  find_option, gcc_options,
}
use package.gg.Gcc.Arguments.{
  InputFile, GccArguments, Event, text, input_word, add_option, add_option_data, add_input,
  push_arg, add_extra,
}
use package.gg.Gcc.Parse.{
  Parse, no_arguments, process_input, process_letter, process_long, process_option, process_event,
  process_events, gcc_arguments,
}
use package.gg.Gcc.Closed.{
  IsClosed, Processed, add_option_data-IsClosed, process_letter-IsClosed, process_input-IsClosed,
  paired-Returns,
}

-- The inputs stand on the command line in their order, from `low` on, each at its index.
unfoldable pub Indexed : ℕ → List Bytes → List InputFile → Type 0
Indexed low args [] = Unit
Indexed low args (f ∷ fs) =
    (low ≤ f.index)
    × (get_elem? args f.index ≡ some (input_word f.name f.language))
    × Indexed (suc f.index) args fs

unfoldable pub IsIndexed : GccArguments → Type 0
unfolding Indexed
IsIndexed a = Indexed 0 a.args a.input_files

get_elem?-append :
    (xs ys : List Bytes) (i : ℕ) (v : Bytes)
    → get_elem? xs i ≡ some v
    → get_elem? (xs ++ ys) i ≡ some v
get_elem?-append [] ys i v h = cc
get_elem?-append (x ∷ xs) ys zero v h = h
get_elem?-append (x ∷ xs) ys (suc i) v h = get_elem?-append xs ys i v h

get_elem?-last : (xs : List Bytes) (v : Bytes) → get_elem? (xs ++ v ∷ []) (length xs) ≡ some v
get_elem?-last [] v = refl
get_elem?-last (x ∷ xs) v = get_elem?-last xs v

pub get_elem?-below :
    (xs : List Bytes) (i : ℕ) (v : Bytes) → get_elem? xs i ≡ some v → i < length xs
get_elem?-below [] i v h = cc
get_elem?-below (x ∷ xs) zero v h = omega arith
get_elem?-below (x ∷ xs) (suc i) v h = omega (arith, get_elem?-below xs i v h)

Indexed-append :
    (low : ℕ) (args words : List Bytes) (fs : List InputFile)
    → Indexed low args fs
    → Indexed low (args ++ words) fs
unfolding Indexed
Indexed-append low args words [] h = tt
Indexed-append low args words (f ∷ fs) h =
    (h.0, get_elem?-append args words f.index _ h.1, Indexed-append (suc f.index) args words fs h.2)

Indexed-last :
    (low : ℕ) (args : List Bytes) (fs : List InputFile) (f : InputFile)
    → low ≤ length args
    → f.index ≡ length args
    → Indexed low args fs
    → Indexed low (args ++ input_word f.name f.language ∷ []) (fs ++ f ∷ [])
unfolding Indexed
Indexed-last low args [] f l e h = (
  omega arith,
  ap (get_elem? (args ++ input_word f.name f.language ∷ [])) e ∙ get_elem?-last args _,
  tt,
)
Indexed-last low args (g ∷ fs) f l e h = (
  h.0,
  get_elem?-append args _ g.index _ h.1,
  Indexed-last (suc g.index) args fs f (omega (arith, get_elem?-below args g.index _ h.1)) e h.2,
)

push_arg-IsIndexed : (word : Bytes) (a : GccArguments) → IsIndexed a → IsIndexed (push_arg word a)
unfolding push_arg IsIndexed
push_arg-IsIndexed word a h = Indexed-append 0 a.args (word ∷ []) a.input_files h

add_option-IsIndexed :
    (key : GccOption) (optstr value : Bytes) (separator : ℕ) (double_dash : Bool) (a : GccArguments)
    → IsIndexed a
    → IsIndexed (add_option key optstr value separator double_dash a)
unfolding add_option IsIndexed
add_option-IsIndexed key optstr value separator double_dash a h =
    Indexed-append 0 a.args _ a.input_files h

add_input-IsIndexed :
    (filename : Bytes) (l : Language) (a : GccArguments)
    → IsIndexed a
    → IsIndexed (add_input filename l a)
unfolding add_input IsIndexed
add_input-IsIndexed filename l a h =
    Indexed-last 0 a.args a.input_files
      (record { name = filename; language = l; source_language = l; index = length a.args })
      (omega arith) refl h

add_extra-IsIndexed :
    (stage : GccStage) (file : Bytes) (a : GccArguments)
    → IsIndexed a
    → IsIndexed (add_extra stage file a)
unfolding add_extra IsIndexed
add_extra-IsIndexed stage file a h = h

IsIndexed-IsClosed : IsClosed IsIndexed
unfolding IsIndexed
IsIndexed-IsClosed = record {
  pushes = push_arg-IsIndexed;
  options = add_option-IsIndexed;
  inputs = add_input-IsIndexed;
  extras = add_extra-IsIndexed;
  outputs = λ file a h. h;
  system_dirs = λ dirs a h. h;
  includes = λ dirs a h. h;
  libraries = λ dirs a h. h;
}

add_option_data-IsIndexed :
    (d : GccOptionData) (optarg : Option Bytes) (a : GccArguments)
    → IsIndexed a
    → IsIndexed (add_option_data d optarg a)
add_option_data-IsIndexed = add_option_data-IsClosed IsIndexed IsIndexed-IsClosed

-- `-MMD` is put on the command line as `-MD`.
mmd-IsIndexed :
    (found : Option GccOptionData) (optarg : Option Bytes) (a : GccArguments) (l : Language)
    → IsIndexed a
    → Returns
        (λ (r : Parse × Bool). IsIndexed r.0.0)
        (elim found as (λ o. Result (Parse × Bool)) [
          | none ↦ err (out_of_range "at")
          | some d ↦ ok ((add_option_data d optarg a, l), false)
        ])
mmd-IsIndexed none optarg a l h = tt
mmd-IsIndexed (some d) optarg a l h = add_option_data-IsIndexed d optarg a h

process_long-IsIndexed :
    (key : GccOption) (optarg : Option Bytes) (a : GccArguments) (l : Language)
    → IsIndexed a
    → Returns (λ (r : Parse × Bool). IsIndexed r.0.0) (process_long key optarg a l)
unfolding process_long IsIndexed
process_long-IsIndexed opt_x optarg a l h =
    >>=-Returns_any _ (name_to_language (text optarg)) _ (λ named. h)
process_long-IsIndexed opt_upper_mmd optarg a l h =
    mmd-IsIndexed (find_option (option_value opt_upper_md) gcc_options) optarg a l h
process_long-IsIndexed opt_isystem optarg a l h = push_arg-IsIndexed _ a h
process_long-IsIndexed _ optarg a l h = h

put_option-IsIndexed :
    (d : GccOptionData) (optarg : Option Bytes) (r : Parse × Bool)
    → IsIndexed r.0.0
    → IsIndexed (if r.1 then (add_option_data d optarg r.0.0, r.0.1) else r.0).0
put_option-IsIndexed d optarg (r, true) h = add_option_data-IsIndexed d optarg r.0 h
put_option-IsIndexed d optarg (r, false) h = h

option-IsIndexed :
    (found : Option GccOptionData) (optarg : Option Bytes) (a : GccArguments) (l : Language)
    → IsIndexed a
    → Returns
        (λ (r : Parse). IsIndexed r.0)
        (elim found as (λ o. Result Parse) [
          | none ↦ err (runtime_error "unknown gcc flag: ")
          | some d ↦ process_long d.option optarg a l >>= λ r.
              ok (if r.1 then (add_option_data d optarg r.0.0, r.0.1) else r.0)
        ])
option-IsIndexed none optarg a l h = tt
option-IsIndexed (some d) optarg a l h =
    >>=-Returns (λ (r : Parse × Bool). IsIndexed r.0.0) (λ (r : Parse). IsIndexed r.0)
      (process_long d.option optarg a l)
      (λ r. ok (if r.1 then (add_option_data d optarg r.0.0, r.0.1) else r.0))
      (process_long-IsIndexed d.option optarg a l h) (λ r k. put_option-IsIndexed d optarg r k)

process_option-IsIndexed :
    (opt : ℕ) (optarg : Option Bytes) (a : GccArguments) (l : Language)
    → IsIndexed a
    → Returns (λ (r : Parse). IsIndexed r.0) (process_option opt optarg a l)
unfolding process_option
process_option-IsIndexed opt optarg a l h =
    option-IsIndexed (find_option opt gcc_options) optarg a l h

module _ (basename : Bytes → Bytes) (exists : Bytes → Bool) where
  switched-IsIndexed :
      (first : Option (Result GccArguments)) (e : Event) (a : GccArguments) (l : Language)
      → IsIndexed a
      → Processed IsIndexed first
      → Returns
          (λ (p : Parse). IsIndexed p.0)
          (elim first as (λ o. Result Parse) [
            | none ↦ process_option e.opt e.optarg a l
            | some r ↦ r >>= λ b. ok (b, l)
          ])
  switched-IsIndexed none e a l h k = process_option-IsIndexed e.opt e.optarg a l h
  switched-IsIndexed (some r) e a l h k = paired-Returns IsIndexed r l k

  process_event-IsIndexed :
      (e : Event) (a : GccArguments) (l : Language)
      → IsIndexed a
      → Returns (λ (p : Parse). IsIndexed p.0) (process_event basename exists e a l)
  unfolding process_event
  process_event-IsIndexed e a l h =
      either (Returns (λ (p : Parse). IsIndexed p.0)) (e.opt == 1)
        (λ y.
          paired-Returns IsIndexed (process_input basename (text e.optarg) a l) l
            (process_input-IsClosed IsIndexed IsIndexed-IsClosed basename (text e.optarg) a l h))
        (λ n.
          switched-IsIndexed (process_letter exists e.opt e.optarg a) e a l h
            (process_letter-IsClosed IsIndexed IsIndexed-IsClosed exists e.opt e.optarg a h))

  process_events-IsIndexed :
      (es : List Event) (a : GccArguments) (l : Language)
      → IsIndexed a
      → Returns (λ (p : Parse). IsIndexed p.0) (process_events basename exists es a l)
  unfolding process_events
  process_events-IsIndexed [] a l h = h
  process_events-IsIndexed (e ∷ es) a l h =
      >>=-Returns (λ (p : Parse). IsIndexed p.0) (λ (p : Parse). IsIndexed p.0)
        (process_event basename exists e a l) _ (process_event-IsIndexed e a l h)
        (λ p k. process_events-IsIndexed es p.0 p.1 k)

  no_arguments-IsIndexed :
      (force_strip canonical_paths : Bool) (canonical_root : Bytes)
      → IsIndexed (no_arguments force_strip canonical_paths canonical_root)
  unfolding no_arguments IsIndexed
  no_arguments-IsIndexed force_strip canonical_paths canonical_root = tt

  -- Whatever the command line, where the arguments are made from it, each input knows the index at
  -- which its word stands among them, and the inputs are in the order of these indices.
  pub gcc_arguments-IsIndexed :
      (force_strip canonical_paths : Bool) (canonical_root : Bytes) (events : List Event)
      (a : GccArguments)
      → gcc_arguments basename exists force_strip canonical_paths canonical_root events ≡ ok a
      → IsIndexed a
  unfolding gcc_arguments
  gcc_arguments-IsIndexed force_strip canonical_paths canonical_root events a e =
      let p =
        >>=-eq-ok
          (process_events basename exists events
            (no_arguments force_strip canonical_paths canonical_root) no_language)
          _ e in
      subst IsIndexed (ok-injective p.2) (
        Returns-elim (λ (q : Parse). IsIndexed q.0) _ p.0
          (process_events-IsIndexed events _ no_language
            (no_arguments-IsIndexed force_strip canonical_paths canonical_root))
          p.1)
