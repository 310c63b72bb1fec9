-- ===== src/Gcc/Closed.antt =====
-- A property of the arguments that the primitive operations keep is kept by the -W options and by the
-- first switch.
use gg.Prelude.{
  >>=-Returns_any, ℕ, Bool, false, Option, none, some, List, [], ◌∷◌, arith, ◌==◌, Result, ok, err,
  ◌>>=◌, Returns, either,
}
use gg.Text.{Bytes, codes, starts_with}
use package.gg.Gcc.{GccStage, Language, shared_library}
use package.gg.Gcc.Options.{
  opt_upper_o, opt_upper_d, opt_upper_u, opt_f, opt_g, opt_upper_md, opt_upper_mf, GccOption,
  GccOptionData,
}
use package.gg.Gcc.Arguments.{
  GccArguments, text, add_option, add_option_data, add_input, push_arg, add_extra, path_fn,
}
use package.gg.Gcc.WOption.{add_md, process_wp, process_wl, process_wa, process_w_option}
use package.gg.Gcc.Parse.{Parse, file_language, process_input, process_letter}

-- What each primitive operation keeps.
pub record IsClosed (P : GccArguments → Type 0) : Type 0 where
  pub pushes : (word : Bytes) (a : GccArguments) → P a → P (push_arg word a)
  pub options :
      (key : GccOption) (optstr value : Bytes) (separator : ℕ) (double_dash : Bool)
      (a : GccArguments)
      → P a
      → P (add_option key optstr value separator double_dash a)
  pub inputs :
      (filename : Bytes) (l : Language) (a : GccArguments) → P a → P (add_input filename l a)
  pub extras :
      (stage : GccStage) (file : Bytes) (a : GccArguments) → P a → P (add_extra stage file a)
  pub outputs : (file : Bytes) (a : GccArguments) → P a → P (record a { output = file })
  pub system_dirs :
      (dirs : List Bytes) (a : GccArguments) → P a → P (record a { system_include_dirs = dirs })
  pub includes : (dirs : List Bytes) (a : GccArguments) → P a → P (record a { include_dirs = dirs })
  pub libraries :
      (dirs : List Bytes) (a : GccArguments) → P a → P (record a { library_dirs = dirs })

-- What the first switch returns, if it processes the flag.
abbrev pub Processed : (GccArguments → Type 0) → Option (Result GccArguments) → Type 0
Processed P none = Unit
Processed P (some r) = Returns P r

module _ (P : GccArguments → Type 0) (k : IsClosed P) where
  pub add_option_data-IsClosed :
      (d : GccOptionData) (optarg : Option Bytes) (a : GccArguments)
      → P a
      → P (add_option_data d optarg a)
  unfolding add_option_data
  add_option_data-IsClosed d optarg a h = search k.options

  add_md-IsClosed : (file : Bytes) (a : GccArguments) → P a → P (add_md file a)
  unfolding add_md
  add_md-IsClosed file a h =
      k.options opt_upper_mf (codes "MF") file b' ' false _
        (k.options opt_upper_md (codes "MD") [] b'X' false a h)

  module _ (exists : Bytes → Bool) where
    process_wp-IsClosed :
        (suboptarg optarg : Bytes) (a : GccArguments)
        → P a
        → Returns P (process_wp exists suboptarg optarg a)
    unfolding process_wp
    process_wp-IsClosed suboptarg optarg a h = grind (arith, k.pushes, add_md-IsClosed)

    process_wl-IsClosed :
        (suboptarg optarg : Bytes) (a : GccArguments)
        → P a
        → Returns P (process_wl exists suboptarg optarg a)
    unfolding process_wl
    process_wl-IsClosed suboptarg optarg a h = grind (arith, k.pushes, k.extras)

    process_wa-IsClosed :
        (suboptarg optarg : Bytes) (a : GccArguments)
        → P a
        → Returns P (process_wa exists suboptarg optarg a)
    unfolding process_wa
    process_wa-IsClosed suboptarg optarg a h = grind (arith, k.pushes, k.extras)

    process_w_option-IsClosed :
        (optarg : Bytes) (a : GccArguments) → P a → Returns P (process_w_option exists optarg a)
    unfolding process_w_option
    process_w_option-IsClosed [] a h = k.pushes _ a h
    process_w_option-IsClosed (x ∷ []) a h = k.pushes _ a h
    process_w_option-IsClosed (x ∷ y ∷ s) a h = grind (
      arith,
      k.pushes,
      process_wp-IsClosed s (x ∷ y ∷ s) a h,
      process_wl-IsClosed s (x ∷ y ∷ s) a h,
      process_wa-IsClosed s (x ∷ y ∷ s) a h,
    )

    pub process_letter-IsClosed :
        (opt : ℕ) (optarg : Option Bytes) (a : GccArguments)
        → P a
        → Processed P (process_letter exists opt optarg a)
    unfolding process_letter
    process_letter-IsClosed opt optarg a h =
        let Q = Processed P in
        either Q (opt == b'l') (λ y. k.inputs (text optarg) shared_library a h)
          (λ n.
            either Q (opt == b'i')
              (λ y.
                either Q (starts_with (codes "system") (text optarg))
                  (λ y'. k.system_dirs _ _ (k.pushes _ a h)) (λ n'. tt))
              (λ n.
                either Q (opt == b'o') (λ y. k.outputs (text optarg) a h)
                  (λ n.
                    either Q (opt == b'I') (λ y. k.includes _ _ (k.pushes _ a h))
                      (λ n.
                        either Q (opt == b'L') (λ y. k.libraries _ _ (k.pushes _ a h))
                          (λ n.
                            either Q (opt == b'g')
                              (λ y.
                                either P a.force_strip (λ y'. h)
                                  (λ n'. k.options opt_g (codes "g") [] b'X' false a h))
                              (λ n.
                                either Q (opt == b'O')
                                  (λ y. k.options opt_upper_o (codes "O") (text optarg) 0 false a h)
                                  (λ n.
                                    either Q (opt == b'D')
                                      (λ y.
                                        k.options opt_upper_d (codes "D") (text optarg) 0 false a h)
                                      (λ n.
                                        either Q (opt == b'U')
                                          (λ y.
                                            k.options opt_upper_u (codes "U") (text optarg) 0 false
                                              a h)
                                          (λ n.
                                            either Q (opt == b'f')
                                              (λ y.
                                                k.options opt_f (codes "f") (text optarg) 0 false a
                                                  h)
                                              (λ n.
                                                either Q (opt == b'W')
                                                  (λ y. process_w_option-IsClosed (text optarg) a h)
                                                  (λ n.
                                                    either Q (opt == b'B') (λ y. tt)
                                                      (λ n. tt))))))))))))

  -- An input is added, with whatever language.
  pub process_input-IsClosed :
      (basename : Bytes → Bytes) (arg : Bytes) (a : GccArguments) (l : Language)
      → P a
      → Returns P (process_input basename arg a l)
  unfolding process_input
  process_input-IsClosed basename arg a l h =
      >>=-Returns_any P (file_language basename (path_fn arg a) a.last_stage l) _
        (λ file_lang. k.inputs (path_fn arg a) file_lang a h)

-- What is returned is paired with the language.
pub paired-Returns :
    (P : GccArguments → Type 0) (r : Result GccArguments) (l : Language)
    → Returns P r
    → Returns (λ (p : Parse). P p.0) (r >>= λ b. ok (b, l))
paired-Returns P (ok b) l h = h
paired-Returns P (err e) l h = tt
