-- ===== src/Gcc/WOption.antt =====
-- src/models/gcc-args.cc: the -W options.
use gg.Prelude.{
  ◌+◌, Bool, false, not, none, some, [], ◌∷◌, ◌++◌, ◌==◌, if◌then◌else◌, length, drop, Result, ok,
  err, runtime_error,
}
use gg.Text.{Bytes, codes, starts_with, find}
use package.gg.Gcc.{assemble, link}
use package.gg.Gcc.Options.{opt_upper_md, opt_upper_mf}
use package.gg.Gcc.Arguments.{GccArguments, path_fn, add_option, push_arg, add_extra}

abbrev version_script : Bytes
version_script = codes "--version-script="

abbrev linker_script : Bytes
linker_script = codes "-T,"

abbrev pub not_implemented : Result GccArguments
not_implemented = err (runtime_error "not implemented: -W")

-- `-Wp,-MD,file` is `-MD -MF file`.
unfoldable pub add_md : Bytes → GccArguments → GccArguments
unfolding add_option
add_md file a =
    add_option opt_upper_mf (codes "MF") file b' ' false
      (add_option opt_upper_md (codes "MD") [] b'X' false a)

module _ (exists : Bytes → Bool) where
  -- `-Wp,…`: only `-MD,file` and `-D…` are known.
  unfoldable pub process_wp : Bytes → Bytes → GccArguments → Result GccArguments
  unfolding add_md path_fn push_arg
  process_wp suboptarg optarg a =
      if starts_with (codes "-MD") suboptarg
      then elim (find (codes ",") suboptarg) [
        | none ↦ not_implemented
        | some comma ↦ ok (add_md (path_fn (drop (comma + 1) suboptarg) a) a)
      ]
      else if starts_with (codes "-D") suboptarg
      then ok (push_arg (codes "-W" ++ optarg) a)
      else not_implemented

  -- `-Wl,…`
  unfoldable pub process_wl : Bytes → Bytes → GccArguments → Result GccArguments
  unfolding add_extra path_fn push_arg
  process_wl suboptarg optarg a =
      let scripted =
        if starts_with version_script suboptarg
        then add_extra link (path_fn (drop (length version_script) suboptarg) a) a
        else if starts_with linker_script suboptarg
        then add_extra link (path_fn (drop (length linker_script) suboptarg) a) a
        else a in
      ok (push_arg (codes "-W" ++ optarg) scripted)

  -- `-Wa,…`
  unfoldable pub process_wa : Bytes → Bytes → GccArguments → Result GccArguments
  unfolding add_extra path_fn push_arg
  process_wa suboptarg optarg a =
      let assembled : GccArguments = elim (find (codes ",") suboptarg) [
        | none ↦ if exists suboptarg then add_extra assemble (path_fn suboptarg a) a else a
        | some _ ↦ a
      ] in
      ok (push_arg (codes "-W" ++ optarg) assembled)

  unfoldable pub process_w_option : Bytes → GccArguments → Result GccArguments
  unfolding process_wp process_wl process_wa push_arg
  process_w_option [] a = ok (push_arg (codes "-W") a)
  process_w_option (x ∷ []) a = ok (push_arg (codes "-W" ++ x ∷ []) a)
  process_w_option (x ∷ y ∷ suboptarg) a =
      if not (y == b',')
      then ok (push_arg (codes "-W" ++ x ∷ y ∷ suboptarg) a)
      else if x == b'p'
      then process_wp suboptarg (x ∷ y ∷ suboptarg) a
      else if x == b'l'
      then process_wl suboptarg (x ∷ y ∷ suboptarg) a
      else if x == b'a'
      then process_wa suboptarg (x ∷ y ∷ suboptarg) a
      else not_implemented
