-- ===== src/Gcc/Options.antt =====
-- The compiler's options: gcc.hh's numbers for them, and the table in gcc-args.cc.
use gg.Prelude.{ℕ, Bool, true, false, Option, none, some, List, [], ◌∷◌, ◌==◌, if◌then◌else◌}
use gg.Text.{Bytes, codes}

pub data GccOption : Type 0 where
  opt_c opt_upper_c opt_upper_d opt_dashstatic opt_d_upper_m opt_dumpmachine opt_dumpversion
        opt_upper_e opt_f opt_g opt_g0 opt_g1 opt_gdwarf_4 opt_include opt_isystem opt_upper_m
        opt_m32 opt_m64 opt_march opt_mavx opt_mavx2 opt_mbmi opt_mbmi2 opt_mcmodel opt_upper_md
        opt_upper_mf opt_mf16c opt_mfentry opt_mfma opt_upper_mmd opt_mmmx opt_mno_3dnow
        opt_mno_80387 opt_mno_avx opt_mno_fp_ret_in_387 opt_mno_mmx opt_mno_red_zone opt_mno_sse
        opt_mno_sse2 opt_mno_tls_direct_seg_refs opt_upper_mp opt_mpclmul
        opt_mpreferred_stack_boundary opt_mregparm opt_mskip_rax_setup opt_msoft_float opt_msse
        opt_msse2 opt_msse4_1 opt_msse4_2 opt_mssse3 opt_upper_mt opt_mtune opt_nodefaultlibs
        opt_nostdinc opt_nostdincpp opt_nostdlib opt_o opt_upper_o opt_upper_p opt_param
        opt_pedantic opt_pg opt_pie opt_pipe opt_print_file_name opt_pthread opt_rdynamic opt_s
        opt_upper_s opt_shared opt_std opt_u opt_upper_u opt_v opt_w opt_x opt_xlinker :
      GccOption

-- The enumerators, from 1000 on.
unfoldable pub option_value : GccOption → ℕ
option_value opt_c = 1000
option_value opt_upper_c = 1001
option_value opt_upper_d = 1002
option_value opt_dashstatic = 1003
option_value opt_d_upper_m = 1004
option_value opt_dumpmachine = 1005
option_value opt_dumpversion = 1006
option_value opt_upper_e = 1007
option_value opt_f = 1008
option_value opt_g = 1009
option_value opt_g0 = 1010
option_value opt_g1 = 1011
option_value opt_gdwarf_4 = 1012
option_value opt_include = 1013
option_value opt_isystem = 1014
option_value opt_upper_m = 1015
option_value opt_m32 = 1016
option_value opt_m64 = 1017
option_value opt_march = 1018
option_value opt_mavx = 1019
option_value opt_mavx2 = 1020
option_value opt_mbmi = 1021
option_value opt_mbmi2 = 1022
option_value opt_mcmodel = 1023
option_value opt_upper_md = 1024
option_value opt_upper_mf = 1025
option_value opt_mf16c = 1026
option_value opt_mfentry = 1027
option_value opt_mfma = 1028
option_value opt_upper_mmd = 1029
option_value opt_mmmx = 1030
option_value opt_mno_3dnow = 1031
option_value opt_mno_80387 = 1032
option_value opt_mno_avx = 1033
option_value opt_mno_fp_ret_in_387 = 1034
option_value opt_mno_mmx = 1035
option_value opt_mno_red_zone = 1036
option_value opt_mno_sse = 1037
option_value opt_mno_sse2 = 1038
option_value opt_mno_tls_direct_seg_refs = 1039
option_value opt_upper_mp = 1040
option_value opt_mpclmul = 1041
option_value opt_mpreferred_stack_boundary = 1042
option_value opt_mregparm = 1043
option_value opt_mskip_rax_setup = 1044
option_value opt_msoft_float = 1045
option_value opt_msse = 1046
option_value opt_msse2 = 1047
option_value opt_msse4_1 = 1048
option_value opt_msse4_2 = 1049
option_value opt_mssse3 = 1050
option_value opt_upper_mt = 1051
option_value opt_mtune = 1052
option_value opt_nodefaultlibs = 1053
option_value opt_nostdinc = 1054
option_value opt_nostdincpp = 1055
option_value opt_nostdlib = 1056
option_value opt_o = 1057
option_value opt_upper_o = 1058
option_value opt_upper_p = 1059
option_value opt_param = 1060
option_value opt_pedantic = 1061
option_value opt_pg = 1062
option_value opt_pie = 1063
option_value opt_pipe = 1064
option_value opt_print_file_name = 1065
option_value opt_pthread = 1066
option_value opt_rdynamic = 1067
option_value opt_s = 1068
option_value opt_upper_s = 1069
option_value opt_shared = 1070
option_value opt_std = 1071
option_value opt_u = 1072
option_value opt_upper_u = 1073
option_value opt_v = 1074
option_value opt_w = 1075
option_value opt_x = 1076
option_value opt_xlinker = 1077

pub data HasArg : Type 0 where
  no_argument required_argument : HasArg

pub record GccOptionData : Type 0 where
  pub option : GccOption
  pub option_str : Bytes
  pub has_arg : HasArg
  pub double_dash : Bool
  pub arg_separator : ℕ

abbrev entry : GccOption → Bytes → HasArg → Bool → ℕ → GccOptionData
entry option option_str has_arg double_dash arg_separator = record {
  option = option;
  option_str = option_str;
  has_arg = has_arg;
  double_dash = double_dash;
  arg_separator = arg_separator;
}

abbrev pub gcc_options : List GccOptionData
gcc_options =
    entry opt_x (codes "x") required_argument false b' '
    ∷ entry opt_c (codes "c") no_argument false b'X'
    ∷ entry opt_upper_c (codes "C") no_argument false b'X'
    ∷ entry opt_d_upper_m (codes "dM") no_argument false b'X'
    ∷ entry opt_upper_e (codes "E") no_argument false b'X'
    ∷ entry opt_g (codes "g") no_argument false b' '
    ∷ entry opt_g0 (codes "g0") no_argument false b' '
    ∷ entry opt_g1 (codes "g1") no_argument false b' '
    ∷ entry opt_s (codes "s") no_argument false b'X'
    ∷ entry opt_upper_s (codes "S") no_argument false b'X'
    ∷ entry opt_v (codes "v") no_argument false b'X'
    ∷ entry opt_w (codes "w") no_argument false b'X'
    ∷ entry opt_upper_m (codes "M") no_argument false b'X'
    ∷ entry opt_upper_md (codes "MD") no_argument false b'X'
    ∷ entry opt_upper_mp (codes "MP") no_argument false b'X'
    ∷ entry opt_upper_mt (codes "MT") required_argument false b' '
    ∷ entry opt_upper_mf (codes "MF") required_argument false b' '
    ∷ entry opt_upper_mmd (codes "MMD") no_argument false b' '
    ∷ entry opt_dashstatic (codes "static") no_argument false b'X'
    ∷ entry opt_gdwarf_4 (codes "gdwarf-4") no_argument false b'X'
    ∷ entry opt_mfentry (codes "mfentry") no_argument false b'X'
    ∷ entry opt_nodefaultlibs (codes "nodefaultlibs") no_argument false b'X'
    ∷ entry opt_nostdinc (codes "nostdinc") no_argument false b'X'
    ∷ entry opt_nostdincpp (codes "nostdinc++") no_argument false b'X'
    ∷ entry opt_nostdlib (codes "nostdlib") no_argument false b'X'
    ∷ entry opt_upper_p (codes "P") no_argument false b'X'
    ∷ entry opt_pedantic (codes "pedantic") no_argument false b'X'
    ∷ entry opt_pg (codes "pg") no_argument false b'X'
    ∷ entry opt_pie (codes "pie") no_argument false b'X'
    ∷ entry opt_pipe (codes "pipe") no_argument false b'X'
    ∷ entry opt_pthread (codes "pthread") no_argument false b'X'
    ∷ entry opt_rdynamic (codes "rdynamic") no_argument false b'X'
    ∷ entry opt_shared (codes "shared") no_argument false b'X'
    ∷ entry opt_u (codes "u") required_argument false b' '
    ∷ entry opt_dumpmachine (codes "dumpmachine") no_argument false b'X'
    ∷ entry opt_dumpversion (codes "dumpversion") no_argument false b'X'
    ∷ entry opt_m32 (codes "m32") no_argument false b'X'
    ∷ entry opt_m64 (codes "m64") no_argument false b'X'
    ∷ entry opt_mavx (codes "mavx") no_argument false b'X'
    ∷ entry opt_mavx2 (codes "mavx2") no_argument false b'X'
    ∷ entry opt_mbmi (codes "mbmi") no_argument false b'X'
    ∷ entry opt_mbmi2 (codes "mbmi2") no_argument false b'X'
    ∷ entry opt_mf16c (codes "mf16c") no_argument false b'X'
    ∷ entry opt_mfma (codes "mfma") no_argument false b'X'
    ∷ entry opt_mmmx (codes "mmmx") no_argument false b'X'
    ∷ entry opt_mno_3dnow (codes "mno-3dnow") no_argument false b'X'
    ∷ entry opt_mno_80387 (codes "mno-80387") no_argument false b'X'
    ∷ entry opt_mno_avx (codes "mno-avx") no_argument false b'X'
    ∷ entry opt_mno_fp_ret_in_387 (codes "mno-fp-ret-in-387") no_argument false b'X'
    ∷ entry opt_mno_mmx (codes "mno-mmx") no_argument false b'X'
    ∷ entry opt_mno_red_zone (codes "mno-red-zone") no_argument false b'X'
    ∷ entry opt_mno_sse (codes "mno-sse") no_argument false b'X'
    ∷ entry opt_mno_sse2 (codes "mno-sse2") no_argument false b'X'
    ∷ entry opt_mpclmul (codes "mpclmul") no_argument false b'X'
    ∷ entry opt_mskip_rax_setup (codes "mskip-rax-setup") no_argument false b'X'
    ∷ entry opt_msoft_float (codes "msoft-float") no_argument false b'X'
    ∷ entry opt_msse (codes "msse") no_argument false b'X'
    ∷ entry opt_msse2 (codes "msse2") no_argument false b'X'
    ∷ entry opt_mssse3 (codes "mssse3") no_argument false b'X'
    ∷ entry opt_msse4_1 (codes "msse4.1") no_argument false b'X'
    ∷ entry opt_msse4_2 (codes "msse4.2") no_argument false b'X'
    ∷ entry opt_include (codes "include") required_argument false b' '
    ∷ entry opt_isystem (codes "isystem") required_argument false b' '
    ∷ entry opt_march (codes "march") required_argument false b'='
    ∷ entry opt_mcmodel (codes "mcmodel") required_argument false b'='
    ∷ entry opt_mtune (codes "mtune") required_argument false b'='
    ∷ entry opt_param (codes "param") required_argument true b' '
    ∷ entry opt_std (codes "std") required_argument false b'='
    ∷ entry opt_xlinker (codes "Xlinker") required_argument false b' '
    ∷ entry opt_mpreferred_stack_boundary (codes "mpreferred-stack-boundary") required_argument
        false b'='
    ∷ entry opt_mno_tls_direct_seg_refs (codes "mno-tls-direct-seg-refs") no_argument false b'X'
    ∷ entry opt_mregparm (codes "mregparm") required_argument false b'='
    ∷ entry opt_print_file_name (codes "print-file-name") required_argument false b'='
    ∷ []

-- The entry of `options_map` for what `getopt_long_only` has returned.
unfoldable pub find_option : ℕ → List GccOptionData → Option GccOptionData
unfolding option_value
find_option opt [] = none
find_option opt (d ∷ ds) =
    let rest = find_option opt ds in if option_value d.option == opt then some d else rest
