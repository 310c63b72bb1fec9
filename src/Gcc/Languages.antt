-- ===== src/Gcc/Languages.antt =====
-- The tables of languages.
use gg.Prelude.{
  All, subst, Bool-cases, >>=-eq-ok, Option-cases, ◌≡◌, refl, sym, ◌↔◌, ◌⊎◌, inl, inr, some, [],
  ◌∷◌, arith, ok, ok-injective, err-ne-ok,
}
use gg.Text.{Bytes, ◌≈◌, eq_of_≈}
use gg.Dict.{Dict, get}
use package.gg.Gcc.{
  GccStage, preprocess, compile, assemble, link, Language, no_language, c, c_header, cpp_output,
  cxx, cxx_header, cxx_cpp_output, assembler, assembler_with_cpp, object, shared_object,
  archive_library, shared_library, name_to_lang, ext_to_lang, name_to_language, language_to_name,
  language_to_stage, filename_to_language, split_source_name,
}

-- What each entry of a table satisfies, what is found in it satisfies.
get_entry :
    {V : Type 0} (P : Bytes → V → Type 0) (m : Dict V) (k : Bytes) (v : V)
    → All (λ (e : Bytes × V). P e.0 e.1) m
    → get m k ≡ some v
    → P k v
unfolding get
get_entry P [] k v a h = cc
get_entry P ((j, w) ∷ m) k v a h = elim (Bool-cases (j ≈ k)) [
  | inl same ↦
      let found : some w ≡ some v = rw same at h in
      subst (λ n. P n v) (eq_of_≈ j k same) (subst (P j) (cc) a.0)
  | inr other ↦ get_entry P m k v a.1 (rw other at h)
]

name_to_language-found :
    (name : Bytes) (l : Language) → name_to_language name ≡ ok l → get name_to_lang name ≡ some l
unfolding name_to_language
name_to_language-found name l h = ground arith

named : (l : Language) (name : Bytes) → language_to_name l ≡ ok name → name_to_language name ≡ ok l
unfolding language_to_name name_to_language get ◌≈◌
named no_language name h = subst (λ n. name_to_language n ≡ ok no_language) (ok-injective h) refl
named c name h = subst (λ n. name_to_language n ≡ ok c) (ok-injective h) refl
named c_header name h = subst (λ n. name_to_language n ≡ ok c_header) (ok-injective h) refl
named cpp_output name h = subst (λ n. name_to_language n ≡ ok cpp_output) (ok-injective h) refl
named cxx name h = subst (λ n. name_to_language n ≡ ok cxx) (ok-injective h) refl
named cxx_header name h = subst (λ n. name_to_language n ≡ ok cxx_header) (ok-injective h) refl
named cxx_cpp_output name h =
    subst (λ n. name_to_language n ≡ ok cxx_cpp_output) (ok-injective h) refl
named assembler name h = subst (λ n. name_to_language n ≡ ok assembler) (ok-injective h) refl
named assembler_with_cpp name h =
    subst (λ n. name_to_language n ≡ ok assembler_with_cpp) (ok-injective h) refl
named object name h = absurd (err-ne-ok _ _ h)
named shared_object name h = absurd (err-ne-ok _ _ h)
named archive_library name h = absurd (err-ne-ok _ _ h)
named shared_library name h = absurd (err-ne-ok _ _ h)

table_names : All (λ (e : Bytes × Language). language_to_name e.1 ≡ ok e.0) name_to_lang
unfolding language_to_name
table_names = (refl, (refl, (refl, (refl, (refl, (refl, (refl, (refl, (refl, tt)))))))))

-- The two tables say the same: the argument of -x names a language exactly where the language has
-- that name.
pub name_to_language_iff :
    (name : Bytes) (l : Language) → (name_to_language name ≡ ok l) ↔ (language_to_name l ≡ ok name)
name_to_language_iff name l = (
  λ h.
      get_entry (λ n m. language_to_name m ≡ ok n) name_to_lang name l table_names
        (name_to_language-found name l h),
  named l name,
)

-- The languages that a file's extension gives.
Staged : Language → Type 0
Staged l = (l ≡ archive_library) ⊎ ((s : GccStage) × (language_to_stage l ≡ ok s))

table_stages : All (λ (e : Bytes × Language). Staged e.1) ext_to_lang
unfolding Staged language_to_stage
table_stages = (
  inr (preprocess, refl),
  (
    inr (preprocess, refl),
    (
      inr (compile, refl),
      (
        inr (preprocess, refl),
        (
          inr (preprocess, refl),
          (
            inr (preprocess, refl),
            (
              inr (preprocess, refl),
              (
                inr (preprocess, refl),
                (
                  inr (preprocess, refl),
                  (
                    inr (compile, refl),
                    (
                      inr (assemble, refl),
                      (
                        inr (preprocess, refl),
                        (
                          inr (preprocess, refl),
                          (
                            inr (link, refl),
                            (
                              inr (link, refl),
                              (inr (link, refl), (inr (link, refl), (inl refl, tt))),
                            ),
                          ),
                        ),
                      ),
                    ),
                  ),
                ),
              ),
            ),
          ),
        ),
      ),
    ),
  ),
)

filename_to_language-cases :
    (basename : Bytes → Bytes) (path : Bytes) (l : Language)
    → filename_to_language basename path ≡ ok l
    → ((extension : Bytes) × (get ext_to_lang extension ≡ some l)) ⊎ (l ≡ shared_object)
unfolding filename_to_language
filename_to_language-cases basename path l h =
    let name = >>=-eq-ok (split_source_name basename path) _ h in
    elim (Option-cases (get ext_to_lang name.0.1)) [
      | inl none_ ↦ inr (ground (arith, name.2, none_))
      | inr found ↦ inl (name.0.1, ground (arith, name.2, found.1))
    ]

-- Where a file's name gives a language, the language has a first stage, unless the file is an
-- archive.
filename_to_language-stage :
    (basename : Bytes → Bytes) (path : Bytes) (l : Language)
    → filename_to_language basename path ≡ ok l
    → (l ≡ archive_library) ⊎ ((s : GccStage) × (language_to_stage l ≡ ok s))
unfolding Staged language_to_stage
filename_to_language-stage basename path l h = elim (filename_to_language-cases basename path l h) [
  | inl entry ↦ get_entry (λ n m. Staged m) ext_to_lang entry.0 l table_stages entry.1
  | inr shared ↦ subst Staged (sym shared) (inr (link, refl))
]
