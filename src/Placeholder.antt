-- ===== src/Placeholder.antt =====
-- src/thunk/placeholder.hh and placeholder.cc: the files that stand for outputs that are still to be
-- made. A file is its contents.
pub mod RoundTrip
use gg.Prelude.{
  ℕ, zero, suc, ◌+◌, ◌≡◌, Bool, true, false, ◌||◌, ◌&&◌, not, Option, none, some, List, [], ◌∷◌,
  ◌++◌, ◌==◌, leb, ltb, if◌then◌else◌, is_empty, length, take, drop, Result, ok, err, runtime_error,
}
use gg.Text.{Bytes, codes, ◌≈◌, starts_with}
use gg.Gcc.{find_last_of, so_pattern}

pub data PlaceholderType : Type 0 where
  linker_script shell_script : PlaceholderType

abbrev pub shebang_directive : Bytes
shebang_directive = codes "#!/usr/bin/env gg-force-and-run"

abbrev pub library_directive : Bytes
library_directive = codes "OUTPUT_FORMAT(" ++ (b'"' ∷ codes "elf64-x86-64" ++ (b'"' ∷ codes ")/*"))

unfoldable pub directive : PlaceholderType → Bytes
directive linker_script = library_directive
directive shell_script = shebang_directive

unfoldable pub trailer : PlaceholderType → Bytes
trailer linker_script = codes "*/"
trailer shell_script = []

-- The text of a placeholder for the object with the name `content_hash`.
unfoldable pub str : PlaceholderType → Bytes → Bytes
unfolding directive trailer
str t content_hash = directive t ++ (10 ∷ content_hash ++ (10 ∷ trailer t))

-- What `isspace` says in the C locale.
unfoldable pub is_space : ℕ → Bool
is_space c = c == 32 || (leb 9 c && leb c 13)

unfoldable pub skip_spaces : Bytes → Bytes
unfolding is_space
skip_spaces [] = []
skip_spaces (c ∷ s) = let rest = skip_spaces s in if is_space c then rest else c ∷ s

-- A word and what follows it.
unfoldable pub take_word : Bytes → Bytes × Bytes
unfolding is_space
take_word [] = ([], [])
take_word (c ∷ s) =
    let rest = take_word s in if is_space c then ([], c ∷ s) else (c ∷ rest.0, rest.1)

-- The buffer on the stack, which held `left`, once the front of the file has been read into it.
unfoldable pub buffer_of : Bytes → Bytes → Bytes
buffer_of left content =
    let n = length shebang_directive + 1 in take n content ++ drop (length (take n content)) left

unfoldable pub has_directive : Bytes → Bool
has_directive content =
    starts_with shebang_directive content || starts_with library_directive content

-- `fin >> hash`, which is good where there is a word and the file goes on after it.
unfoldable pub read_hash : Bytes → Result (Option Bytes)
unfolding skip_spaces take_word
read_hash content =
    let word = take_word (skip_spaces content) in
    if is_empty word.0 || is_empty word.1
    then err (runtime_error "failed reading from ")
    else ok (some word.0)

-- The directive is read with the byte behind it; where there is none, the stream is not good. The buffer is
-- compared to its end, whatever has been read; `left` is what it held before.
unfoldable pub read : Bytes → Bytes → Result (Option Bytes)
unfolding buffer_of has_directive read_hash
read left content =
    if not (has_directive (buffer_of left content))
    then ok none
    else if ltb (length content) (length shebang_directive + 1)
    then err (runtime_error "failed reading from ")
    else read_hash (drop (length shebang_directive + 1) content)

unfoldable pub is_placeholder : Bytes → Bool
is_placeholder content =
    let header = take (length shebang_directive) content in
    header ≈ shebang_directive || header ≈ library_directive

-- `filename.substr( pos + 1 )`, where no dot means the whole name.
unfoldable pub extension : Bytes → Bytes
unfolding find_last_of
extension filename = elim (find_last_of b'.' filename) [
  | none ↦ filename
  | some pos ↦ drop (pos + 1) filename
]

unfoldable pub is_linked : Bytes → Bool
is_linked s =
    s ≈ codes "so"
    || (s ≈ codes "a" || (s ≈ codes "o" || (s ≈ codes "s" || (s ≈ codes "S" || s ≈ codes "sho"))))

-- The type that `write` takes for a file's name.
unfoldable pub placeholder_type : Bytes → PlaceholderType
unfolding extension is_linked so_pattern
placeholder_type filename =
    if is_linked (extension filename) || so_pattern false filename
    then linker_script
    else shell_script

-- What `write` puts into the file.
unfoldable pub written : Bytes → Bytes → Bytes
unfolding placeholder_type str
written filename content_hash = str (placeholder_type filename) content_hash
