-- ===== src/Tokenize.antt =====
-- src/util/tokenize.hh: `split`. The proofs are in the modules below.
pub mod Parts
pub mod Join
use gg.Prelude.{
  ℕ, zero, suc, ◌+◌, ◌-◌, ◌%◌, ◌^◌, Option, none, some, List, [], ◌∷◌, Result, ok, ◌>>=◌, length,
}
use gg.Text.{Bytes, find_at, substr, substr_from}

-- `while ( ( next = str.find( separator, next ) ) != npos ) { indices.push_back( next ); next++; }`
separator_indices : ℕ → Bytes → Bytes → ℕ → List ℕ
separator_indices zero str separator next = []
separator_indices (suc fuel) str separator next = elim (find_at separator str next) [
  | none ↦ []
  | some i ↦ i ∷ separator_indices fuel str separator (i + 1)
]

-- The inner tokens, then the last one. The length of an inner token is computed in `size_t`.
later_tokens : Bytes → ℕ → ℕ → List ℕ → Result (List Bytes)
later_tokens str width i [] = do last ← substr_from str (i + width); ok (last ∷ [])
later_tokens str width i (j ∷ rest) = do
  token ← substr str (i + width) ((j + 2 ^ 64 + 2 ^ 64 - i - width) % 2 ^ 64)
  others ← later_tokens str width j rest
  ok (token ∷ others)

tokens : Bytes → ℕ → List ℕ → Result (List Bytes)
unfolding later_tokens
tokens str width [] = ok (str ∷ [])
tokens str width (i ∷ rest) = do
  first ← substr str 0 i
  others ← later_tokens str width i rest
  ok (first ∷ others)

-- Each round starts one byte further, so one round for each byte and one for the end are enough.
unfoldable pub split : Bytes → Bytes → Result (List Bytes)
unfolding separator_indices tokens
split str separator =
    tokens str (length separator) (separator_indices (length str + 2) str separator 0)
