-- ===== src/Path.antt =====
-- src/util/path.cc: `lexically_normal` and `path_components`.
pub mod Rooted
use gg.Prelude.{
  ℕ, ◌+◌, ◌-◌, ◌≡◌, refl, Bool, true, false, ◌||◌, ◌&&◌, not, Option, none, some, List, [], ◌∷◌,
  ◌++◌, map, reverse, if◌then◌else◌, ltb, length, take, is_empty, Result, ok, err, ◌>>=◌,
}
use gg.Text.{Bytes, codes, ◌≈◌}
use gg.Tokenize.{split}

unfoldable pub path_components : Bytes → Result (List Bytes)
path_components path = split path (b'/' ∷ [])

abbrev pub dot_dot : Bytes
dot_dot = b'.' ∷ b'.' ∷ []

abbrev pub dot : Bytes
dot = b'.' ∷ []

-- What `..` does to the components so far, the last one first: it goes up, unless there is nothing
-- to go up from; the root stays.
unfoldable pub go_up : List Bytes → List Bytes
go_up [] = dot_dot ∷ []
go_up (last ∷ rest) =
    if last ≈ dot_dot then dot_dot ∷ last ∷ rest else if is_empty last then last ∷ rest else rest

-- The body of the loop over the components.
unfoldable pub visit : Bytes → List Bytes → List Bytes
unfolding go_up
visit component normalized =
    if component ≈ dot_dot
    then go_up normalized
    else if component ≈ dot || is_empty component
    then normalized
    else component ∷ normalized

unfoldable pub normalize : List Bytes → List Bytes → List Bytes
unfolding visit
normalize normalized [] = normalized
normalize normalized (component ∷ components) = normalize (visit component normalized) components

-- Each component with a slash behind it.
unfoldable pub write_components : List Bytes → Bytes
write_components [] = []
write_components (c ∷ cs) = c ++ b'/' ∷ write_components cs

-- The slash at the end goes, unless it is all there is.
unfoldable pub trim : Bytes → Bytes
trim p = if ltb 1 (length p) then take (length p - 1) p else p

unfoldable pub start : List Bytes → List Bytes
start [] = []
start (first ∷ rest) = if is_empty first then [] ∷ [] else []

unfoldable pub lexically_normal : Bytes → Result Bytes
unfolding path_components normalize write_components trim start
lexically_normal path = do
  components ← path_components path
  ok (
      if is_empty components
      then []
      else trim (write_components (reverse (normalize (start components) components))))
