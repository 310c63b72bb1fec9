-- ===== src/Thunk/Queries.antt =====
-- The rest of src/thunk/thunk.cc and function.cc that computes: comparison, the names of outputs
-- and of the executables, and the size of what a thunk reads.
use gg.Prelude.{
  ℕ, ◌+◌, ◌%◌, ◌^◌, ◌≡◌, refl, Bool, true, false, ◌&&◌, none, List, [], ◌∷◌, ◌++◌, arith, ◌==◌,
  if◌then◌else◌, Result, ok, ◌>>=◌,
}
use gg.Text.{Bytes, ◌≈◌, eq_of_≈}
use gg.DataList.{DataItem, DataList, emplace_all}
use gg.Hash
use gg.Hash.{Digest}
use gg.Thunk.{Function, Thunk, throw_if_error}
use gg.Thunk.Wire.{Codec, hash}

-- `Thunk( function, values, thunks, executables, outputs )`
unfoldable pub from_parts :
    Function → List DataItem → List DataItem → List DataItem → List Bytes → Result Thunk
unfolding throw_if_error
from_parts function values thunks executables outputs = throw_if_error (record {
  function = function;
  values = emplace_all [] values;
  thunks = emplace_all [] thunks;
  executables = emplace_all [] executables;
  outputs = outputs;
  links = [];
  timeout = 0;
  hash_ = none;
})

unfoldable pub texts_equal : List Bytes → List Bytes → Bool
texts_equal [] [] = true
texts_equal [] (t ∷ ts) = false
texts_equal (s ∷ ss) [] = false
texts_equal (s ∷ ss) (t ∷ ts) = s ≈ t && texts_equal ss ts

unfoldable pub items_equal : DataList → DataList → Bool
items_equal [] [] = true
items_equal [] (t ∷ ts) = false
items_equal (s ∷ ss) [] = false
items_equal (s ∷ ss) (t ∷ ts) = (s.0 ≈ t.0 && s.1 ≈ t.1) && items_equal ss ts

-- `Function::operator==`
unfoldable pub functions_equal : Function → Function → Bool
unfolding texts_equal
functions_equal f g =
    f.hash ≈ g.hash && (texts_equal f.args g.args && texts_equal f.envars g.envars)

-- `Thunk::operator==`; the links and the cached names are not compared.
unfoldable pub thunks_equal : Thunk → Thunk → Bool
unfolding functions_equal items_equal
thunks_equal t u =
    functions_equal t.function u.function
    && (items_equal t.values u.values
        && (items_equal t.thunks u.thunks
            && (items_equal t.executables u.executables
                && (texts_equal t.outputs u.outputs && t.timeout == u.timeout))))

-- The names of the items, one after the other.
unfoldable pub combined_hashes : DataList → Bytes
combined_hashes [] = []
combined_hashes (item ∷ items) = item.0 ++ combined_hashes items

unfoldable pub executable_hash : Digest → Thunk → Bytes
unfolding combined_hashes
executable_hash d t = d.sha256 (combined_hashes t.executables)

unfoldable pub output_hash : Digest → Codec → Bytes → Thunk → Bytes
unfolding hash
output_hash d c tag t = Hash.for_output (hash d c t).0 tag

-- The sum of the sizes that the names say, as a `size_t`, on top of `total`.
unfoldable pub add_sizes : DataList → ℕ → Result ℕ
add_sizes [] total = ok total
add_sizes (item ∷ items) total = do n ← Hash.size item.0; add_sizes items ((total + n) % 2 ^ 64)

unfoldable pub infiles_size : Bool → Thunk → Result ℕ
unfolding add_sizes
infiles_size include_executables t = do
  total ← add_sizes t.values 0
  if include_executables then add_sizes t.executables total else ok total

texts_equal_sound : (s t : List Bytes) → texts_equal s t ≡ true → s ≡ t
unfolding texts_equal
texts_equal_sound [] [] h = refl
texts_equal_sound [] (y ∷ t) h = ground arith
texts_equal_sound (x ∷ s) [] h = ground arith
texts_equal_sound (x ∷ s) (y ∷ t) h = ground (arith, eq_of_≈ x y, texts_equal_sound s t)

items_equal_sound : (s t : DataList) → items_equal s t ≡ true → s ≡ t
unfolding items_equal
items_equal_sound [] [] h = refl
items_equal_sound [] (y ∷ t) h = ground arith
items_equal_sound (x ∷ s) [] h = ground arith
items_equal_sound ((a, b) ∷ s) ((c, d) ∷ t) h =
    ground (arith, eq_of_≈ a c, eq_of_≈ b d, items_equal_sound s t)

functions_equal_sound : (f g : Function) → functions_equal f g ≡ true → f ≡ g
unfolding functions_equal
functions_equal_sound f g h = ground (
  arith,
  eq_of_≈ f.hash g.hash,
  texts_equal_sound f.args g.args,
  texts_equal_sound f.envars g.envars,
)

-- Thunks that compare equal differ in their links and their cached names at most.
pub thunks_equal_sound :
    (t u : Thunk) → thunks_equal t u ≡ true → record t { links = u.links; hash_ = u.hash_ } ≡ u
unfolding thunks_equal
thunks_equal_sound t u h = ground (
  arith,
  functions_equal_sound t.function u.function,
  items_equal_sound t.values u.values,
  items_equal_sound t.thunks u.thunks,
  items_equal_sound t.executables u.executables,
  texts_equal_sound t.outputs u.outputs,
)
