-- ===== src/Thunk.antt =====
-- src/thunk/thunk.hh, thunk.cc and function.cc: a thunk, its constructors and its operations.
-- Moves and copies of the same constructor are one function.
pub mod Wire
pub mod Update
pub mod Files
pub mod Queries
use gg.Prelude.{
  ℕ, zero, suc, ◌+◌, ◌-◌, ◌≡◌, Bool, true, false, ◌&&◌, ◌||◌, not, Option, none, some, List, [],
  ◌∷◌, ◌++◌, map, leb, ltb, ◌==◌, if◌then◌else◌, length, take, drop, is_empty, Result, ok, err,
  runtime_error, ◌>>=◌, ◌>>◌, guard,
}
use gg.Text.{Bytes, codes, ◌≈◌, find, find_at, substr, substr_from}
use gg.DataList.{DataItem, DataList, emplace, emplace_all, names_of, erase_key}
use gg.Hash
use gg.Hash.{ObjectType, value, thunk, Digest}

pub record Function : Type 0 where
  pub hash : Bytes
  pub args : List Bytes
  pub envars : List Bytes

-- `hash_` is the cached name of the thunk.
pub record Thunk : Type 0 where
  pub function : Function
  pub values : DataList
  pub thunks : DataList
  pub executables : DataList
  pub outputs : List Bytes
  pub links : List (Bytes × Bytes)
  pub timeout : ℕ
  pub hash_ : Option Bytes

pub record ThunkOutput : Type 0 where
  pub hash : Bytes
  pub tag : Bytes

-- `data_placeholder`
unfoldable pub data_placeholder : Bytes → Bytes
data_placeholder hash = codes "@{GGHASH:" ++ (hash ++ codes "}")

-- `throw_if_error`, the last step of every constructor.
unfoldable pub throw_if_error : Thunk → Result Thunk
throw_if_error t = do
  guard (not (is_empty t.outputs)) (runtime_error "a thunk needs at least one output")
  guard (not (is_empty t.executables)) (runtime_error "a thunk needs at least one executable")
  guard (not (is_empty t.function.args))
      (runtime_error "a thunk needs at least one argument (argv0)")
  ok t

-- The loop that sorts data items into values and thunks by the type that their names say.
unfoldable pub classify : DataList → DataList → List DataItem → Result (DataList × DataList)
classify values thunks [] = ok (values, thunks)
classify values thunks (item ∷ items) = elim (Hash.type item.0) [
  | ok value ↦ classify (emplace values item) thunks items
  | ok thunk ↦ classify values (emplace thunks item) items
  | err e ↦ err e
]

-- `Thunk( function, data, executables, outputs )`
unfoldable pub from_data : Function → List DataItem → List DataItem → List Bytes → Result Thunk
unfolding classify throw_if_error
from_data function items executables outputs = do
  sorted ← classify [] [] items
  throw_if_error (record {
    function = function;
    values = sorted.0;
    thunks = sorted.1;
    executables = emplace_all [] executables;
    outputs = outputs;
    links = [];
    timeout = 0;
    hash_ = none;
  })

unfoldable pub set_timeout : Thunk → ℕ → Thunk
set_timeout t timeout = record t { timeout = timeout; hash_ = none }

unfoldable pub add_link : Thunk → Bytes → Bytes → Thunk
add_link t name hash = record t { links = t.links ++ (name, hash) ∷ []; hash_ = none }

unfoldable pub set_hash : Thunk → Bytes → Thunk
set_hash t hash = record t { hash_ = some hash }

unfoldable pub can_be_executed : Thunk → Bool
can_be_executed t = is_empty t.thunks

-- `update_placeholder`: `find`, `replace`, and on behind what was put in.
unfoldable pub replace_from : ℕ → Bytes → Bytes → Bytes → ℕ → Bytes
replace_from zero str src dst index = str
replace_from (suc fuel) str src dst index = elim (find_at src str index) [
  | none ↦ str
  | some i ↦
      replace_from fuel (take i str ++ (dst ++ drop (i + length src) str)) src dst (i + length dst)
]

-- Every round leaves fewer bytes behind the index, so the length of the text is fuel enough.
unfoldable pub update_placeholder : Bytes → Bytes → Bytes → Bytes
unfolding replace_from
update_placeholder src dst str = replace_from (length str + 1) str src dst 0

-- The items of an output's dependents, under the new name.
unfoldable pub reinsert : Bytes → List Bytes → Thunk → Result Thunk
reinsert new_hash [] t = ok t
reinsert new_hash (name ∷ names) t = elim (Hash.type new_hash) [
  | ok thunk ↦ reinsert new_hash names (record t { thunks = emplace t.thunks (new_hash, name) })
  | ok value ↦ reinsert new_hash names (record t { values = emplace t.values (new_hash, name) })
  | err e ↦ err e
]

unfoldable pub replace_placeholders : Bytes → Bytes → Thunk → Thunk
unfolding update_placeholder
replace_placeholders old_hash new_hash t =
    let update = update_placeholder (data_placeholder old_hash) (data_placeholder new_hash) in
    record t {
      function = record {
        hash = t.function.hash;
        args = map update t.function.args;
        envars = map update t.function.envars;
      };
    }

-- The name under which dependents know an output: the first one has no tag.
unfoldable pub old_name : Bytes → Bool → ThunkOutput → Bytes
old_name original_hash first output =
    if first then original_hash else Hash.for_output original_hash output.tag

unfoldable pub new_name : Bool → ThunkOutput → Result Bytes
new_name true output = ok output.hash
new_name false output = elim (Hash.type output.hash) [
  | ok value ↦ ok output.hash
  | ok thunk ↦ ok (Hash.for_output output.hash output.tag)
  | err e ↦ err e
]

unfoldable pub update_output : Bytes → Bool → ThunkOutput → Thunk → Result Thunk
update_output original_hash first output t = do
  let old_hash = old_name original_hash first output
  new_hash ← new_name first output
  let old_names = names_of old_hash t.thunks
  moved ← reinsert new_hash old_names (record t { thunks = erase_key old_hash t.thunks })
  ok (replace_placeholders old_hash new_hash moved)

unfoldable pub update_outputs : Bytes → Bool → List ThunkOutput → Thunk → Result Thunk
update_outputs original_hash first [] t = ok t
update_outputs original_hash first (output ∷ outputs) t = do
  t' ← update_output original_hash first output t
  update_outputs original_hash false outputs t'

-- `update_data`: the cached name is dropped first.
unfoldable pub update_data : Thunk → Bytes → List ThunkOutput → Result Thunk
unfolding update_outputs
update_data t original_hash outputs =
    update_outputs original_hash true outputs (record t { hash_ = none })
