-- ===== src/Thunk/Wire/RoundTrip.antt =====
-- A thunk that is written is read back.
use gg.Prelude.{
  ℕ, suc, ◌≡◌, refl, false, not, [], ◌∷◌, ◌++◌, arith, if◌then◌else◌, length, drop, is_empty, All,
  take-append,
}
use gg.Text.{Bytes, Lacks, find_byte, find_byte-none}
use gg.DataList.{DataItem, DataList, IsSorted}
use gg.Thunk.{Thunk, set_hash}
use gg.Thunk.Wire.{data_to_string, string_to_data}

-- The names are free of `=`, as computed names are.
abbrev pub KeysLackEq : DataList → Type 0
KeysLackEq = All (λ x. Lacks b'=' x.0)

drop-suc : (k v : Bytes) (c : ℕ) → drop (suc (length k)) (k ++ c ∷ v) ≡ v
drop-suc [] v c = refl
drop-suc (x ∷ k) v c = drop-suc k v c

-- An item with a name free of `=` is read back from its text.
pub string_to_data-data_to_string :
    (x : DataItem) → Lacks b'=' x.0 → string_to_data (data_to_string x) ≡ x
unfolding data_to_string string_to_data
string_to_data-data_to_string (k, []) l = rw (find_byte-none b'=' k l, string_to_data)
string_to_data-data_to_string (k, c ∷ v) l =
    rw (find_byte b'=' k (c ∷ v) l, string_to_data)
      (ground (arith, take-append k (b'=' ∷ c ∷ v) (length k), drop-suc k (c ∷ v) b'='))

-- What every constructor of a thunk gives.
pub record IsWellFormed (t : Thunk) : Type 0 where
  pub has_output : is_empty t.outputs ≡ false
  pub has_executable : is_empty t.executables ≡ false
  pub has_argument : is_empty t.function.args ≡ false
  pub values_sorted : IsSorted t.values
  pub thunks_sorted : IsSorted t.thunks
  pub executables_sorted : IsSorted t.executables
  pub values_names : KeysLackEq t.values
  pub thunks_names : KeysLackEq t.thunks
  pub executables_names : KeysLackEq t.executables

abbrev named : Bytes → Thunk → Thunk
named name t = if not (is_empty name) then set_hash t name else t
