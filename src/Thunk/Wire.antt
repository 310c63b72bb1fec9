-- ===== src/Thunk/Wire.antt =====
-- src/thunk/thunk.cc (`to_protobuf`, `string_to_data`, `hash`), thunk_writer.cc and thunk_reader.cc:
-- a thunk as bytes. The protobuf encoding is protoc's: a parameter.
pub mod RoundTrip
pub mod Fresh
use gg.Prelude.{
  ℕ, suc, ◌+◌, ◌%◌, ◌^◌, ◌≡◌, Bool, true, false, not, Option, none, some, List, [], ◌∷◌, ◌++◌, map,
  if◌then◌else◌, length, take, drop, is_empty, Result, ok, ◌>>=◌,
}
use gg.Text.{Bytes, codes, find}
use gg.DataList.{DataItem, DataList, emplace_all}
use gg.Hash.{Digest, thunk}
use gg.Hash
use gg.Thunk.{Function, Thunk, throw_if_error, set_hash}

-- The message `gg.protobuf.Thunk`; `timeout` is a `uint32`.
pub record ProtoThunk : Type 0 where
  pub function : Function
  pub values : List Bytes
  pub thunks : List Bytes
  pub executables : List Bytes
  pub outputs : List Bytes
  pub links : List (Bytes × Bytes)
  pub timeout : ℕ

-- `AppendToString` and `ParseFromCodedStream`, whose result the reader does not test.
pub record Codec : Type 0 where
  pub encode : ProtoThunk → Bytes
  pub decode : Bytes → ProtoThunk
  pub decode-encode : (p : ProtoThunk) → decode (encode p) ≡ p

unfoldable pub data_to_string : DataItem → Bytes
data_to_string item = if not (is_empty item.1) then item.0 ++ b'=' ∷ item.1 else item.0

unfoldable pub string_to_data : Bytes → DataItem
string_to_data str = elim (find (b'=' ∷ []) str) [
  | none ↦ (str, [])
  | some eqpos ↦ (take eqpos str, drop (suc eqpos) str)
]

unfoldable pub to_protobuf : Thunk → ProtoThunk
unfolding data_to_string
to_protobuf t = record {
  function = t.function;
  values = map data_to_string t.values;
  thunks = map data_to_string t.thunks;
  executables = map data_to_string t.executables;
  outputs = t.outputs;
  links = t.links;
  timeout = t.timeout % 2 ^ 32;
}

-- `Thunk( thunk_proto )`
unfoldable pub from_protobuf : ProtoThunk → Result Thunk
unfolding string_to_data throw_if_error
from_protobuf p = throw_if_error (record {
  function = p.function;
  values = emplace_all [] (map string_to_data p.values);
  thunks = emplace_all [] (map string_to_data p.thunks);
  executables = emplace_all [] (map string_to_data p.executables);
  outputs = p.outputs;
  links = p.links;
  timeout = p.timeout;
  hash_ = none;
})

abbrev pub magic_number : Bytes
magic_number = codes "##GGTHUNK##"

module _ (c : Codec) where
  -- `ThunkWriter::serialize`
  unfoldable pub serialize : Thunk → Bytes
  unfolding to_protobuf
  serialize t = magic_number ++ c.encode (to_protobuf t)

  -- `ThunkReader::read`, on the contents of the file.
  unfoldable pub read : Bytes → Bytes → Result Thunk
  unfolding from_protobuf
  read contents hash = do
    t ← from_protobuf (c.decode (drop (length magic_number) contents))
    ok (if not (is_empty hash) then set_hash t hash else t)

-- `Thunk::hash` fills the cache: the name, and the thunk after the call.
module _ (d : Digest) (c : Codec) where
  unfoldable pub hash_or_compute : Option Bytes → Thunk → Bytes × Thunk
  hash_or_compute (some h) t = (h, t)
  hash_or_compute none t = let h = Hash.compute d (serialize c t) thunk in (h, set_hash t h)

  unfoldable pub hash : Thunk → Bytes × Thunk
  hash t = hash_or_compute t.hash_ t
