-- ===== src/Factory.antt =====
-- src/thunk/factory.hh, factory.cc and manifest.cc: how a thunk is made from files. What a file holds is a
-- parameter; what is written and copied is part of the result, in the order in which that is done.
pub mod Created
pub mod Placeholders
use gg.Prelude.{
  ℕ, zero, suc, ◌+◌, ◌≡◌, Bool, true, false, ◌&&◌, not, Option, none, some, List, [], ◌∷◌, ◌++◌,
  map, if◌then◌else◌, is_empty, Result, ok, err, ◌>>=◌,
}
use gg.Text.{Bytes, codes}
use gg.Hash
use gg.Hash.{ObjectType, value, thunk, Digest}
use gg.DataList.{DataItem}
use gg.Thunk.{Function, Thunk, from_data, set_timeout, set_hash, add_link, data_placeholder}
use gg.Thunk.Wire.{Codec, serialize}
use gg.Path.{lexically_normal}
use gg.Placeholder

-- `ThunkFactory::Data`
pub record Data : Type 0 where
  pub filename : Bytes
  pub real_filename : Bytes
  pub hash : Bytes
  pub object_type : ObjectType

-- `ThunkFactory::Output`; the constructor normalizes the name of the file.
pub record Output : Type 0 where
  pub tag : Bytes
  pub filename : Option Bytes

unfoldable pub output_of : Bytes → Bytes → Result Output
output_of tag filename = do
  normal ← lexically_normal filename
  ok (record { tag = tag; filename = some normal })

-- The name and the type of a file that has none yet: a placeholder stands for a thunk.
unfoldable pub identify :
    (Bytes → ObjectType → Bytes) → Bytes → ObjectType → Option Bytes → Bytes × ObjectType
identify hash_file real_filename t none = (hash_file real_filename t, t)
identify hash_file real_filename t (some content_hash) = (content_hash, thunk)

-- The constructor of `Data`; `content` is what a file holds, `hash_file` is `gg::hash::file`, and `left`
-- is what the buffer that a placeholder is read into held before.
unfoldable pub data_of :
    Bytes
    → (Bytes → Bytes)
    → (Bytes → ObjectType → Bytes)
    → Bytes
    → Bytes
    → ObjectType
    → Bytes
    → Result Data
unfolding identify
data_of left content hash_file filename real_filename t [] = do
  normal ← lexically_normal filename
  let real = if is_empty real_filename then normal else real_filename
  placeholder ← Placeholder.read left (content real)
  let identity = identify hash_file real t placeholder
  ok (record {
    filename = normal;
    real_filename = real;
    hash = identity.0;
    object_type = identity.1;
  })
data_of left content hash_file filename real_filename t (x ∷ hash) = do
  normal ← lexically_normal filename
  ok (record {
    filename = normal;
    real_filename = if is_empty real_filename then normal else real_filename;
    hash = x ∷ hash;
    object_type = t;
  })

unfoldable pub item_of : Bool → Data → DataItem
item_of include_filenames d = (d.hash, if include_filenames then d.filename else [])

unfoldable pub add_links : List (Bytes × Bytes) → Thunk → Thunk
add_links [] t = t
add_links ((name, hash) ∷ links) t = add_links links (add_link t name hash)

unfoldable pub create_thunk :
    Function → List Data → List Data → List Output → ℕ → Bool → List (Bytes × Bytes) → Result Thunk
unfolding item_of add_links
create_thunk function inputs executables outputs timeout include_filenames links = do
  t ←
      from_data function (map (item_of include_filenames) inputs)
        (map (item_of include_filenames) executables) (map (λ (o : Output). o.tag) outputs)
  ok (add_links links (set_timeout t timeout))

-- `FileManifest`
pub record FileManifest : Type 0 where
  pub dummy_directories : List Bytes
  pub output_tags : List (Bytes × Bytes)

unfoldable pub serialize_directories : List Bytes → Bytes
serialize_directories [] = []
serialize_directories (entry ∷ entries) =
    codes "D" ++ (0 ∷ entry ++ (0 ∷ serialize_directories entries))

unfoldable pub serialize_tags : List (Bytes × Bytes) → Bytes
serialize_tags [] = []
serialize_tags ((filename, tag) ∷ entries) =
    codes "O" ++ (0 ∷ filename ++ (0 ∷ tag ++ (0 ∷ serialize_tags entries)))

unfoldable pub serialize_manifest : FileManifest → Bytes
unfolding serialize_directories serialize_tags
serialize_manifest m = serialize_directories m.dummy_directories ++ serialize_tags m.output_tags

unfoldable pub normal_directories : List Bytes → Result (List Bytes)
normal_directories [] = ok []
normal_directories (dir ∷ dirs) = do
  normal ← lexically_normal dir
  rest ← normal_directories dirs
  ok (normal ∷ rest)

-- The outputs that have a file.
unfoldable pub tagged_files : List Output → List (Bytes × Bytes)
tagged_files [] = []
tagged_files (o ∷ os) =
    let rest = tagged_files os in elim o.filename [ none ↦ rest | some f ↦ (f, o.tag) ∷ rest ]

-- The bits of `options`.
pub record Options : Type 0 where
  pub generate_manifest : Bool
  pub create_placeholder : Bool
  pub collect_data : Bool
  pub include_filenames : Bool

-- A file that is copied to the directory of blobs, unless it is there.
pub record Copy : Type 0 where
  pub source : Bytes
  pub blob : Bytes
  pub executable : Bool

-- What `generate` does: the name that it returns and the thunk, what it writes under which name, what
-- it copies, and which files become placeholders.
pub record Generated : Type 0 where
  pub hash : Bytes
  pub made : Thunk
  pub blobs : List (Bytes × Bytes)
  pub copies : List Copy
  pub placeholders : List (Bytes × Bytes)

unfoldable pub collect : Bool → List Data → List Copy
collect executable [] = []
collect executable (d ∷ ds) =
    let rest = collect executable ds in
    if is_empty d.real_filename
    then rest
    else record { source = d.real_filename; blob = Hash.base d.hash; executable = executable }
      ∷ rest

-- The file that a placeholder for an output is written to.
unfoldable pub output_file : Output → Bytes
output_file o = elim o.filename [ none ↦ o.tag | some f ↦ f ]

-- The placeholders of the outputs after the first one.
unfoldable pub later_placeholders : Bytes → List Output → List (Bytes × Bytes)
unfolding output_file
later_placeholders hash [] = []
later_placeholders hash (o ∷ os) =
    (output_file o, Placeholder.written (output_file o) (Hash.for_output hash o.tag))
    ∷ later_placeholders hash os

unfoldable pub placeholders_of : Bytes → List Output → List (Bytes × Bytes)
unfolding later_placeholders
placeholders_of hash [] = []
placeholders_of hash (o ∷ os) =
    (output_file o, Placeholder.written (output_file o) hash) ∷ later_placeholders hash os

-- The manifest of the outputs: its text, and the thunk's function with the variable that names it.
unfoldable pub manifest_text : List Output → List Bytes → Result Bytes
unfolding normal_directories serialize_manifest tagged_files
manifest_text outputs dummy_dirs = do
  directories ← normal_directories dummy_dirs
  ok (
      serialize_manifest
        (record { dummy_directories = directories; output_tags = tagged_files outputs }))

unfoldable pub with_manifest : Bytes → Function → Function
with_manifest manifest_hash f = record f {
  envars = f.envars ++ (codes "GG_MANIFEST=" ++ data_placeholder manifest_hash) ∷ [];
}

module _ (d : Digest) (c : Codec) where
  -- The thunk from its parts, with what has been written so far.
  unfoldable pub finish :
      Function
      → List DataItem
      → List Data
      → List Data
      → List Output
      → ℕ
      → Options
      → List (Bytes × Bytes)
      → List (Bytes × Bytes)
      → Result Generated
  unfolding item_of add_links collect placeholders_of
  finish function items inputs executables outputs timeout options links blobs = do
    t ←
        from_data function items (map (item_of options.include_filenames) executables)
          (map (λ (o : Output). o.tag) outputs)
    let linked = add_links links (set_timeout t timeout)
    let hash = Hash.compute d (serialize c linked) thunk
    ok (record {
      hash = hash;
      made = set_hash linked hash;
      blobs = blobs ++ (hash, serialize c linked) ∷ [];
      copies =
          if options.collect_data then collect false inputs ++ collect true executables else [];
      placeholders = if options.create_placeholder then placeholders_of hash outputs else [];
    })

  unfoldable pub generate :
      Function
      → List Data
      → List Data
      → List Output
      → List Bytes
      → ℕ
      → Options
      → List (Bytes × Bytes)
      → Result Generated
  unfolding finish manifest_text with_manifest
  generate function inputs executables outputs dummy_dirs timeout options links =
      let items = map (item_of options.include_filenames) inputs in
      if options.generate_manifest
      then (do
        text ← manifest_text outputs dummy_dirs
        let manifest_hash = Hash.compute d text value
        finish (with_manifest manifest_hash function) (items ++ (manifest_hash, []) ∷ []) inputs
            executables outputs timeout options links ((manifest_hash, text) ∷ []))
      else finish function items inputs executables outputs timeout options links []
