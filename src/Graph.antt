-- ===== src/Graph.antt =====
-- src/thunk/graph.cc and graph.hh: the graph of the thunks that are still to be reduced. The blob
-- directory, which the graph reads and writes, is a table of contents beside the maps.
pub mod Chains
pub mod OrderOne
use gg.Prelude.{
  ℕ, zero, suc, ◌≡◌, Bool, true, false, not, Option, none, some, List, [], ◌∷◌, ◌++◌, map,
  if◌then◌else◌, Result, ok, err, out_of_fuel, runtime_error, unix_error, out_of_range, ◌>>=◌,
}
use gg.Text.{Bytes, ◌≈◌}
use gg.Dict.{Dict, TextSet, get, put, emplace, erase, contains, at, add, add_all}
use gg.DataList.{DataItem, DataList}
use gg.Hash
use gg.Hash.{ObjectType, value, thunk, Digest, base}
use gg.Thunk.{Thunk, ThunkOutput, can_be_executed, update_data, set_hash}
use gg.Thunk.Wire.{Codec, read, serialize}

pub record Graph : Type 0 where
  pub thunks : Dict Thunk
  pub referencing : Dict TextSet
  pub value_dependencies : TextSet
  pub executable_dependencies : TextSet
  pub original_hashes : Dict Bytes
  pub updated_hashes : Dict Bytes
  pub blobs : Dict Bytes

abbrev value_or {ℓ} : {A : Type ℓ} → Option A → A → A
value_or none a = a
value_or (some b) a = b

unfoldable pub updated_hash : Graph → Bytes → Bytes
updated_hash g h = value_or (get g.updated_hashes h) h

unfoldable pub original_hash : Graph → Bytes → Bytes
original_hash g h = value_or (get g.original_hashes h) h

-- The names of an item's keys, added to a set.
unfoldable pub add_names : TextSet → DataList → TextSet
add_names s [] = s
add_names s (item ∷ items) = add_names (add s item.0) items

-- `referencing_thunks_[ k ].emplace( h )`
unfoldable pub add_reference : Graph → Bytes → Bytes → Graph
add_reference g k h = record g {
  referencing = put g.referencing k (add (value_or (get g.referencing k) []) h);
}

-- A renamed dependency: its name in the thunk, and its name now.
abbrev pub Renaming : Type 0
Renaming = Bytes × Bytes

-- The loop over a thunk's dependencies in `add_thunk`; `enter` is the recursive call.
unfoldable pub add_items :
    (Bytes → Graph → Result (Bytes × Graph))
    → Bytes
    → DataList
    → List Renaming
    → Graph
    → Result (List Renaming × Graph)
add_items enter hash [] updates g = ok (updates, g)
add_items enter hash (item ∷ items) updates g = do
  entered ← enter (base item.0) g
  let g' = add_reference entered.1 entered.0 hash
  add_items enter hash items
      (if entered.0 ≈ base item.0 then updates else updates ++ (base item.0, entered.0) ∷ []) g'

outputs_of : Bytes → List Bytes → List ThunkOutput
outputs_of hash = map λ tag. record { hash = hash; tag = tag }

-- The loop over the renamed dependencies. The tags are those of the thunk that is added.
unfoldable pub apply_updates : List Renaming → Thunk → Result Thunk
unfolding outputs_of
apply_updates [] t = ok t
apply_updates (u ∷ updates) t = do
  t' ← update_data t u.0 (outputs_of u.1 t.outputs)
  apply_updates updates t'

-- The loop over the thunks that reference a renamed one.
unfoldable pub update_references : Bytes → List ThunkOutput → TextSet → Graph → Result Graph
update_references old_hash outputs [] g = ok g
update_references old_hash outputs (r ∷ rs) g = do
  t ← at g.thunks r
  t' ← update_data t old_hash outputs
  update_references old_hash outputs rs (record g { thunks = put g.thunks r t' })

-- The hash chain: what a thunk was first called, and what it is called now.
unfoldable pub update_chain : Bytes → Bytes → Graph → Graph
update_chain old_hash new_hash g = elim (get g.original_hashes old_hash) [
  | none ↦ record g {
    original_hashes = put g.original_hashes new_hash old_hash;
    updated_hashes = put g.updated_hashes old_hash new_hash;
  }
  | some original ↦ record g {
    original_hashes = erase (put g.original_hashes new_hash original) old_hash;
    updated_hashes = put g.updated_hashes original new_hash;
  }
]

-- The chain is extended only by a thunk.
unfoldable pub chain_thunk : ObjectType → Bytes → Bytes → Graph → Graph
chain_thunk thunk old_hash new_hash g = update_chain old_hash new_hash g
chain_thunk value old_hash new_hash g = g

-- `update_hash`; the first output is an argument of its own, since `outputs.front()` needs one.
unfoldable pub update_hash : Bytes → ThunkOutput → List ThunkOutput → Graph → Result Graph
unfolding chain_thunk update_chain update_references
update_hash old_hash first rest g = do
  new_type ← Hash.type first.hash
  let chained = chain_thunk new_type old_hash first.hash g
  refs ← at chained.referencing old_hash
  g' ← update_references old_hash (first ∷ rest) refs chained
  ok (record g' {
    thunks = erase g'.thunks old_hash;
    referencing = erase (put g'.referencing first.hash refs) old_hash;
  })

module _ (d : Digest) (c : Codec) where
  load : Graph → Bytes → Result Thunk
  load g hash = elim (get g.blobs hash) [
    | none ↦ err (unix_error "open")
    | some contents ↦ read c contents hash
  ]

  -- `add_thunk`
  unfoldable pub add_thunk : ℕ → Bytes → Graph → Result (Bytes × Graph)
  unfolding load add_items apply_updates
  add_thunk zero full_hash g = err out_of_fuel
  add_thunk (suc fuel) full_hash g =
      let hash = base full_hash in
      let updated = updated_hash g hash in
      let enter : Result (Bytes × Graph) = (do
        t ← load g hash
        entered ← add_items (add_thunk fuel) hash t.thunks [] (record g {
          referencing = emplace g.referencing hash [];
          value_dependencies = add_names g.value_dependencies t.values;
          executable_dependencies = add_names g.executable_dependencies t.executables;
        })
        t' ← apply_updates entered.0 t
        ok (hash, record (entered.1) { thunks = emplace entered.1.thunks hash t' })) in
      if contains g.thunks updated
      then ok (updated, g)
      else if contains g.thunks hash
      then ok (hash, g)
      else enter

  -- `ThunkWriter::write`: the name of the thunk, and the directory with its contents.
  unfoldable pub write_blob : Thunk → Graph → Bytes × Graph
  write_blob t g =
      let contents = serialize c t in
      let hash = Hash.compute d contents thunk in
      (hash, record g { blobs = emplace g.blobs hash contents })

  -- What `force_thunk` does with a thunk whose dependencies are all values now.
  unfoldable pub promote : Bytes → Thunk → Graph → Result (Bytes × Graph)
  unfolding write_blob outputs_of
  promote r t g = do
    let written = write_blob t g
    let new_hash = written.0
    let entered = record (written.1) {
      thunks = emplace written.1.thunks new_hash (set_hash t new_hash);
    }
    g' ← elim (outputs_of new_hash t.outputs) [
      | [] ↦ err (out_of_range "front")
      | first ∷ rest ↦ update_hash r first rest entered
    ]
    ok (new_hash, g')

  unfoldable pub promote_all : TextSet → TextSet → Graph → Result (TextSet × Graph)
  unfolding promote
  promote_all [] next g = ok (next, g)
  promote_all (r ∷ rs) next g = do
    t ← at g.thunks r
    let later = promote_all rs next g
    let now = promote r t g >>= λ done. promote_all rs (add next done.0) done.1
    if can_be_executed t then now else later

-- The union of the dependencies' results; `visit` is the recursive call.
unfoldable pub gather : (Bytes → Result TextSet) → DataList → TextSet → Result TextSet
gather visit [] result = ok result
gather visit (item ∷ items) result = do sub ← visit item.0; gather visit items (add_all result sub)

unfoldable pub order_one : ℕ → Graph → Bytes → Result TextSet
unfolding gather
order_one zero g input_hash = err out_of_fuel
order_one (suc fuel) g input_hash =
    let hash = base input_hash in
    elim (get g.thunks hash) [
      | none ↦ err (runtime_error "thunk hash not found in the execution graph")
      | some t ↦
          let deeper = gather (order_one fuel g) t.thunks [] in
          if can_be_executed t then ok (hash ∷ []) else deeper
    ]

module _ (d : Digest) (c : Codec) where
  -- A thunk that an execution returned joins the graph.
  unfoldable pub enter_output : ℕ → ObjectType → Bytes → Graph → Result (Bytes × Graph)
  enter_output fuel thunk hash g = add_thunk d c fuel hash g
  enter_output fuel value hash g = ok (hash, g)

  unfoldable pub finish : ℕ → ObjectType → Bytes → TextSet → Graph → Result (Option TextSet × Graph)
  finish fuel thunk new_hash promoted g = do next ← order_one fuel g new_hash; ok (some next, g)
  finish fuel value new_hash promoted g =
      ok (some promoted, record g { referencing = erase g.referencing new_hash })

  -- `force_thunk`: nothing if the thunk is not in the graph any more, and else what can run next.
  unfoldable pub force_thunk :
      ℕ → Bytes → ThunkOutput → List ThunkOutput → Graph → Result (Option TextSet × Graph)
  unfolding enter_output finish
  force_thunk fuel old_hash first rest g =
      let forced : Result (Option TextSet × Graph) = (do
        new_type ← Hash.type first.hash
        entered ← enter_output fuel new_type first.hash g
        let new_hash = entered.0
        g1 ← update_hash old_hash (record first { hash = new_hash }) rest entered.1
        refs ← at g1.referencing new_hash
        promoted ← promote_all d c refs [] g1
        finish fuel new_type new_hash promoted.0 promoted.1) in
      if contains g.thunks old_hash then forced else ok (none, g)
