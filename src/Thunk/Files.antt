-- ===== src/Thunk/Files.antt =====
-- `get_allowed_files`: the table of the files that a thunk may touch, with which the sandbox starts. What
-- the sandbox makes of it, and the entries that it adds for files that the thunk creates, are not
-- modelled. The paths of the blob directory are made by functions that read the environment: parameters.
use gg.Prelude.{
  ◌≡◌, refl, ap, ◌∙◌, Bool, true, false, ◌||◌, none, some, List, [], ◌∷◌, arith, if◌then◌else◌,
}
use gg.Text.{Bytes, ◌≈◌}
use gg.Dict.{Dict, get, put, get-put, member}
use gg.DataList.{DataList}
use gg.Thunk.{Thunk}

-- `Permissions` of src/sandbox/sandbox.hh.
pub record Permissions : Type 0 where
  pub read : Bool
  pub write : Bool
  pub execute : Bool

abbrev pub read_only : Permissions
read_only = record { read = true; write = false; execute = false }

abbrev pub runnable : Permissions
runnable = record { read = true; write = false; execute = true }

abbrev pub writable : Permissions
writable = record { read = true; write = true; execute = false }

abbrev pub Allowed : Type 0
Allowed = Dict Permissions

module _ (blob : Bytes → Bytes) where
  -- `for ( item : items ) allowed_files[ blob( item.first ) ] = p;`
  unfoldable pub allow_items : Permissions → DataList → Allowed → Allowed
  allow_items p [] m = m
  allow_items p (item ∷ items) m = allow_items p items (put m (blob item.0) p)

-- `for ( output : outputs_ ) allowed_files[ output ] = { true, true, false };`
unfoldable pub allow_outputs : List Bytes → Allowed → Allowed
allow_outputs [] m = m
allow_outputs (o ∷ outputs) m = allow_outputs outputs (put m o writable)

unfoldable pub get_allowed_files : (Bytes → Bytes) → Bytes → Bytes → Thunk → Allowed
unfolding allow_items allow_outputs
get_allowed_files blob blobs hash t = allow_outputs t.outputs (
    put
      (put (allow_items blob runnable t.executables (allow_items blob read_only t.values [])) blobs
        read_only)
      (blob hash) read_only)

-- What a table grants on a path, if it has an entry.
pub grants_write : Allowed → Bytes → Bool
grants_write m p = elim (get m p) [ none ↦ false | some q ↦ q.write ]

write-put :
    (m : Allowed) (k p : Bytes) (q : Permissions)
    → grants_write (put m k q) p ≡ (if k ≈ p then q.write else grants_write m p)
unfolding grants_write
write-put m k p q = ground (arith, get-put m k p q)

outputs_write :
    (outputs : List Bytes) (m : Allowed) (p : Bytes)
    → grants_write (allow_outputs outputs m) p ≡ (member outputs p || grants_write m p)
unfolding allow_outputs member
outputs_write [] m p = refl
outputs_write (o ∷ outputs) m p =
    ground (arith, outputs_write outputs (put m o writable) p, write-put m o p writable)

module _ (blob : Bytes → Bytes) where
  items_write :
      (q : Permissions) (items : DataList) (m : Allowed) (p : Bytes)
      → q.write ≡ false
      → grants_write m p ≡ false
      → grants_write (allow_items blob q items m) p ≡ false
  unfolding allow_items
  items_write q [] m p w h = h
  items_write q (item ∷ items) m p w h =
      items_write q items (put m (blob item.0) q) p w
        (ground (arith, write-put m (blob item.0) p q))

  -- The table that is made for a thunk has an entry with the right to write for each of its outputs,
  -- and for no other path.
  pub grants_write-get_allowed_files :
      (blobs hash : Bytes) (t : Thunk) (p : Bytes)
      → grants_write (get_allowed_files blob blobs hash t) p ≡ member t.outputs p
  unfolding get_allowed_files
  grants_write-get_allowed_files blobs hash t p =
      outputs_write t.outputs (put (put base blobs read_only) (blob hash) read_only) p
      ∙ ap (λ b. member t.outputs p || b)
          (ground (
            arith,
            base_write,
            write-put (put base blobs read_only) (blob hash) p read_only,
            write-put base blobs p read_only,
          ))
      ∙ or_false (member t.outputs p)
    where
      base : Allowed
      base = allow_items blob runnable t.executables (allow_items blob read_only t.values [])

      base_write : grants_write base p ≡ false
      base_write =
          items_write runnable t.executables (allow_items blob read_only t.values []) p refl
            (items_write read_only t.values [] p refl (unfold grants_write get in refl))

      or_false : (b : Bool) → (b || false) ≡ b
      or_false b = ground arith
