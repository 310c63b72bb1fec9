-- ===== src/Factory/Placeholders.antt =====
-- The placeholders that the factory writes.
use gg.Prelude.{
  ◌≡◌, refl, sym, subst, true, false, some, List, [], ◌∷◌, is_empty, ℕ, All, All-append, ok, either,
  Returns, Returns-elim, >>=-Returns_any,
}
use gg.Text.{Bytes}
use gg.Hash
use gg.Hash.{value, thunk, Digest}
use gg.DataList.{DataItem}
use gg.Thunk.{Function, from_data}
use gg.Thunk.Wire.{Codec}
use gg.Placeholder
use gg.Placeholder.RoundTrip.{Solid, read-written}
use package.gg.Factory.{
  Data, Output, Options, Generated, output_file, later_placeholders, placeholders_of, manifest_text,
  finish, generate,
}

-- The placeholders stand for the outputs, one after the other: each is written to the output's file,
-- and the name of the output is read back from it, whatever the reader's buffer held before.
unfoldable pub StandFor : Bytes → Bytes → List Output → List (Bytes × Bytes) → Type 0
StandFor left hash [] [] = Unit
StandFor left hash [] (p ∷ ps) = ⊥
StandFor left hash (o ∷ os) [] = ⊥
StandFor left hash (o ∷ os) (p ∷ ps) =
    (p.0 ≡ output_file o)
    × (Placeholder.read left p.1 ≡ ok (some (Hash.for_output hash o.tag)))
    × StandFor left hash os ps

-- The first output of a thunk goes by the name of the thunk, the others have their tags in theirs.
unfoldable pub StandForAll : Bytes → Bytes → List Output → List (Bytes × Bytes) → Type 0
unfolding StandFor
StandForAll left hash [] ps = Unit
StandForAll left hash (o ∷ os) [] = ⊥
StandForAll left hash (o ∷ os) (p ∷ ps) =
    (p.0 ≡ output_file o) × (Placeholder.read left p.1 ≡ ok (some hash)) × StandFor left hash os ps

hash_mark : Placeholder.is_space b'#' ≡ false
unfolding Placeholder.is_space
hash_mark = refl

for_output_full : (hash tag : Bytes) → is_empty (Hash.for_output hash tag) ≡ false
unfolding Hash.for_output
for_output_full [] tag = refl
for_output_full (x ∷ hash) tag = refl

for_output-Solid : (hash tag : Bytes) → Solid hash → Solid tag → Solid (Hash.for_output hash tag)
unfolding Hash.for_output
for_output-Solid hash tag h t =
    All-append (λ c. Placeholder.is_space c ≡ false) hash _ h (hash_mark, t)

later_placeholders-StandFor :
    (left hash : Bytes) (outputs : List Output)
    → Solid hash
    → All (λ (o : Output). Solid o.tag) outputs
    → StandFor left hash outputs (later_placeholders hash outputs)
unfolding StandFor later_placeholders
later_placeholders-StandFor left hash [] h t = tt
later_placeholders-StandFor left hash (o ∷ os) h t = (
  refl,
  (read-written left (output_file o) (Hash.for_output hash o.tag) (for_output_full hash o.tag)
      (for_output-Solid hash o.tag h t.0)).0,
  later_placeholders-StandFor left hash os h t.1,
)

placeholders_of-StandFor :
    (left hash : Bytes) (outputs : List Output)
    → is_empty hash ≡ false
    → Solid hash
    → All (λ (o : Output). Solid o.tag) outputs
    → StandForAll left hash outputs (placeholders_of hash outputs)
unfolding StandForAll placeholders_of
placeholders_of-StandFor left hash [] e h t = tt
placeholders_of-StandFor left hash (o ∷ os) e h t = (
  refl,
  (read-written left (output_file o) hash e h).0,
  later_placeholders-StandFor left hash os h t.1,
)

module _ (d : Digest) (c : Codec) where
  Written : Options → List Output → Generated → Type 0
  Written options outputs g =
      options.create_placeholder ≡ true → g.placeholders ≡ placeholders_of g.hash outputs

  finish-Written :
      (function : Function) (items : List DataItem) (inputs executables : List Data)
      (outputs : List Output) (timeout : ℕ) (options : Options) (links blobs : List (Bytes × Bytes))
      → Returns
          (Written options outputs)
          (finish d c function items inputs executables outputs timeout options links blobs)
  unfolding finish Written
  finish-Written function items inputs executables outputs timeout options links blobs =
      >>=-Returns_any (Written options outputs) (from_data function items _ _) _ (λ t y. rw y refl)

  generate-Written :
      (function : Function) (inputs executables : List Data) (outputs : List Output)
      (dummy_dirs : List Bytes) (timeout : ℕ) (options : Options) (links : List (Bytes × Bytes))
      → Returns
          (Written options outputs)
          (generate d c function inputs executables outputs dummy_dirs timeout options links)
  unfolding generate
  generate-Written function inputs executables outputs dummy_dirs timeout options links =
      either (Returns (Written options outputs)) options.generate_manifest
        (λ y.
          >>=-Returns_any (Written options outputs) (manifest_text outputs dummy_dirs) _ (λ text.
            finish-Written _ _ inputs executables outputs timeout options links
              ((Hash.compute d text value, text) ∷ [])))
        (λ n. finish-Written function _ inputs executables outputs timeout options links [])

  -- The placeholders that the factory writes stand for the outputs of the thunk, in their order: the
  -- first one for the thunk's own name, each other one for that name with its tag; each is written to
  -- its output's file, and reading it gives the name back, where the names have no white space,
  -- whatever the buffer of the reader held before.
  pub generate-StandFor :
      (function : Function) (inputs executables : List Data) (outputs : List Output)
      (dummy_dirs : List Bytes) (timeout : ℕ) (options : Options) (links : List (Bytes × Bytes))
      (g : Generated) (left : Bytes)
      → generate d c function inputs executables outputs dummy_dirs timeout options links ≡ ok g
      → options.create_placeholder ≡ true
      → is_empty g.hash ≡ false
      → Solid g.hash
      → All (λ (o : Output). Solid o.tag) outputs
      → StandForAll left g.hash outputs g.placeholders
  unfolding Written
  generate-StandFor function inputs executables outputs dummy_dirs timeout options links g left r y
        e h t =
      let w =
        Returns-elim (Written options outputs) _ g
          (generate-Written function inputs executables outputs dummy_dirs timeout options links)
          r in
      subst (StandForAll left g.hash outputs) (sym (w y))
        (placeholders_of-StandFor left g.hash outputs e h t)
