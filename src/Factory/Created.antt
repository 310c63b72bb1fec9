-- ===== src/Factory/Created.antt =====
-- `generate` makes the thunk that `create_thunk` makes.
use gg.Prelude.{
  ◌⊎◌, ◌≡◌, refl, ap, sym, ◌∙◌, Bool, true, false, List, [], ◌∷◌, ◌++◌, map, map-append, ℕ, inl,
  inr, Result, ok, ◌>>=◌, >>=-eq-ok, ok-injective, Bool-cases,
}
use gg.Text.{Bytes}
use gg.Hash
use gg.Hash.{value, thunk, Digest}
use gg.DataList.{DataItem}
use gg.Thunk.{Function, Thunk, from_data, set_timeout, set_hash}
use gg.Thunk.Wire.{Codec, serialize}
use package.gg.Factory.{
  Data, Output, Options, Generated, item_of, add_links, create_thunk, manifest_text, with_manifest,
  finish, generate,
}

-- The datum of a manifest, which has no name.
abbrev pub manifest_datum : Bytes → Data
manifest_datum hash = record { filename = []; real_filename = []; hash = hash; object_type = value }

item_of-manifest_datum : (b : Bool) (hash : Bytes) → item_of b (manifest_datum hash) ≡ (hash, [])
unfolding item_of
item_of-manifest_datum true hash = refl
item_of-manifest_datum false hash = refl

module _ (d : Digest) (c : Codec) where
  -- The thunk is the one that `create_thunk` makes, under the name of its contents, and it is written
  -- under that name, behind `blobs`.
  abbrev pub Makes : List (Bytes × Bytes) → Result Thunk → Generated → Type 0
  Makes blobs r g =
      (t : Thunk) × (r ≡ ok t)
      × (g.hash ≡ Hash.compute d (serialize c t) thunk)
      × (g.made ≡ set_hash t g.hash)
      × (g.blobs ≡ blobs ++ (g.hash, serialize c t) ∷ [])

  created_from :
      (function : Function) (inputs executables : List Data) (outputs : List Output) (timeout : ℕ)
      (include : Bool) (links : List (Bytes × Bytes)) (t : Thunk)
      → from_data function
          (map (item_of include) inputs)
          (map (item_of include) executables)
          (map (λ (o : Output). o.tag) outputs)
        ≡ ok t
      → create_thunk function inputs executables outputs timeout include links
        ≡ ok (add_links links (set_timeout t timeout))
  unfolding create_thunk
  created_from function inputs executables outputs timeout include links t e = rw e refl

  finish-create_thunk :
      (function : Function) (items : List DataItem) (inputs inputs' executables : List Data)
      (outputs : List Output) (timeout : ℕ) (options : Options) (links blobs : List (Bytes × Bytes))
      (g : Generated)
      → items ≡ map (item_of options.include_filenames) inputs'
      → finish d c function items inputs executables outputs timeout options links blobs ≡ ok g
      → Makes blobs
          (create_thunk function inputs' executables outputs timeout options.include_filenames
            links)
          g
  unfolding finish
  finish-create_thunk function items inputs inputs' executables outputs timeout options links blobs
        g q e =
      let t =
        >>=-eq-ok
          (from_data function items (map (item_of options.include_filenames) executables)
            (map (λ (o : Output). o.tag) outputs))
          _ e in
      (
        add_links links (set_timeout t.0 timeout),
        created_from function inputs' executables outputs timeout options.include_filenames links
            t.0
            (ap
                (λ (is : List DataItem).
                  from_data function is (map (item_of options.include_filenames) executables)
                    (map (λ (o : Output). o.tag) outputs))
                (sym q)
              ∙ t.1),
        ap (λ (r : Generated). r.hash) (sym (ok-injective t.2)),
        ap (λ (r : Generated). r.made) (sym (ok-injective t.2))
            ∙ ap (set_hash (add_links links (set_timeout t.0 timeout)))
                (ap (λ (r : Generated). r.hash) (ok-injective t.2)),
        ap (λ (r : Generated). r.blobs) (sym (ok-injective t.2))
            ∙ ap
                (λ (h : Bytes).
                  blobs ++ (h, serialize c (add_links links (set_timeout t.0 timeout))) ∷ [])
                (ap (λ (r : Generated). r.hash) (ok-injective t.2)),
      )

  generate_plain :
      (function : Function) (inputs executables : List Data) (outputs : List Output)
      (dummy_dirs : List Bytes) (timeout : ℕ) (options : Options) (links : List (Bytes × Bytes))
      → options.generate_manifest ≡ false
      → generate d c function inputs executables outputs dummy_dirs timeout options links
        ≡ finish d c function
            (map (item_of options.include_filenames) inputs)
            inputs
            executables
            outputs
            timeout
            options
            links
            []
  unfolding generate
  generate_plain function inputs executables outputs dummy_dirs timeout options links h = rw h refl

  -- What follows the manifest's text.
  abbrev manifested :
      Function
      → List Data
      → List Data
      → List Output
      → ℕ
      → Options
      → List (Bytes × Bytes)
      → Bytes
      → Result Generated
  manifested function inputs executables outputs timeout options links text =
      finish d c (with_manifest (Hash.compute d text value) function)
        (map (item_of options.include_filenames) inputs ++ (Hash.compute d text value, []) ∷ [])
        inputs executables outputs timeout options links ((Hash.compute d text value, text) ∷ [])

  generate_listed :
      (function : Function) (inputs executables : List Data) (outputs : List Output)
      (dummy_dirs : List Bytes) (timeout : ℕ) (options : Options) (links : List (Bytes × Bytes))
      → options.generate_manifest ≡ true
      → generate d c function inputs executables outputs dummy_dirs timeout options links ≡ (
          manifest_text outputs dummy_dirs >>= λ text.
          manifested function inputs executables outputs timeout options links text)
  unfolding generate
  generate_listed function inputs executables outputs dummy_dirs timeout options links h = rw h refl

  items_listed :
      (include : Bool) (inputs : List Data) (hash : Bytes)
      → map (item_of include) inputs ++ (hash, []) ∷ []
        ≡ map (item_of include) (inputs ++ manifest_datum hash ∷ [])
  items_listed include inputs hash =
      ap (λ (i : DataItem). map (item_of include) inputs ++ i ∷ [])
        (sym (item_of-manifest_datum include hash))
      ∙ sym (map-append (item_of include) inputs (manifest_datum hash ∷ []))

  -- Where no manifest is asked for, the thunk that `generate` makes is that of `create_thunk`, named
  -- after its contents, and it is the only blob that is written, beside what is copied. Where one is
  -- asked for, it is one more value of the thunk, which its function names, and it is written before
  -- the thunk.
  pub generate-create_thunk :
      (function : Function) (inputs executables : List Data) (outputs : List Output)
      (dummy_dirs : List Bytes) (timeout : ℕ) (options : Options) (links : List (Bytes × Bytes))
      (g : Generated)
      → generate d c function inputs executables outputs dummy_dirs timeout options links ≡ ok g
      → ((options.generate_manifest ≡ false)
          × Makes []
              (create_thunk function inputs executables outputs timeout options.include_filenames
                links)
              g)
        ⊎ ((options.generate_manifest ≡ true)
            × (text : Bytes) × (manifest_text outputs dummy_dirs ≡ ok text)
            × Makes
                ((Hash.compute d text value, text) ∷ [])
                (create_thunk
                  (with_manifest (Hash.compute d text value) function)
                  (inputs ++ manifest_datum (Hash.compute d text value) ∷ [])
                  executables
                  outputs
                  timeout
                  options.include_filenames
                  links)
                g)
  generate-create_thunk function inputs executables outputs dummy_dirs timeout options links g e =
      elim (Bool-cases options.generate_manifest) [
        | inl listed ↦
            let text =
              >>=-eq-ok (manifest_text outputs dummy_dirs)
                (λ m. manifested function inputs executables outputs timeout options links m)
                (sym (
                    generate_listed function inputs executables outputs dummy_dirs timeout options
                      links listed)
                  ∙ e) in
            inr (
              listed,
              text.0,
              text.1,
              finish-create_thunk _ _ inputs
                  (inputs ++ manifest_datum (Hash.compute d text.0 value) ∷ []) executables outputs
                  timeout options links _ g
                  (items_listed options.include_filenames inputs (Hash.compute d text.0 value))
                  text.2,
            )
        | inr plain ↦ inl (
          plain,
          finish-create_thunk function _ inputs inputs executables outputs timeout options links []
              g refl
              (sym (
                  generate_plain function inputs executables outputs dummy_dirs timeout options
                    links plain)
                ∙ e),
        )
      ]
