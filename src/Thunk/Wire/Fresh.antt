-- ===== src/Thunk/Wire/Fresh.antt =====
-- The cached name of a thunk is the name of its current contents.
use gg.Prelude.{ℕ, ◌≡◌, refl, ap, sym, ◌∙◌, ◌⊎◌, inl, inr, none, some, List, arith, ok}
use gg.Text.{Bytes}
use gg.Hash
use gg.Hash.{Digest, thunk}
use gg.Thunk.{Thunk, ThunkOutput, set_timeout, add_link, set_hash, update_data, throw_if_error}
use gg.Thunk.Update.Cached.{hash_-update_data}
use gg.Thunk.Wire.{Codec, ProtoThunk, hash, hash_or_compute, serialize, from_protobuf, to_protobuf}

module _ (d : Digest) (c : Codec) where
  -- The name of the contents.
  pub name_of : Thunk → Bytes
  name_of t = Hash.compute d (serialize c t) thunk

  abbrev pub IsFresh : Thunk → Type 0
  IsFresh t = (t.hash_ ≡ none) ⊎ (t.hash_ ≡ some (name_of t))

  name_of-set_hash : (t : Thunk) (h : Bytes) → name_of (set_hash t h) ≡ name_of t
  unfolding name_of set_hash serialize to_protobuf
  name_of-set_hash t h = refl

  kept_name : (t : Thunk) (h : Bytes) {k : Bytes} → h ≡ k → (set_hash t h).hash_ ≡ some k
  unfolding set_hash
  kept_name t h e = ap some e

  hash-cached : (t : Thunk) (h : Bytes) → t.hash_ ≡ some h → hash d c t ≡ (h, t)
  unfolding hash hash_or_compute
  hash-cached t h e = ap (λ o. hash_or_compute d c o t) e

  hash-computed : (t : Thunk) → t.hash_ ≡ none → hash d c t ≡ (name_of t, set_hash t (name_of t))
  unfolding hash hash_or_compute name_of
  hash-computed t e = ap (λ o. hash_or_compute d c o t) e

  hash-IsFresh :
      (t : Thunk)
      → IsFresh t
      → ((hash d c t).0 ≡ name_of t) × IsFresh (hash d c t).1 × (name_of (hash d c t).1 ≡ name_of t)
  hash-IsFresh t (inl e) = rw (hash-computed t e) (
    refl,
    inr (kept_name t (name_of t) (sym (name_of-set_hash t (name_of t)))),
    name_of-set_hash t (name_of t),
  )
  hash-IsFresh t (inr e) = rw (hash-cached t (name_of t) e) (refl, inr e, refl)

  from_protobuf-hash_ : (p : ProtoThunk) (t : Thunk) → from_protobuf p ≡ ok t → t.hash_ ≡ none
  unfolding from_protobuf throw_if_error
  from_protobuf-hash_ p t e = ground arith

  -- `hash` returns the name of the current contents, now and when it is called again, as long as
  -- thunks come from the constructor for a message, the setters and `update_data`: each of these
  -- leaves no stale name.
  pub operations-IsFresh :
      (t read renamed : Thunk) (p : ProtoThunk) (timeout : ℕ) (name target original : Bytes)
      (outputs : List ThunkOutput)
      → IsFresh t
      → from_protobuf p ≡ ok read
      → update_data t original outputs ≡ ok renamed
      → ((hash d c t).0 ≡ name_of t)
        × ((hash d c (hash d c t).1).0 ≡ name_of t)
        × IsFresh (set_timeout t timeout)
        × IsFresh (add_link t name target)
        × IsFresh read
        × IsFresh renamed
  operations-IsFresh t read renamed p timeout name target original outputs f e u = (
    (hash-IsFresh t f).0,
    (let r = hash-IsFresh t f in (hash-IsFresh (hash d c t).1 r.1).0 ∙ r.2),
    unfold set_timeout in inl refl,
    unfold add_link in inl refl,
    inl (from_protobuf-hash_ p read e),
    inl (hash_-update_data t renamed original outputs u),
  )
