-- ===== src/Graph/Chains.antt =====
-- `update_hash`: the chain from a thunk's first name to its present one, and the references.
use gg.Prelude.{
  ◌≡◌, refl, ap, sym, subst, ◌∙◌, inl, inr, false, none, some, List, [], ◌∷◌, arith, if◌then◌else◌,
  ok, >>=-eq-ok, ok-injective, Option-cases,
}
use gg.Text.{Bytes, ◌≈◌, ≈_iff, ≈-refl}
use gg.Dict.{Dict, TextSet, get, put, erase, at, get-put, get-erase}
use gg.Hash
use gg.Hash.{ObjectType, value, thunk}
use gg.Thunk.{ThunkOutput, update_data}
use gg.Graph.{
  Graph, updated_hash, original_hash, update_chain, chain_thunk, update_references, update_hash,
}

-- The two maps of the hash chain are inverse to one another.
pub record IsChained (g : Graph) : Type 0 where
  pub forth : (u o : Bytes) → get g.original_hashes u ≡ some o → get g.updated_hashes o ≡ some u
  pub back : (o u : Bytes) → get g.updated_hashes o ≡ some u → get g.original_hashes u ≡ some o

module _ (old new : Bytes) (g : Graph) where
  chain_first :
      get g.original_hashes old ≡ none
      → update_chain old new g ≡ record g {
        original_hashes = put g.original_hashes new old;
        updated_hashes = put g.updated_hashes old new;
      }
  unfolding update_chain
  chain_first e = rw (e, update_chain)

  chain_again :
      (original : Bytes)
      → get g.original_hashes old ≡ some original
      → update_chain old new g ≡ record g {
        original_hashes = erase (put g.original_hashes new original) old;
        updated_hashes = put g.updated_hashes original new;
      }
  unfolding update_chain
  chain_again original e = rw (e, update_chain)

  -- What the next renaming needs: the new name is not in a chain yet, and the old one is current.
  pub record CanRename : Type 0 where
    pub differ : (old ≈ new) ≡ false
    pub fresh : get g.original_hashes new ≡ none
    pub current : get g.original_hashes old ≡ none → get g.updated_hashes old ≡ none

  module _ (c : IsChained g) (r : CanRename) where
    first-IsChained :
        get g.original_hashes old ≡ none
        → IsChained (record g {
          original_hashes = put g.original_hashes new old;
          updated_hashes = put g.updated_hashes old new;
        })
    first-IsChained e = record {
      forth = λ u o p. ground (
        arith,
        get-put g.original_hashes new u old,
        get-put g.updated_hashes old o new,
        c.forth u o,
        r.current e,
        ≈_iff new u,
        ≈_iff old o,
      );
      back = λ o u p. ground (
        arith,
        get-put g.original_hashes new u old,
        get-put g.updated_hashes old o new,
        c.back o u,
        r.fresh,
        ≈_iff new u,
        ≈_iff old o,
      );
    }

    again-IsChained :
        (original : Bytes)
        → get g.original_hashes old ≡ some original
        → IsChained (record g {
          original_hashes = erase (put g.original_hashes new original) old;
          updated_hashes = put g.updated_hashes original new;
        })
    again-IsChained original e = record {
      forth = λ u o p. ground (
        arith,
        get-erase (put g.original_hashes new original) old u,
        get-put g.original_hashes new u original,
        get-put g.updated_hashes original o new,
        c.forth u o,
        c.forth old original e,
        ≈_iff new u,
        ≈_iff old u,
        ≈_iff original o,
      );
      back = λ o u p. ground (
        arith,
        get-erase (put g.original_hashes new original) old u,
        get-put g.original_hashes new u original,
        get-put g.updated_hashes original o new,
        c.back o u,
        c.forth old original e,
        c.forth u o,
        r.fresh,
        r.differ,
        ≈_iff new u,
        ≈_iff old u,
        ≈_iff old new,
        ≈_iff original o,
      );
    }

    -- Where the new name is not yet in a chain and the old one is current, a renaming keeps the
    -- two maps inverse to one another; the old name's first name is then called by the new one,
    -- which leads back to it.
    pub update_chain-IsChained :
        IsChained (update_chain old new g)
        × (updated_hash (update_chain old new g) (original_hash g old) ≡ new)
        × (original_hash (update_chain old new g) new ≡ original_hash g old)
    unfolding updated_hash original_hash
    update_chain-IsChained = elim (Option-cases (get g.original_hashes old)) [
      | inl e ↦ rw (chain_first e) (
        first-IsChained e,
        ground (arith, e, get-put g.updated_hashes old old new, ≈-refl old),
        ground (arith, e, get-put g.original_hashes new new old, ≈-refl new),
      )
      | inr (o, e) ↦ rw (chain_again o e) (
        again-IsChained o e,
        ground (arith, e, get-put g.updated_hashes o o new, ≈-refl o),
        ground (
          arith,
          e,
          get-erase (put g.original_hashes new o) old new,
          get-put g.original_hashes new new o,
          ≈-refl new,
          r.differ,
        ),
      )
    ]

-- The maps that the loop over the referencing thunks leaves alone.
record SameMaps (g g' : Graph) : Type 0 where
  referencing : g'.referencing ≡ g.referencing
  original_hashes : g'.original_hashes ≡ g.original_hashes
  updated_hashes : g'.updated_hashes ≡ g.updated_hashes

update_references-SameMaps :
    (old : Bytes) (outputs : List ThunkOutput) (rs : TextSet) (g g' : Graph)
    → update_references old outputs rs g ≡ ok g'
    → SameMaps g g'
unfolding update_references
update_references-SameMaps old outputs [] g g' e =
    subst (SameMaps g) (ok-injective e)
      (record { referencing = refl; original_hashes = refl; updated_hashes = refl })
update_references-SameMaps old outputs (r ∷ rs) g g' e =
    let a = >>=-eq-ok (at g.thunks r) _ e in
    let b = >>=-eq-ok (update_data a.0 old outputs) _ a.2 in
    let s = update_references-SameMaps old outputs rs _ g' b.2 in
    record {
      referencing = s.referencing;
      original_hashes = s.original_hashes;
      updated_hashes = s.updated_hashes;
    }

referencing-chain_thunk :
    (t : ObjectType) (old new : Bytes) (g : Graph)
    → (chain_thunk t old new g).referencing ≡ g.referencing
unfolding chain_thunk update_chain
referencing-chain_thunk value old new g = refl
referencing-chain_thunk thunk old new g = ground arith

at-eq-ok : (m : Dict TextSet) (k : Bytes) (s : TextSet) → at m k ≡ ok s → get m k ≡ some s
unfolding at
at-eq-ok m k s e = ground arith

get-erase_same : {V : Type 0} (m : Dict V) (k : Bytes) → get (erase m k) k ≡ none
get-erase_same m k = ground (arith, get-erase m k k, ≈-refl k)

moved :
    (m m' : Dict TextSet) (old new : Bytes) (s : TextSet)
    → (old ≈ new) ≡ false
    → m' ≡ m
    → get m old ≡ some s
    → (k : Bytes)
    → get (erase (put m' new s) old) k
      ≡ (if old ≈ k then none else if new ≈ k then get m old else get m k)
moved m m' old new s differ same here k =
    ground (arith, get-erase (put m' new s) old k, get-put m' new k s, ap (λ n. get n k) same)

-- A renaming to another name, where it returns, hands the old name's references to the new name,
-- in place of those that the new name had; the old thunk and its references are gone, and no
-- other references change.
pub update_hash-moves_references :
    (old : Bytes) (first : ThunkOutput) (rest : List ThunkOutput) (g g' : Graph)
    → (old ≈ first.hash) ≡ false
    → update_hash old first rest g ≡ ok g'
    → (get g'.thunks old ≡ none)
      × ((k : Bytes)
          → get g'.referencing k ≡ (
              if old ≈ k
              then none
              else if first.hash ≈ k
              then get g.referencing old
              else get g.referencing k))
unfolding update_hash
update_hash-moves_references old first rest g g' differ e =
    let a = >>=-eq-ok (Hash.type first.hash) _ e in
    let chained = chain_thunk a.0 old first.hash g in
    let b = >>=-eq-ok (at chained.referencing old) _ a.2 in
    let c = >>=-eq-ok (update_references old (first ∷ rest) b.0 chained) _ b.2 in
    let s = update_references-SameMaps old (first ∷ rest) b.0 chained c.0 c.1 in
    let same : c.0.referencing ≡ g.referencing =
      s.referencing ∙ referencing-chain_thunk a.0 old first.hash g in
    let here : get g.referencing old ≡ some b.0 =
      ap (λ m. get m old) (sym (referencing-chain_thunk a.0 old first.hash g))
      ∙ at-eq-ok _ old b.0 b.1 in
    subst
      (λ u.
        (get u.thunks old ≡ none)
        × ((k : Bytes)
            → get u.referencing k ≡ (
                if old ≈ k
                then none
                else if first.hash ≈ k
                then get g.referencing old
                else get g.referencing k)))
      (ok-injective c.2)
      (
        get-erase_same c.0.thunks old,
        λ k. moved g.referencing c.0.referencing old first.hash b.0 differ same here k,
      )
