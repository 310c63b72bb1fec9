-- ===== src/Tests/Graphs.antt =====
-- Examples for the graph.
use gg.Prelude.{
  ◌≡◌, refl, true, false, [], ◌∷◌, none, some, inl, inr, ok, if◌then◌else◌, arith, All, ◌<◌, length,
  subst, ◌⊎◌,
}
use gg.Text.{find_at, Bytes, codes, ◌≈◌, ≈_iff, ≈-refl, find, starts_with}
use gg.Dict.{get, member, erase, put, at, add, add_all}
use gg.Hash.{type, base}
use gg.DataList.{emplace, erase_key, names_of, ◌≺◌}
use gg.Thunk.{
  Thunk, update_data, update_outputs, update_output, new_name, reinsert, old_name,
  replace_placeholders, data_placeholder, can_be_executed,
}
use gg.Graph.{
  Graph, updated_hash, original_hash, update_chain, update_hash, update_references, chain_thunk,
  order_one, gather,
}
use gg.Graph.Chains.{IsChained, CanRename, update_chain-IsChained, update_hash-moves_references}
use gg.Graph.OrderOne.{IsReady, IsRanked, Succeeds, order_one-IsReady, order_one_total}
use package.gg.Tests.Sample.{waiting, ready, output, name_value, name_thunk, name_top, graph}

abbrev name_new : Bytes
name_new = b'T' ∷ b'2' ∷ []

one_back : (a b u o : Bytes) → get ((a, b) ∷ []) u ≡ some o → get ((b, a) ∷ []) o ≡ some u
unfolding get
one_back a b u o e = ground (arith, ≈_iff a u, ≈_iff b o, ≈-refl b)

graph-IsChained : IsChained graph
graph-IsChained = record {
  forth = λ u o e. one_back name_top (codes "T0") u o e;
  back = λ o u e. one_back (codes "T0") name_top o u e;
}

graph-CanRename : CanRename name_top name_new graph
unfolding get ◌≈◌
graph-CanRename = record { differ = refl; fresh = refl; current = λ e. refl }

update_chain-IsChained_example :
    IsChained (update_chain name_top name_new graph)
    × (updated_hash (update_chain name_top name_new graph) (original_hash graph name_top)
        ≡ name_new)
    × (original_hash (update_chain name_top name_new graph) name_new ≡ original_hash graph name_top)
update_chain-IsChained_example =
    update_chain-IsChained name_top name_new graph graph-IsChained graph-CanRename

-- "T" has been reduced to the value "V".
abbrev after : Graph
after = record graph {
  thunks = (name_top, ready) ∷ [];
  referencing = (name_top, []) ∷ (name_value, name_top ∷ []) ∷ [];
}

update_hash-graph : update_hash name_thunk output [] graph ≡ ok after
unfolding update_hash update_references chain_thunk at get put erase update_data update_outputs
    update_output new_name reinsert names_of ◌≈◌ old_name type replace_placeholders find_at emplace
    erase_key find starts_with data_placeholder ◌≺◌
update_hash-graph = refl

update_hash-moves_references_example :
    (get after.thunks name_thunk ≡ none)
    × ((k : Bytes)
        → get after.referencing k ≡ (
            if name_thunk ≈ k
            then none
            else if name_value ≈ k
            then get graph.referencing name_thunk
            else get graph.referencing k))
update_hash-moves_references_example =
    update_hash-moves_references name_thunk output [] graph after differ update_hash-graph
  where
    differ : (name_thunk ≈ name_value) ≡ false
    differ = unfold ◌≈◌ in refl

order_one-graph : order_one 2 graph name_top ≡ ok (name_thunk ∷ [])
unfolding order_one gather get ◌≈◌ base find starts_with can_be_executed add_all add member
order_one-graph = refl

order_one-IsReady_example : IsReady graph name_thunk
order_one-IsReady_example =
    order_one-IsReady 2 graph name_top name_thunk (name_thunk ∷ []) order_one-graph held
  where
    held : member (name_thunk ∷ []) name_thunk ≡ true
    held = unfold member ◌≈◌ in refl

two :
    (a b h : Bytes) (s t u : Thunk)
    → get ((a, s) ∷ (b, t) ∷ []) h ≡ some u
    → ((a ≡ h) × (s ≡ u)) ⊎ ((b ≡ h) × (t ≡ u))
unfolding get
two a b h s t u e = ground (arith, ≈_iff a h, ≈_iff b h)

abbrev Below : Bytes → Thunk → Type 0
Below h t =
    All
      (λ item.
        (length (base item.0) < length h)
        × ((u : Thunk) × (get graph.thunks (base item.0) ≡ some u)))
      t.thunks

waiting-Below : Below name_top waiting
unfolding get base find starts_with ◌≈◌
waiting-Below = ((omega arith, (ready, refl)), tt)

graph-IsRanked : IsRanked length graph
graph-IsRanked h t e = elim (two name_top name_thunk h waiting ready t e) [
  | inl (a, b) ↦ subst (Below h) b (subst (λ k. Below k waiting) a waiting-Below)
  | inr (a, b) ↦ subst (Below h) b tt
]

graph_top : get graph.thunks (base name_top) ≡ some waiting
unfolding get base find starts_with ◌≈◌
graph_top = refl

order_one_total_example : Succeeds (order_one 3 graph name_top)
order_one_total_example =
    order_one_total 3 graph length name_top waiting graph-IsRanked graph_top short
  where
    short : length (base name_top) < 3
    short = unfold base find starts_with in omega arith
