-- ===== src/Graph/OrderOne.antt =====
-- `order_one_dependencies`: which thunks can run now.
use gg.Prelude.{
  ℕ, zero, suc, ◌<◌, ◌≡◌, refl, ap, sym, subst, ◌∙◌, inl, inr, Bool, true, false, none, some, [],
  ◌∷◌, arith, if◌then◌else◌, All, Result, ok, err, >>=-eq-ok, ok-injective, err-ne-ok, Bool-cases,
  Option-cases, out_of_fuel, runtime_error,
}
use gg.Text.{Bytes, ≈_iff}
use gg.Dict.{TextSet, get, member, add_all, member-add_all}
use gg.DataList.{DataList}
use gg.Hash.{base}
use gg.Thunk.{Thunk, can_be_executed}
use gg.Graph.{Graph, order_one, gather}

-- A name of a thunk in the graph that can be executed.
abbrev pub IsReady : Graph → Bytes → Type 0
IsReady g h = (t : Thunk) × (get g.thunks h ≡ some t) × (can_be_executed t ≡ true)

abbrev pub AllReady : Graph → TextSet → Type 0
AllReady g s = (h : Bytes) → member s h ≡ true → IsReady g h

AllReady-add_all :
    (g : Graph) (s t : TextSet) → AllReady g s → AllReady g t → AllReady g (add_all s t)
AllReady-add_all g s t a b h m = elim (Bool-cases (member t h)) [
  | inl e ↦ b h e
  | inr e ↦ a h (ground (arith, member-add_all s t h))
]

gather-AllReady :
    (g : Graph) (visit : Bytes → Result TextSet)
    → ((h : Bytes) (s : TextSet) → visit h ≡ ok s → AllReady g s)
    → (items : DataList) (s r : TextSet) → AllReady g s
    → gather visit items s ≡ ok r
    → AllReady g r
unfolding gather
gather-AllReady g visit good [] s r a e = subst (AllReady g) (ok-injective e) a
gather-AllReady g visit good (item ∷ items) s r a e =
    let v = >>=-eq-ok (visit item.0) _ e in
    gather-AllReady g visit good items (add_all s v.0) r
      (AllReady-add_all g s v.0 a (good item.0 v.0 v.1)) v.2

module _ (fuel : ℕ) (g : Graph) (h : Bytes) where
  order_one_missing :
      get g.thunks (base h) ≡ none → (s : TextSet) → ¬ (order_one (suc fuel) g h ≡ ok s)
  unfolding order_one
  order_one_missing e s q =
      err-ne-ok (runtime_error "thunk hash not found in the execution graph") s (sym missing ∙ q)
    where
      missing :
          order_one (suc fuel) g h
          ≡ err (runtime_error "thunk hash not found in the execution graph")
      missing = rw (e, order_one)

  order_one_found :
      (t : Thunk)
      → get g.thunks (base h) ≡ some t
      → order_one (suc fuel) g h
        ≡ (if can_be_executed t then ok (base h ∷ []) else gather (order_one fuel g) t.thunks [])
  unfolding order_one
  order_one_found t e = rw (e, order_one)

member_one : (h k : Bytes) → member (k ∷ []) h ≡ true → k ≡ h
unfolding member
member_one h k m = ground (arith, ≈_iff k h)

order_one-zero : (g : Graph) (h : Bytes) (s : TextSet) → ¬ (order_one zero g h ≡ ok s)
unfolding order_one
order_one-zero g h s e = err-ne-ok out_of_fuel s e

AllReady-nil : (g : Graph) → AllReady g []
unfolding member
AllReady-nil g h m = cc

order_one-AllReady :
    (fuel : ℕ) (g : Graph) (h : Bytes) (s : TextSet) → order_one fuel g h ≡ ok s → AllReady g s
order_one-AllReady zero g h s e = absurd (order_one-zero g h s e)
order_one-AllReady (suc fuel) g h s e = elim (Option-cases (get g.thunks (base h))) [
  | inl miss ↦ absurd (order_one_missing fuel g h miss s e)
  | inr (t, found) ↦ elim (Bool-cases (can_be_executed t)) [
    | inl ready ↦ λ k m.
        let same : ok (base h ∷ []) ≡ ok s =
          sym (
            order_one_found fuel g h t found
            ∙ ap (λ b. if b then ok (base h ∷ []) else gather (order_one fuel g) t.thunks []) ready)
          ∙ e in
        subst (IsReady g) (member_one k (base h) (ap (λ u. member u k) (ok-injective same) ∙ m))
          (t, found, ready)
    | inr waits ↦
        gather-AllReady g (order_one fuel g) (λ k r q. order_one-AllReady fuel g k r q) t.thunks []
          s (AllReady-nil g)
          (sym (
              order_one_found fuel g h t found
              ∙ ap (λ b. if b then ok (base h ∷ []) else gather (order_one fuel g) t.thunks [])
                  waits)
            ∙ e)
  ]
]

-- What is given to be run is the name of a thunk that is in the graph and waits for nothing.
pub order_one-IsReady :
    (fuel : ℕ) (g : Graph) (h k : Bytes) (s : TextSet)
    → order_one fuel g h ≡ ok s
    → member s k ≡ true
    → IsReady g k
order_one-IsReady fuel g h k s e m = order_one-AllReady fuel g h s e k m

-- The dependencies of every thunk are in the graph, and `rank` falls along them.
abbrev pub IsRanked : (Bytes → ℕ) → Graph → Type 0
IsRanked rank g =
    (h : Bytes) (t : Thunk)
    → get g.thunks h ≡ some t
    → All
        (λ item.
          (rank (base item.0) < rank h) × ((u : Thunk) × (get g.thunks (base item.0) ≡ some u)))
        t.thunks

abbrev pub Succeeds : Result TextSet → Type 0
Succeeds r = (s : TextSet) × (r ≡ ok s)

gather_total :
    (visit : Bytes → Result TextSet) (items : DataList) (s : TextSet)
    → All (λ item. Succeeds (visit item.0)) items
    → Succeeds (gather visit items s)
unfolding gather
gather_total visit [] s a = (s, refl)
gather_total visit (item ∷ items) s a =
    let rest = gather_total visit items (add_all s a.0.0) a.1 in (rest.0, rw a.0.1 rest.1)

either_Succeeds :
    (b : Bool) (s : TextSet) {r : Result TextSet} → Succeeds r → Succeeds (if b then ok s else r)
either_Succeeds true s p = (s, refl)
either_Succeeds false s p = p

visits :
    (fuel : ℕ) (g : Graph) (rank : Bytes → ℕ) (h : Bytes) (items : DataList)
    → rank h < suc fuel
    → ((k : Bytes) (u : Thunk)
        → get g.thunks (base k) ≡ some u
        → rank (base k) < fuel
        → Succeeds (order_one fuel g k))
    → All
        (λ item.
          (rank (base item.0) < rank h) × ((u : Thunk) × (get g.thunks (base item.0) ≡ some u)))
        items
    → All (λ item. Succeeds (order_one fuel g item.0)) items
visits fuel g rank h [] b rec a = tt
visits fuel g rank h (item ∷ items) b rec a =
    (rec item.0 a.0.1.0 a.0.1.1 (omega (arith, a.0.0)), visits fuel g rank h items b rec a.1)

-- In a graph without missing thunks, where a rank falls along the dependencies, the search from a
-- thunk of the graph ends and finds its answer, with more fuel than the thunk's rank.
pub order_one_total :
    (fuel : ℕ) (g : Graph) (rank : Bytes → ℕ) (h : Bytes) (t : Thunk)
    → IsRanked rank g
    → get g.thunks (base h) ≡ some t
    → rank (base h) < fuel
    → Succeeds (order_one fuel g h)
order_one_total zero g rank h t ranked found b = absurd (omega arith)
order_one_total (suc fuel) g rank h t ranked found b = rw (order_one_found fuel g h t found) (
    either_Succeeds (can_be_executed t) (base h ∷ []) (
      gather_total (order_one fuel g) t.thunks [] (
        visits fuel g rank (base h) t.thunks b
          (λ k u f r. order_one_total fuel g rank k u ranked f r) (ranked (base h) t found))))
