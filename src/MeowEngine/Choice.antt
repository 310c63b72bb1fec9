-- ===== src/MeowEngine/Choice.antt =====
-- Which worker gets a thunk.
use gg.Prelude.{
  ℕ, ◌≤◌, ◌≡◌, refl, ap, sym, subst, ◌∙◌, ◌⊎◌, inl, inr, Bool, true, false, ◌||◌, List, [], ◌∷◌,
  arith, ltb, ◌==◌, if◌then◌else◌, ok, err, runtime_error, ◌>>=◌, >>=-eq-ok, ok-injective,
  err-ne-ok, Bool-cases,
}
use gg.Text.{Bytes}
use gg.Dict.{add_all}
use gg.Thunk.{Thunk}
use package.gg.MeowEngine.{
  Lambda, MeowEngine, most_objects, lambda_at, common_size, most_common, holder, no_lambda,
  objects_of, pick_from, pick_lambda,
}

-- The id is in the list.
unfoldable pub has_id : ℕ → List ℕ → Bool
has_id id [] = false
has_id id (j ∷ js) = j == id || has_id id js

has_id_head : (id : ℕ) (js : List ℕ) → has_id id (id ∷ js) ≡ true
unfolding has_id
has_id_head id js = ground arith

has_id_tail : (id j : ℕ) (js : List ℕ) → has_id id js ≡ true → has_id id (j ∷ js) ≡ true
unfolding has_id
has_id_tail id j js h = ground arith

has_id-cases :
    (k id : ℕ) (ids : List ℕ) → has_id k (id ∷ ids) ≡ true → (id ≡ k) ⊎ (has_id k ids ≡ true)
unfolding has_id
has_id-cases k id ids h = ground arith

has_id-nil : (k : ℕ) → ¬ (has_id k [] ≡ true)
unfolding has_id
has_id-nil k h = cc

holder-has_id :
    (ls : List Lambda) (name : Bytes) (ids : List ℕ) (first id : ℕ)
    → holder ls name ids first ≡ ok id
    → (id ≡ first) ⊎ (has_id id ids ≡ true)
unfolding holder
holder-has_id ls name [] first id e = inl (sym (ok-injective e))
holder-has_id ls name (j ∷ ids) first id e =
    let l = >>=-eq-ok (lambda_at j ls) _ e in
    ground (arith, holder-has_id ls name ids first id, has_id_head j ids, has_id_tail id j ids, l.2)

-- The size that a worker has in common, as the loop computes it.
abbrev pub Common : List Lambda → List Bytes → ℕ → ℕ → Type 0
Common ls names id n =
    (l : Lambda) × (lambda_at id ls ≡ ok l) × (common_size l.objects names 0 ≡ ok n)

most_common_step :
    (ls : List Lambda) (names : List Bytes) (id : ℕ) (ids : List ℕ) (best selected : ℕ)
    (found : ℕ × ℕ)
    → most_common ls names (id ∷ ids) best selected ≡ ok found
    → (n : ℕ) × Common ls names id n
      × (most_common ls names ids
            (if ltb best n then n else best)
            (if ltb best n then id else selected)
          ≡ ok found)
unfolding most_common
most_common_step ls names id ids best selected found e =
    let l = >>=-eq-ok (lambda_at id ls) _ e in
    let n = >>=-eq-ok (common_size l.0.objects names 0) _ l.2 in (n.0, (l.0, l.1, n.1), n.2)

most_common_end :
    (ls : List Lambda) (names : List Bytes) (best selected : ℕ) (found : ℕ × ℕ)
    → most_common ls names [] best selected ≡ ok found
    → (best, selected) ≡ found
unfolding most_common
most_common_end ls names best selected found e = ok-injective e

-- The loop does not go below where it starts.
most_common-grows :
    (ls : List Lambda) (names : List Bytes) (ids : List ℕ) (best selected : ℕ) (found : ℕ × ℕ)
    → most_common ls names ids best selected ≡ ok found
    → best ≤ found.0
most_common-grows ls names [] best selected found e =
    let q = ap (λ p. p.0) (most_common_end ls names best selected found e) in omega (arith, q)
most_common-grows ls names (id ∷ ids) best selected found e =
    let s = most_common_step ls names id ids best selected found e in
    ground (arith, most_common-grows ls names ids _ _ found s.2)

Common-unique :
    (ls : List Lambda) (names : List Bytes) (id n m : ℕ)
    → Common ls names id n
    → Common ls names id m
    → n ≡ m
Common-unique ls names id n m (l, at_l, size_l) (k, at_k, size_k) = ok-injective (
    sym size_l
    ∙ ap (λ (x : Lambda). common_size x.objects names 0) (ok-injective (sym at_l ∙ at_k))
    ∙ size_k)

-- Nothing that the loop passes has more in common than what it ends with.
most_common-bounds :
    (ls : List Lambda) (names : List Bytes) (ids : List ℕ) (best selected : ℕ) (found : ℕ × ℕ)
    (k m : ℕ)
    → most_common ls names ids best selected ≡ ok found
    → has_id k ids ≡ true
    → Common ls names k m
    → m ≤ found.0
most_common-bounds ls names [] best selected found k m e h c = absurd (has_id-nil k h)
most_common-bounds ls names (id ∷ ids) best selected found k m e h c =
    let s = most_common_step ls names id ids best selected found e in
    elim (has_id-cases k id ids h) [
      | inl same ↦
          let q = Common-unique ls names k m s.0 c (subst (λ j. Common ls names j s.0) same s.1) in
          ground (arith, q, most_common-grows ls names ids _ _ found s.2)
      | inr later ↦ most_common-bounds ls names ids _ _ found k m s.2 later c
    ]

choose :
    (ls : List Lambda) (names : List Bytes) (id : ℕ) (ids : List ℕ) (best selected n : ℕ)
    → (found : ℕ × ℕ) (better : Bool) → Common ls names id n
    → (((if better then n else best), (if better then id else selected)) ≡ found)
      ⊎ ((has_id found.1 ids ≡ true) × Common ls names found.1 found.0)
    → ((best, selected) ≡ found)
      ⊎ ((has_id found.1 (id ∷ ids) ≡ true) × Common ls names found.1 found.0)
choose ls names id ids best selected n found true c (inl q) = inr (
    subst (λ (p : ℕ × ℕ). (has_id p.1 (id ∷ ids) ≡ true) × Common ls names p.1 p.0) q
      (has_id_head id ids, c))
choose ls names id ids best selected n found false c (inl q) = inl q
choose ls names id ids best selected n found b c (inr x) = inr (has_id_tail found.1 id ids x.0, x.1)

-- What the loop ends with is what it starts with, or a worker that it has passed.
most_common-found :
    (ls : List Lambda) (names : List Bytes) (ids : List ℕ) (best selected : ℕ) (found : ℕ × ℕ)
    → most_common ls names ids best selected ≡ ok found
    → ((best, selected) ≡ found) ⊎ ((has_id found.1 ids ≡ true) × Common ls names found.1 found.0)
most_common-found ls names [] best selected found e =
    inl (most_common_end ls names best selected found e)
most_common-found ls names (id ∷ ids) best selected found e =
    let s = most_common_step ls names id ids best selected found e in
    choose ls names id ids best selected s.0 found (ltb best s.0) s.1
      (most_common-found ls names ids _ _ found s.2)

abbrev pub needs : Thunk → List Bytes
needs t = add_all [] (objects_of t)

-- What `pick_from` takes, given what the loop ends with.
abbrev taken : ℕ → ℕ × ℕ → ℕ
taken first found = if found.1 == no_lambda then first else found.1

taken_real :
    (first : ℕ) (found : ℕ × ℕ) (ids : List ℕ)
    → has_id no_lambda ids ≡ false
    → has_id found.1 ids ≡ true
    → taken first found ≡ found.1
taken_real first (best, id) ids real has = elim (Bool-cases (id == no_lambda)) [
  | inl same ↦ absurd (clash id ids real has (ground arith))
  | inr other ↦ rw other refl
]
  where
    clash :
        (id : ℕ) (ids : List ℕ)
        → has_id no_lambda ids ≡ false
        → has_id id ids ≡ true
        → id ≡ no_lambda
        → ⊥
    clash id ids real has q = ground (arith, subst (λ j. has_id j ids ≡ true) q has)

taken_best :
    (ls : List Lambda) (names : List Bytes) (first : ℕ) (rest : List ℕ) (found : ℕ × ℕ) (k n m : ℕ)
    → most_common ls names (first ∷ rest) 0 no_lambda ≡ ok found
    → has_id no_lambda (first ∷ rest) ≡ false
    → has_id k (first ∷ rest) ≡ true
    → Common ls names k m
    → Common ls names (taken first found) n
    → (has_id (taken first found) (first ∷ rest) ≡ true) × (m ≤ n)
taken_best ls names first rest found k n m e real h c d =
    let bound = most_common-bounds ls names (first ∷ rest) 0 no_lambda found k m e h c in
    elim (most_common-found ls names (first ∷ rest) 0 no_lambda found e) [
      | inl q ↦
          subst (λ (p : ℕ × ℕ). (has_id (taken first p) (first ∷ rest) ≡ true) × (m ≤ n)) q
            (has_id_head first rest, omega (arith, bound, ap (λ (p : ℕ × ℕ). p.0) q))
      | inr (has, common) ↦
          let same = taken_real first found (first ∷ rest) real has in
          let equal =
            Common-unique ls names found.1 found.0 n common
              (subst (λ j. Common ls names j n) same d) in
          (subst (λ j. has_id j (first ∷ rest) ≡ true) (sym same) has, omega (arith, bound, equal))
    ]

pick_lambda-cons :
    (t : Thunk) (e : MeowEngine) (first : ℕ) (rest : List ℕ)
    → e.free_lambdas ≡ first ∷ rest
    → pick_lambda t most_objects e ≡ (
        most_common e.lambdas (needs t) (first ∷ rest) 0 no_lambda >>= λ found.
        ok (taken first found))
unfolding pick_lambda pick_from
pick_lambda-cons t e first rest q = rw q refl

-- The worker that is picked is free, and no free worker has more bytes of the thunk's objects: if
-- it has `n` of them and a free worker has `m`, then m ≤ n. The largest `size_t` is not an id.
pub pick_lambda_best :
    (t : Thunk) (e : MeowEngine) (first : ℕ) (rest : List ℕ) (id k n m : ℕ)
    → e.free_lambdas ≡ first ∷ rest
    → has_id no_lambda (first ∷ rest) ≡ false
    → pick_lambda t most_objects e ≡ ok id
    → has_id k (first ∷ rest) ≡ true
    → Common e.lambdas (needs t) k m
    → Common e.lambdas (needs t) id n
    → (has_id id (first ∷ rest) ≡ true) × (m ≤ n)
pick_lambda_best t e first rest id k n m q real p h c d =
    let found = >>=-eq-ok _ _ (sym (pick_lambda-cons t e first rest q) ∙ p) in
    let same = ok-injective found.2 in
    let best =
      taken_best e.lambdas (needs t) first rest found.0 k n m found.1 real h c
        (subst (λ j. Common e.lambdas (needs t) j n) (sym same) d) in
    (subst (λ j. has_id j (first ∷ rest) ≡ true) same best.0, best.1)

taken-has_id :
    (ls : List Lambda) (names : List Bytes) (first : ℕ) (rest : List ℕ) (found : ℕ × ℕ)
    → most_common ls names (first ∷ rest) 0 no_lambda ≡ ok found
    → has_id (taken first found) (first ∷ rest) ≡ true
taken-has_id ls names first rest found e =
    elim (most_common-found ls names (first ∷ rest) 0 no_lambda found e) [
      | inl q ↦
          subst (λ (p : ℕ × ℕ). has_id (taken first p) (first ∷ rest) ≡ true) q
            (has_id_head first rest)
      | inr (has, common) ↦ elim (Bool-cases (found.1 == no_lambda)) [
        | inl none_ ↦ rw none_ (has_id_head first rest)
        | inr some_ ↦ rw some_ has
      ]
    ]

pick_lambda-nil :
    (t : Thunk) (e : MeowEngine) (id : ℕ)
    → e.free_lambdas ≡ []
    → ¬ (pick_lambda t most_objects e ≡ ok id)
unfolding pick_lambda
pick_lambda-nil t e id q p =
    err-ne-ok (runtime_error "No free lambdas to pick from.") id (sym none_ ∙ p)
  where
    none_ : pick_lambda t most_objects e ≡ err (runtime_error "No free lambdas to pick from.")
    none_ = rw q refl

-- Whatever is picked is free.
pub pick_lambda-has_id :
    (t : Thunk) (e : MeowEngine) (id : ℕ) (ids : List ℕ)
    → e.free_lambdas ≡ ids
    → pick_lambda t most_objects e ≡ ok id
    → has_id id ids ≡ true
pick_lambda-has_id t e id [] q p = absurd (pick_lambda-nil t e id q p)
pick_lambda-has_id t e id (first ∷ rest) q p =
    let found = >>=-eq-ok _ _ (sym (pick_lambda-cons t e first rest q) ∙ p) in
    subst (λ j. has_id j (first ∷ rest) ≡ true) (ok-injective found.2)
      (taken-has_id e.lambdas (needs t) first rest found.0 found.1)
