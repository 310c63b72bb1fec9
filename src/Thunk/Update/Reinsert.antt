-- ===== src/Thunk/Update/Reinsert.antt =====
-- `reinsert`, as a permutation of the dependencies.
use mathlib.Core.List.Perm
use mathlib.Core.List.{Perm, perm_middle}
use gg.Prelude.{
  ◌≡◌, refl, sym, subst, ◌∙◌, ◌⊎◌, inl, inr, false, List, [], ◌∷◌, ◌++◌, map, arith, if◌then◌else◌,
  Error, ok, err, Result-cases, ok-injective, err-ne-ok,
}
use gg.Text.{Bytes, ◌≈◌}
use gg.DataList.{DataItem, DataList, emplace, names_of, erase_key}
use gg.Hash
use gg.Hash.{ObjectType, value, thunk}
use gg.Thunk.{Thunk, reinsert}

-- Everything that a thunk depends on.
abbrev pub dependencies : Thunk → List DataItem
dependencies t = t.thunks ++ t.values

-- An item with its key renamed.
unfoldable pub rename : Bytes → Bytes → DataItem → DataItem
rename old_hash new_hash item = if item.0 ≈ old_hash then (new_hash, item.1) else item

pub with_name : Bytes → List Bytes → List DataItem
with_name h = map λ name. (h, name)

emplace-perm : (m : DataList) (x : DataItem) → Perm (emplace m x) (x ∷ m)
unfolding emplace
emplace-perm [] x = Perm.refl (x ∷ [])
emplace-perm (y ∷ m) x =
    ground
      (arith, Perm.refl (x ∷ y ∷ m), Perm.trans (Perm.cons y (emplace-perm m x)) (Perm.swap x y m))

pub rename-perm :
    (old new : Bytes) (m : DataList)
    → Perm (with_name new (names_of old m) ++ erase_key old m) (map (rename old new) m)
unfolding names_of erase_key rename with_name
rename-perm old new [] = Perm.nil
rename-perm old new (x ∷ m) =
    let rest = rename-perm old new m in
    ground (
      arith,
      Perm.cons (new, x.1) rest,
      Perm.trans (perm_middle {a = x} (with_name new (names_of old m)) (erase_key old m))
          (Perm.cons x rest),
    )

pub type_cases :
    (h : Bytes)
    → (Hash.type h ≡ ok value) ⊎ ((Hash.type h ≡ ok thunk) ⊎ ((e : Error) × (Hash.type h ≡ err e)))
type_cases h = elim (Result-cases (Hash.type h)) [
  | inl (value, e) ↦ inl e
  | inl (thunk, e) ↦ inr (inl e)
  | inr e ↦ inr (inr e)
]

module _ (h name : Bytes) (names : List Bytes) (t : Thunk) where
  pub reinsert_thunk :
      Hash.type h ≡ ok thunk
      → reinsert h (name ∷ names) t
        ≡ reinsert h names (record t { thunks = emplace t.thunks (h, name) })
  unfolding reinsert
  reinsert_thunk e = rw (e, reinsert)

  pub reinsert_value :
      Hash.type h ≡ ok value
      → reinsert h (name ∷ names) t
        ≡ reinsert h names (record t { values = emplace t.values (h, name) })
  unfolding reinsert
  reinsert_value e = rw (e, reinsert)

  pub reinsert_err : (x : Error) → Hash.type h ≡ err x → reinsert h (name ∷ names) t ≡ err x
  unfolding reinsert
  reinsert_err x e = rw (e, reinsert)

pub reinsert_nil : (h : Bytes) (t : Thunk) → reinsert h [] t ≡ ok t
unfolding reinsert
reinsert_nil h t = refl

put_thunk :
    (h name : Bytes) (names : List Bytes) (t : Thunk)
    → Perm
        (with_name h names ++ (emplace t.thunks (h, name) ++ t.values))
        ((h, name) ∷ with_name h names ++ dependencies t)
put_thunk h name names t =
    Perm.trans
      (Perm.append_left (with_name h names)
        (Perm.append_right t.values (emplace-perm t.thunks (h, name))))
      (perm_middle {a = (h, name)} (with_name h names) (dependencies t))

put_value :
    (h name : Bytes) (names : List Bytes) (t : Thunk)
    → Perm
        (with_name h names ++ (t.thunks ++ emplace t.values (h, name)))
        ((h, name) ∷ with_name h names ++ dependencies t)
put_value h name names t =
    Perm.trans
      (Perm.append_left (with_name h names) (
        Perm.trans (Perm.append_left t.thunks (emplace-perm t.values (h, name)))
          (perm_middle {a = (h, name)} t.thunks t.values)))
      (perm_middle {a = (h, name)} (with_name h names) (dependencies t))

pub reinsert-perm :
    (h : Bytes) (names : List Bytes) (t t' : Thunk)
    → reinsert h names t ≡ ok t'
    → Perm (dependencies t') (with_name h names ++ dependencies t)
unfolding with_name
reinsert-perm h [] t t' e =
    subst (λ u. Perm (dependencies u) (dependencies t)) (ok-injective (sym (reinsert_nil h t) ∙ e))
      (Perm.refl (dependencies t))
reinsert-perm h (name ∷ names) t t' e = elim (type_cases h) [
  | inl v ↦
      Perm.trans (reinsert-perm h names _ t' (sym (reinsert_value h name names t v) ∙ e))
        (put_value h name names t)
  | inr (inl v) ↦
      Perm.trans (reinsert-perm h names _ t' (sym (reinsert_thunk h name names t v) ∙ e))
        (put_thunk h name names t)
  | inr (inr (x, v)) ↦ absurd (err-ne-ok x t' (sym (reinsert_err h name names t x v) ∙ e))
]

names_of-emplace :
    (k : Bytes) (m : DataList) (x : DataItem)
    → (x.0 ≈ k) ≡ false
    → names_of k (emplace m x) ≡ names_of k m
unfolding names_of emplace
names_of-emplace k [] x h = ground arith
names_of-emplace k (y ∷ m) x h = ground (arith, names_of-emplace k m x h)

pub names_of-erase_key : (k : Bytes) (m : DataList) → names_of k (erase_key k m) ≡ []
unfolding names_of erase_key
names_of-erase_key k [] = refl
names_of-erase_key k (y ∷ m) = ground (arith, names_of-erase_key k m)

-- What the items that are put back leave alone.
pub record Kept (k : Bytes) (t t' : Thunk) : Type 0 where
  pub names : names_of k t'.thunks ≡ names_of k t.thunks
  pub function : t'.function ≡ t.function
  pub executables : t'.executables ≡ t.executables
  pub outputs : t'.outputs ≡ t.outputs
  pub links : t'.links ≡ t.links
  pub timeout : t'.timeout ≡ t.timeout
  pub hash_ : t'.hash_ ≡ t.hash_

pub reinsert-Kept :
    (k h : Bytes) (names : List Bytes) (t t' : Thunk)
    → (h ≈ k) ≡ false
    → reinsert h names t ≡ ok t'
    → Kept k t t'
reinsert-Kept k h [] t t' d e =
    subst (Kept k t) (ok-injective (sym (reinsert_nil h t) ∙ e)) (record {
      names = refl;
      function = refl;
      executables = refl;
      outputs = refl;
      links = refl;
      timeout = refl;
      hash_ = refl;
    })
reinsert-Kept k h (name ∷ names) t t' d e = elim (type_cases h) [
  | inl v ↦ step (reinsert-Kept k h names _ t' d (sym (reinsert_value h name names t v) ∙ e))
  | inr (inl v) ↦ step' (reinsert-Kept k h names _ t' d (sym (reinsert_thunk h name names t v) ∙ e))
  | inr (inr (x, v)) ↦ absurd (err-ne-ok x t' (sym (reinsert_err h name names t x v) ∙ e))
]
  where
    step : Kept k (record t { values = emplace t.values (h, name) }) t' → Kept k t t'
    step r = record {
      names = r.names;
      function = r.function;
      executables = r.executables;
      outputs = r.outputs;
      links = r.links;
      timeout = r.timeout;
      hash_ = r.hash_;
    }

    step' : Kept k (record t { thunks = emplace t.thunks (h, name) }) t' → Kept k t t'
    step' r = record {
      names = r.names ∙ names_of-emplace k t.thunks (h, name) d;
      function = r.function;
      executables = r.executables;
      outputs = r.outputs;
      links = r.links;
      timeout = r.timeout;
      hash_ = r.hash_;
    }
