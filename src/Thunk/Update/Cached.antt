-- ===== src/Thunk/Update/Cached.antt =====
-- `update_data` on the cached name.
use gg.Prelude.{
  ◌≡◌, refl, ap, sym, ◌∙◌, inl, inr, Bool, true, false, none, List, [], ◌∷◌, ok, >>=-eq-ok,
  ok-injective, err-ne-ok,
}
use gg.Text.{Bytes}
use gg.Thunk.{
  Thunk, ThunkOutput, reinsert, replace_placeholders, old_name, new_name, update_output,
  update_outputs, update_data,
}
use package.gg.Thunk.Update.Reinsert.{
  type_cases, reinsert_nil, reinsert_thunk, reinsert_value, reinsert_err,
}

hash_-reinsert :
    (h : Bytes) (names : List Bytes) (t t' : Thunk)
    → reinsert h names t ≡ ok t'
    → t'.hash_ ≡ t.hash_
hash_-reinsert h [] t t' e = ap (λ u. u.hash_) (ok-injective (sym e ∙ reinsert_nil h t))
hash_-reinsert h (name ∷ names) t t' e = elim (type_cases h) [
  | inl v ↦ hash_-reinsert h names _ t' (sym (reinsert_value h name names t v) ∙ e)
  | inr (inl v) ↦ hash_-reinsert h names _ t' (sym (reinsert_thunk h name names t v) ∙ e)
  | inr (inr (x, v)) ↦ absurd (err-ne-ok x t' (sym (reinsert_err h name names t x v) ∙ e))
]

hash_-replace_placeholders :
    (o n : Bytes) (u : Thunk) → (replace_placeholders o n u).hash_ ≡ u.hash_
unfolding replace_placeholders
hash_-replace_placeholders o n u = refl

hash_-update_output :
    (original : Bytes) (first : Bool) (output : ThunkOutput) (t t' : Thunk)
    → update_output original first output t ≡ ok t'
    → t'.hash_ ≡ t.hash_
unfolding update_output
hash_-update_output original first output t t' e =
    let a = >>=-eq-ok (new_name first output) _ e in
    let b = >>=-eq-ok _ _ a.2 in
    sym (ap (λ u. u.hash_) (ok-injective b.2))
    ∙ hash_-replace_placeholders (old_name original first output) a.0 b.0
    ∙ hash_-reinsert a.0 _ _ b.0 b.1

hash_-update_outputs :
    (original : Bytes) (first : Bool) (outputs : List ThunkOutput) (t t' : Thunk)
    → update_outputs original first outputs t ≡ ok t'
    → t'.hash_ ≡ t.hash_
unfolding update_outputs
hash_-update_outputs original first [] t t' e = ap (λ u. u.hash_) (ok-injective (sym e))
hash_-update_outputs original first (o ∷ outputs) t t' e =
    let a = >>=-eq-ok (update_output original first o t) _ e in
    hash_-update_outputs original false outputs a.0 t' a.2
    ∙ hash_-update_output original first o t a.0 a.1

-- Renaming drops the cached name.
pub hash_-update_data :
    (t t' : Thunk) (original : Bytes) (outputs : List ThunkOutput)
    → update_data t original outputs ≡ ok t'
    → t'.hash_ ≡ none
unfolding update_data
hash_-update_data t t' original outputs e =
    hash_-update_outputs original true outputs (record t { hash_ = none }) t' e
