-- ===== src/Thunk/Update/Rename.antt =====
-- `update_data` on the dependencies: what depended on the old name depends on the new one.
use mathlib.Core.List.Perm
use mathlib.Core.List.{Perm}
use gg.Prelude.{
  ◌≡◌, refl, ap, sym, subst, ◌∙◌, Bool, false, [], ◌++◌, map, append_assoc, ok, ◌>>=◌, >>=-eq-ok,
  ok-injective,
}
use gg.Text.{Bytes, ◌≈◌}
use gg.DataList.{names_of, erase_key}
use gg.Thunk.{Thunk, ThunkOutput, reinsert, replace_placeholders, old_name, new_name, update_output}
use package.gg.Thunk.Update.Reinsert.{
  dependencies, rename, with_name, rename-perm, reinsert-perm, names_of-erase_key, reinsert-Kept,
}

module _ (original : Bytes) (first : Bool) (output : ThunkOutput) (t t' : Thunk) (new : Bytes)
    (named : new_name first output ≡ ok new)
    (done : update_output original first output t ≡ ok t') where
  abbrev old : Bytes
  old = old_name original first output

  -- The thunk without the items that are to be renamed.
  abbrev emptied : Thunk
  emptied = record t { thunks = erase_key old t.thunks }

  unfold_update :
      update_output original first output t
      ≡ (reinsert new (names_of old t.thunks) emptied >>= λ u. ok (replace_placeholders old new u))
  unfolding update_output
  unfold_update = rw (named, update_output)

  middle :
      (u : Thunk) × (reinsert new (names_of old t.thunks) emptied ≡ ok u)
      × (ok (replace_placeholders old new u) ≡ ok t')
  middle = >>=-eq-ok _ _ (sym unfold_update ∙ done)

  placed : (u : Thunk) → dependencies (replace_placeholders old new u) ≡ dependencies u
  unfolding replace_placeholders
  placed u = refl

  -- After an output has been dealt with, the dependencies are the old ones with its old name
  -- renamed to the new one.
  pub update_output-rename : Perm (dependencies t') (map (rename old new) t.thunks ++ t.values)
  update_output-rename =
      subst (λ d. Perm d (map (rename old new) t.thunks ++ t.values))
        (sym (placed middle.0) ∙ ap dependencies (ok-injective middle.2))
        (Perm.trans (reinsert-perm new (names_of old t.thunks) emptied middle.0 middle.1) (
          subst (λ d. Perm d (map (rename old new) t.thunks ++ t.values))
            (append_assoc (with_name new (names_of old t.thunks)) (erase_key old t.thunks) t.values)
            (Perm.append_right t.values (rename-perm old new t.thunks))))

  gone : (new ≈ old) ≡ false → names_of old t'.thunks ≡ []
  gone differ =
      sym (ap (λ u. names_of old u.thunks) (ok-injective middle.2))
      ∙ thunks_placed middle.0
      ∙ (reinsert-Kept old new (names_of old t.thunks) emptied middle.0 differ middle.1).names
      ∙ names_of-erase_key old t.thunks
    where
      thunks_placed :
          (u : Thunk) → names_of old (replace_placeholders old new u).thunks ≡ names_of old u.thunks
      thunks_placed u = unfold replace_placeholders in refl

  -- After an output has been dealt with, where its old name and its new one differ, the
  -- dependencies are the old ones with the old name renamed to the new one, and no unresolved
  -- dependency has the old name.
  pub update_output-moves :
      (new ≈ old) ≡ false
      → Perm (dependencies t') (map (rename old new) t.thunks ++ t.values)
        × (names_of old t'.thunks ≡ [])
  update_output-moves differ = (update_output-rename, gone differ)
