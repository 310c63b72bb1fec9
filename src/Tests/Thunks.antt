-- ===== src/Tests/Thunks.antt =====
-- Examples for names and thunks.
use mathlib.Core.List.{Perm}
use gg.Prelude.{◌≡◌, refl, true, false, [], ◌∷◌, ◌++◌, map, none, inl, ok, length, arith}
use gg.Text.{codes, ◌≈◌, find, find_at, starts_with}
use gg.DataList.{emplace, erase_key, names_of, emplace_all, IsSorted, emplace_all-IsSorted, ◌≺◌}
use gg.Dict.{member}
use gg.Hash.{thunk, compute, type, size, base, for_output}
use gg.Hash.Fields.{compute_fields}
use gg.Thunk.{
  old_name, data_placeholder, update_output, update_data, update_outputs, new_name, set_timeout,
  add_link, update_placeholder, reinsert, replace_placeholders,
}
use gg.Thunk.Update.Rename.{update_output-moves}
use gg.Thunk.Update.Reinsert.{dependencies, rename}
use gg.Thunk.Update.Replace.{replace_all, update_placeholder-eq-replace_all}
use gg.Thunk.Wire.{hash, from_protobuf, to_protobuf}
use gg.Thunk.Wire.Fresh.{IsFresh, name_of, operations-IsFresh}
use gg.Thunk.Queries.{thunks_equal, texts_equal, thunks_equal_sound}
use gg.Path.{normalize}
use gg.Path.Rooted.{IsRooted, normalize-IsRooted}
use gg.Thunk.Files.{get_allowed_files, grants_write, grants_write-get_allowed_files}
use package.gg.Tests.Sample.{
  digest, codec, waiting, ready, output, name_value, name_thunk, name_tool,
}

compute_fields_example :
    (type (compute digest (codes "gg") thunk) ≡ ok thunk)
    × (size (compute digest (codes "gg") thunk) ≡ ok 2)
    × (length (compute digest (codes "gg") thunk) ≡ 52)
    × (base (compute digest (codes "gg") thunk) ≡ compute digest (codes "gg") thunk)
    × (base (for_output (compute digest (codes "gg") thunk) (codes "o"))
        ≡ compute digest (codes "gg") thunk)
compute_fields_example = compute_fields digest (codes "gg") (codes "o") thunk (omega arith)

new_name_waiting : new_name true output ≡ ok name_value
unfolding new_name
new_name_waiting = refl

update_output-waiting : update_output name_thunk true output waiting ≡ ok ready
unfolding update_output new_name reinsert names_of ◌≈◌ old_name type replace_placeholders find_at
    emplace erase_key find starts_with data_placeholder ◌≺◌
update_output-waiting = refl

update_output-moves_example :
    Perm (dependencies ready) (map (rename name_thunk name_value) waiting.thunks ++ waiting.values)
    × (names_of name_thunk ready.thunks ≡ [])
unfolding old_name
update_output-moves_example =
    update_output-moves name_thunk true output waiting ready name_value new_name_waiting
      update_output-waiting (let e : (name_value ≈ name_thunk) ≡ false = (unfold ◌≈◌ in refl) in e)

update_data-waiting : update_data waiting name_thunk (output ∷ []) ≡ ok ready
unfolding update_data update_outputs update_output new_name reinsert names_of ◌≈◌ old_name type
    replace_placeholders find_at emplace erase_key find starts_with data_placeholder ◌≺◌
update_data-waiting = refl

from_protobuf-waiting : from_protobuf (to_protobuf waiting) ≡ ok waiting
unfolding from_protobuf to_protobuf emplace_all emplace find starts_with
from_protobuf-waiting = refl

operations-IsFresh_example :
    ((hash digest codec waiting).0 ≡ name_of digest codec waiting)
    × ((hash digest codec (hash digest codec waiting).1).0 ≡ name_of digest codec waiting)
    × IsFresh digest codec (set_timeout waiting 7)
    × IsFresh digest codec (add_link waiting (codes "x") name_value)
    × IsFresh digest codec waiting
    × IsFresh digest codec ready
operations-IsFresh_example =
    operations-IsFresh digest codec waiting waiting ready (to_protobuf waiting) 7 (codes "x")
      name_value name_thunk (output ∷ []) (inl refl) from_protobuf-waiting update_data-waiting

update_placeholder-eq-replace_all_example :
    update_placeholder (codes "ab") (codes "b") (codes "aabab")
    ≡ replace_all (codes "ab") (codes "b") 0 (codes "aabab")
update_placeholder-eq-replace_all_example =
    update_placeholder-eq-replace_all (codes "ab") (codes "b") (omega arith) (codes "aabab")

emplace_all-IsSorted_example :
    IsSorted (emplace_all [] ((name_tool, []) ∷ (name_value, []) ∷ (name_thunk, []) ∷ []))
emplace_all-IsSorted_example =
    emplace_all-IsSorted [] ((name_tool, []) ∷ (name_value, []) ∷ (name_thunk, []) ∷ []) tt

grants_write-get_allowed_files_example :
    grants_write
      (get_allowed_files (λ h. codes "/b/" ++ h) (codes "/b") name_thunk waiting)
      (codes "o")
    ≡ member waiting.outputs (codes "o")
grants_write-get_allowed_files_example =
    grants_write-get_allowed_files (λ h. codes "/b/" ++ h) (codes "/b") name_thunk waiting
      (codes "o")

waiting-equal : thunks_equal waiting (record waiting { links = [] }) ≡ true
unfolding thunks_equal texts_equal ◌≈◌
waiting-equal = refl

thunks_equal_sound_example :
    record waiting { links = []; hash_ = none } ≡ record waiting { links = [] }
thunks_equal_sound_example =
    thunks_equal_sound waiting (record waiting { links = [] }) waiting-equal

normalize-IsRooted_example :
    IsRooted (normalize ([] ∷ []) (codes "a" ∷ codes ".." ∷ codes ".." ∷ codes "b" ∷ []))
normalize-IsRooted_example =
    normalize-IsRooted (codes "a" ∷ codes ".." ∷ codes ".." ∷ codes "b" ∷ []) ([] ∷ []) refl
