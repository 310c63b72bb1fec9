-- ===== src/Path/Rooted.antt =====
-- The components of an absolute path.
use gg.Prelude.{◌≡◌, false, List, [], ◌∷◌, arith, is_empty}
use gg.Text.{Bytes, ◌≈◌}
use package.gg.Path.{visit, normalize, go_up, dot, dot_dot}

-- The last component of the list is the root, and no other is empty, `.` or `..`.
abbrev pub IsRooted : List Bytes → Type 0
IsRooted [] = ⊥
IsRooted (x ∷ []) = x ≡ []
IsRooted (x ∷ y ∷ s) =
    ((x ≈ dot_dot) ≡ false) × ((x ≈ dot) ≡ false) × (is_empty x ≡ false) × IsRooted (y ∷ s)

go_up-IsRooted : (s : List Bytes) → IsRooted s → IsRooted (go_up s)
unfolding go_up ◌≈◌
go_up-IsRooted [] r = absurd r
go_up-IsRooted ([] ∷ []) r = r
go_up-IsRooted ((c ∷ x) ∷ []) r = absurd (cc)
go_up-IsRooted (x ∷ y ∷ s) r = ground (arith, r.0, r.2, r.3)

grown-IsRooted :
    (c : Bytes) (s : List Bytes)
    → (c ≈ dot_dot) ≡ false
    → (c ≈ dot) ≡ false
    → is_empty c ≡ false
    → IsRooted s
    → IsRooted (c ∷ s)
grown-IsRooted c [] a b e r = absurd r
grown-IsRooted c (y ∷ s) a b e r = (a, b, e, r)

visit-IsRooted : (c : Bytes) (s : List Bytes) → IsRooted s → IsRooted (visit c s)
unfolding visit
visit-IsRooted c s r = ground (arith, go_up-IsRooted s r, grown-IsRooted c s)

-- Where the components so far are the root, with no `.`, no `..` and no empty one above it, the
-- loop of `lexically_normal` keeps them so.
pub normalize-IsRooted : (cs s : List Bytes) → IsRooted s → IsRooted (normalize s cs)
unfolding normalize
normalize-IsRooted [] s r = r
normalize-IsRooted (c ∷ cs) s r = normalize-IsRooted cs (visit c s) (visit-IsRooted c s r)
