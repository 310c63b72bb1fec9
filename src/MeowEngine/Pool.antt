-- ===== src/MeowEngine/Pool.antt =====
-- The worker pool: which workers are idle, which are busy, and how many jobs there are.
use gg.Prelude.{
  ℕ, suc, ◌+◌, ◌≤◌, ◌<◌, ◌≡◌, refl, List, [], ◌∷◌, ◌++◌, arith, ◌==◌, if◌then◌else◌, Option, none,
  some, All,
}
use package.gg.MeowEngine.{Lambda, LambdaState, idle, busy, change, insert_id, erase_id}

unfoldable pub idle_ids : List Lambda → List ℕ
idle_ids [] = []
idle_ids (l ∷ ls) = let rest = idle_ids ls in elim l.state [ idle ↦ l.id ∷ rest | busy ↦ rest ]

unfoldable pub busy_count : List Lambda → ℕ
busy_count [] = 0
busy_count (l ∷ ls) = let rest = busy_count ls in elim l.state [ idle ↦ rest | busy ↦ suc rest ]

-- The ids rise along the list, from `low` on, and are below `high`.
unfoldable pub IsAscending : ℕ → ℕ → List Lambda → Type 0
IsAscending low high [] = low ≤ high
IsAscending low high (l ∷ ls) = (low ≤ l.id) × IsAscending (suc l.id) high ls

-- The state of the worker with that id, if there is one.
unfoldable pub state_of : ℕ → List Lambda → Option LambdaState
state_of id [] = none
state_of id (l ∷ ls) = let rest = state_of id ls in if l.id == id then some l.state else rest

pub IsAscending-below : (low high : ℕ) (ls : List Lambda) → IsAscending low high ls → low ≤ high
unfolding IsAscending
IsAscending-below low high [] a = a
IsAscending-below low high (l ∷ ls) a = omega (arith, a.0, IsAscending-below (suc l.id) high ls a.1)

pub IsAscending-last :
    (low high : ℕ) (ls : List Lambda) (l : Lambda)
    → IsAscending low high ls
    → l.id ≡ high
    → IsAscending low (suc high) (ls ++ l ∷ [])
unfolding IsAscending
IsAscending-last low high [] l a e = (omega (arith, a), omega arith)
IsAscending-last low high (m ∷ ls) l a e = (a.0, IsAscending-last (suc m.id) high ls l a.1 e)

-- Nobody below the first id.
pub state_of-below :
    (id low high : ℕ) (ls : List Lambda)
    → IsAscending low high ls
    → id < low
    → state_of id ls ≡ none
unfolding state_of IsAscending
state_of-below id low high [] a h = refl
state_of-below id low high (l ∷ ls) a h =
    ground (arith, a.0, state_of-below id (suc l.id) high ls a.1 (omega (arith, a.0)))

-- A change of a worker that is not there changes nothing.
change-absent :
    (id : ℕ) (f : Lambda → Lambda) (ls : List Lambda) → state_of id ls ≡ none → change id f ls ≡ ls
unfolding state_of change
change-absent id f [] h = refl
change-absent id f (l ∷ ls) h = ground (arith, change-absent id f ls)

-- Ids that are all above come behind.
Above : ℕ → List ℕ → Type 0
Above id = All (λ j. id < j)

idle_ids-Above :
    (id low high : ℕ) (ls : List Lambda)
    → IsAscending low high ls
    → id < low
    → Above id (idle_ids ls)
unfolding idle_ids IsAscending Above
idle_ids-Above id low high [] a h = tt
idle_ids-Above id low high (l ∷ ls) a h =
    ground (arith, a.0, idle_ids-Above id (suc l.id) high ls a.1 (omega (arith, a.0)))

insert_id-Above : (id : ℕ) (js : List ℕ) → Above id js → insert_id id js ≡ id ∷ js
unfolding insert_id Above
insert_id-Above id [] a = refl
insert_id-Above id (j ∷ js) a = ground (arith, a.0)

module _ (id : ℕ) (f : Lambda → Lambda) (keeps : (l : Lambda) → (f l).id ≡ l.id) where
  pub IsAscending-change :
      (low high : ℕ) (ls : List Lambda)
      → IsAscending low high ls
      → IsAscending low high (change id f ls)
  unfolding IsAscending change
  IsAscending-change low high [] a = a
  IsAscending-change low high (l ∷ ls) a =
      ground (arith, keeps l, a.0, IsAscending-change (suc l.id) high ls a.1)

  module _ (busies : (l : Lambda) → (f l).state ≡ busy) where
    pub idle_ids-change_busy :
        (ls : List Lambda) → idle_ids (change id f ls) ≡ erase_id id (idle_ids ls)
    unfolding idle_ids change erase_id
    idle_ids-change_busy [] = refl
    idle_ids-change_busy (l ∷ ls) = ground (arith, keeps l, busies l, idle_ids-change_busy ls)

    pub busy_count-change_busy :
        (low high : ℕ) (ls : List Lambda)
        → IsAscending low high ls
        → state_of id ls ≡ some idle
        → busy_count (change id f ls) ≡ suc (busy_count ls)
    unfolding busy_count change state_of IsAscending
    busy_count-change_busy low high [] a s = cc
    busy_count-change_busy low high (l ∷ ls) a s = ground (
      arith,
      busies l,
      change-absent id f ls,
      state_of-below id (suc l.id) high ls a.1,
      busy_count-change_busy (suc l.id) high ls a.1,
    )

  module _ (idles : (l : Lambda) → (f l).state ≡ idle) where
    pub busy_count-change_idle :
        (low high : ℕ) (ls : List Lambda)
        → IsAscending low high ls
        → state_of id ls ≡ some busy
        → suc (busy_count (change id f ls)) ≡ busy_count ls
    unfolding busy_count change state_of IsAscending
    busy_count-change_idle low high [] a s = cc
    busy_count-change_idle low high (l ∷ ls) a s = ground (
      arith,
      idles l,
      change-absent id f ls,
      state_of-below id (suc l.id) high ls a.1,
      busy_count-change_idle (suc l.id) high ls a.1,
    )

    pub idle_ids-change_idle :
        (low high : ℕ) (ls : List Lambda) (s : LambdaState)
        → IsAscending low high ls
        → state_of id ls ≡ some s
        → idle_ids (change id f ls) ≡ insert_id id (idle_ids ls)
    unfolding idle_ids change state_of IsAscending insert_id
    idle_ids-change_idle low high [] st a s = cc
    idle_ids-change_idle low high (l ∷ ls) st a s = ground (
      arith,
      keeps l,
      idles l,
      change-absent id f ls,
      state_of-below id (suc l.id) high ls a.1,
      insert_id-Above id (idle_ids ls),
      idle_ids-Above id (suc l.id) high ls a.1,
      idle_ids-change_idle (suc l.id) high ls st a.1,
    )

pub insert_id-last :
    (low high : ℕ) (ls : List Lambda)
    → IsAscending low high ls
    → insert_id high (idle_ids ls) ≡ idle_ids ls ++ high ∷ []
unfolding idle_ids IsAscending insert_id
insert_id-last low high [] a = refl
insert_id-last low high (l ∷ ls) a =
    ground (arith, insert_id-last (suc l.id) high ls a.1, IsAscending-below (suc l.id) high ls a.1)

pub idle_ids-append : (ls ms : List Lambda) → idle_ids (ls ++ ms) ≡ idle_ids ls ++ idle_ids ms
unfolding idle_ids
idle_ids-append [] ms = refl
idle_ids-append (l ∷ ls) ms = ground (arith, idle_ids-append ls ms)

pub busy_count-append :
    (ls ms : List Lambda) → busy_count (ls ++ ms) ≡ busy_count ls + busy_count ms
unfolding busy_count
busy_count-append [] ms = omega arith
busy_count-append (l ∷ ls) ms = ground (arith, busy_count-append ls ms)
