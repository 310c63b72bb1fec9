-- ===== src/Dict.antt =====
-- `std::unordered_map` and `std::unordered_set` with text keys, as lists without repeated keys.
-- An iteration visits the entries in list order, one of the orders that C++ allows.
use gg.Prelude.{
  ◌≡◌, refl, Bool, true, false, ◌||◌, Option, none, some, List, [], ◌∷◌, ◌++◌, arith, if◌then◌else◌,
  Result, ok, err, out_of_range,
}
use gg.Text.{Bytes, ◌≈◌, ≈_iff}

abbrev pub Dict {ℓ} : Type ℓ → Type ℓ
Dict V = List (Bytes × V)

module _ {ℓ} {V : Type ℓ} where
  unfoldable pub get : Dict V → Bytes → Option V
  get [] k = none
  get ((j, v) ∷ m) k = if j ≈ k then some v else get m k

  -- `m.erase( k )`
  unfoldable pub erase : Dict V → Bytes → Dict V
  erase [] k = []
  erase ((j, v) ∷ m) k = let rest = erase m k in if j ≈ k then rest else (j, v) ∷ rest

  -- `m[ k ] = v`
  unfoldable pub put : Dict V → Bytes → V → Dict V
  put [] k v = (k, v) ∷ []
  put ((j, w) ∷ m) k v = let rest = put m k v in if j ≈ k then (k, v) ∷ m else (j, w) ∷ rest

  -- `m.emplace( k, v )`, which leaves an entry that is there.
  unfoldable pub emplace : Dict V → Bytes → V → Dict V
  emplace m k v = elim (get m k) [ none ↦ put m k v | some _ ↦ m ]

  -- `m.count( k )`
  unfoldable pub contains : Dict V → Bytes → Bool
  contains m k = elim (get m k) [ none ↦ false | some _ ↦ true ]

  -- `m.at( k )`
  unfoldable pub at : Dict V → Bytes → Result V
  at m k = elim (get m k) [ none ↦ err (out_of_range "at") | some v ↦ ok v ]

  pub get-erase : (m : Dict V) (k j : Bytes) → get (erase m k) j ≡ (if k ≈ j then none else get m j)
  unfolding get erase
  get-erase [] k j = ground arith
  get-erase ((i, v) ∷ m) k j = ground (arith, ≈_iff k j, ≈_iff i k, ≈_iff i j, get-erase m k j)

  pub get-put :
      (m : Dict V) (k j : Bytes) (v : V) → get (put m k v) j ≡ (if k ≈ j then some v else get m j)
  unfolding get put
  get-put [] k j v = refl
  get-put ((i, w) ∷ m) k j v = ground (arith, ≈_iff k j, ≈_iff i k, ≈_iff i j, get-put m k j v)

  pub get-emplace :
      (m : Dict V) (k j : Bytes) (v : V)
      → get (emplace m k v) j
        ≡ (if k ≈ j then (elim (get m j) [ none ↦ some v | some w ↦ some w ]) else get m j)
  unfolding emplace
  get-emplace m k j v = ground (arith, get-put m k j v, ≈_iff k j)

pub ruleset dict_laws = (get-erase, get-put, get-emplace)

-- A set of texts.
abbrev pub TextSet : Type 0
TextSet = List Bytes

unfoldable pub member : TextSet → Bytes → Bool
member [] k = false
member (j ∷ s) k = j ≈ k || member s k

-- `s.emplace( k )`
unfoldable pub add : TextSet → Bytes → TextSet
add s k = if member s k then s else s ++ k ∷ []

-- `s.insert( first, last )`
unfoldable pub add_all : TextSet → List Bytes → TextSet
add_all s [] = s
add_all s (k ∷ ks) = add_all (add s k) ks

-- `s.erase( k )`
unfoldable pub remove : TextSet → Bytes → TextSet
remove [] k = []
remove (j ∷ s) k = let rest = remove s k in if j ≈ k then rest else j ∷ rest

pub member-append : (s t : TextSet) (k : Bytes) → member (s ++ t) k ≡ (member s k || member t k)
unfolding member
member-append [] t k = refl
member-append (j ∷ s) t k = ground (arith, member-append s t k)

member_one : (k j : Bytes) → member (k ∷ []) j ≡ (k ≈ j)
unfolding member
member_one k j = ground arith

pub member-add : (s : TextSet) (k j : Bytes) → member (add s k) j ≡ (k ≈ j || member s j)
unfolding add
member-add s k j = ground (arith, member-append s (k ∷ []) j, ≈_iff k j, member_one k j)

pub member-add_all :
    (s ks : TextSet) (j : Bytes) → member (add_all s ks) j ≡ (member ks j || member s j)
unfolding add_all member
member-add_all s [] j = refl
member-add_all s (k ∷ ks) j = ground (arith, member-add_all (add s k) ks j, member-add s k j)

pub member-remove :
    (s : TextSet) (k j : Bytes) → member (remove s k) j ≡ (if k ≈ j then false else member s j)
unfolding member remove
member-remove [] k j = ground arith
member-remove (i ∷ s) k j = ground (arith, member-remove s k j, ≈_iff i k, ≈_iff i j, ≈_iff k j)

pub ruleset set_laws = (member-add, member-add_all, member-remove)
