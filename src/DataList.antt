-- ===== src/DataList.antt =====
-- `Thunk::DataList` (src/thunk/thunk.hh), a `std::multimap` from object names to file names: kept in
-- the order of the keys, and items with equal keys in the order of their insertion.
use gg.Prelude.{
  ◌≡◌, refl, ap, sym, ◌∙◌, Bool, true, false, List, [], ◌∷◌, ◌++◌, arith, ltb, ◌==◌, if◌then◌else◌,
  append_assoc, append-nil, All, All-append,
}
use gg.Text.{Bytes, ◌≈◌}

-- `std::less<std::string>`: lexicographic on bytes.
infix 50 ◌≺◌
unfoldable pub ◌≺◌ : Bytes → Bytes → Bool
s ≺ [] = false
[] ≺ (y ∷ t) = true
(x ∷ s) ≺ (y ∷ t) = let rest = s ≺ t in if x == y then rest else ltb x y

abbrev pub DataItem : Type 0
DataItem = Bytes × Bytes

abbrev pub DataList : Type 0
DataList = List DataItem

-- Behind the items whose key is not greater.
unfoldable pub emplace : DataList → DataItem → DataList
emplace [] item = item ∷ []
emplace (x ∷ m) item = let rest = emplace m item in if item.0 ≺ x.0 then item ∷ x ∷ m else x ∷ rest

unfoldable pub emplace_all : DataList → List DataItem → DataList
emplace_all m [] = m
emplace_all m (item ∷ items) = emplace_all (emplace m item) items

-- The file names of the items with key `k`, as `equal_range` visits them.
unfoldable pub names_of : Bytes → DataList → List Bytes
names_of k [] = []
names_of k ((j, name) ∷ m) = let rest = names_of k m in if j ≈ k then name ∷ rest else rest

-- What is left when they have been erased.
unfoldable pub erase_key : Bytes → DataList → DataList
erase_key k [] = []
erase_key k (x ∷ m) = let rest = erase_key k m in if x.0 ≈ k then rest else x ∷ rest

-- No key is greater than `k`.
abbrev pub UpTo : Bytes → DataList → Type 0
UpTo k = All (λ x. (k ≺ x.0) ≡ false)

-- No key is less than `k`.
abbrev pub From : Bytes → DataList → Type 0
From k = All (λ x. (x.0 ≺ k) ≡ false)

-- The keys do not fall along the list.
abbrev pub IsSorted : DataList → Type 0
IsSorted [] = Unit
IsSorted (x ∷ m) = From x.0 m × IsSorted m

≺_asymm : (s t : Bytes) → (s ≺ t) ≡ true → (t ≺ s) ≡ false
unfolding ◌≺◌
≺_asymm [] [] h = cc
≺_asymm [] (y ∷ t) h = refl
≺_asymm (x ∷ s) [] h = cc
≺_asymm (x ∷ s) (y ∷ t) h = ground (arith, ≺_asymm s t)

≺_trans : (s t u : Bytes) → (s ≺ t) ≡ true → (u ≺ t) ≡ false → (u ≺ s) ≡ false
unfolding ◌≺◌
≺_trans s [] u h k = ground arith
≺_trans [] (y ∷ t) [] h k = refl
≺_trans [] (y ∷ t) (z ∷ u) h k = refl
≺_trans (x ∷ s) (y ∷ t) [] h k = ground arith
≺_trans (x ∷ s) (y ∷ t) (z ∷ u) h k = ground (arith, ≺_trans s t u)

From-below : (k l : Bytes) (m : DataList) → (k ≺ l) ≡ true → From l m → From k m
From-below k l [] h f = tt
From-below k l (x ∷ m) h f = (≺_trans k l x.0 h f.0, From-below k l m h f.1)

emplace-From :
    (k : Bytes) (m : DataList) (item : DataItem)
    → From k m
    → (item.0 ≺ k) ≡ false
    → From k (emplace m item)
unfolding emplace
emplace-From k [] item f h = (h, tt)
emplace-From k (x ∷ m) item f h = ground (arith, emplace-From k m item f.1 h)

-- An insertion keeps the order.
pub emplace-IsSorted : (m : DataList) (item : DataItem) → IsSorted m → IsSorted (emplace m item)
unfolding emplace
emplace-IsSorted [] item s = (tt, tt)
emplace-IsSorted (x ∷ m) item s = ground (
  arith,
  emplace-IsSorted m item s.1,
  ≺_asymm item.0 x.0,
  From-below item.0 x.0 m,
  emplace-From x.0 m item s.0,
)

pub emplace_all-IsSorted :
    (m : DataList) (items : List DataItem) → IsSorted m → IsSorted (emplace_all m items)
unfolding emplace_all
emplace_all-IsSorted m [] s = s
emplace_all-IsSorted m (item ∷ items) s =
    emplace_all-IsSorted (emplace m item) items (emplace-IsSorted m item s)

emplace_last : (m : DataList) (item : DataItem) → UpTo item.0 m → emplace m item ≡ m ++ item ∷ []
unfolding emplace
emplace_last [] item h = refl
emplace_last (x ∷ m) item h = ground (arith, emplace_last m item h.1, h.0)

-- Items in order, none less than what is there, go to the end in turn.
emplace_all-append :
    (m items : DataList)
    → IsSorted items
    → All (λ y. UpTo y.0 m) items
    → emplace_all m items ≡ m ++ items
unfolding emplace_all
emplace_all-append m [] s a = sym (append-nil m)
emplace_all-append m (x ∷ items) s a =
    ap (λ l. emplace_all l items) (emplace_last m x a.0)
    ∙ emplace_all-append (m ++ x ∷ []) items s.1 (later m x items a.1 s.0)
    ∙ append_assoc m (x ∷ []) items
  where
    later :
        (m : DataList) (x : DataItem) (items : DataList)
        → All (λ y. UpTo y.0 m) items
        → From x.0 items
        → All (λ y. UpTo y.0 (m ++ x ∷ [])) items
    later m x [] a f = tt
    later m x (y ∷ items) a f =
        (All-append (λ z. (y.0 ≺ z.0) ≡ false) m (x ∷ []) a.0 (f.0, tt), later m x items a.1 f.1)

All-nil : (items : DataList) → All (λ y. UpTo y.0 []) items
All-nil [] = tt
All-nil (y ∷ items) = (tt, All-nil items)

-- A list in order is rebuilt by inserting its items in turn.
pub emplace_all-nil : (items : DataList) → IsSorted items → emplace_all [] items ≡ items
emplace_all-nil items s = emplace_all-append [] items s (All-nil items)
