-- ===== src/Playlist/SearchTree/Named.antt =====
-- playlist.c: which item has a name, and how little of the items the order of the search tree looks at.
use Prim.Native.Nat.{Ordering}
use Prim.Native.Nat.Ordering.{lt, eq, gt}
use mocp.Prelude.{
  ℕ, suc, ◌+◌, ◌≡◌, refl, sym, ◌∙◌, ap, Bool, false, Option, none, some, List, [], ◌∷◌, ◌++◌, All,
  if◌then◌else◌, length, arith,
}
use mocp.Bytes.{Str}
use mocp.Item.{PlistItem}
use mocp.RbTree.Place.{IsSorted}
use mocp.RbTree.Sorted.{find_list}
use mocp.RbTree.Lookup.{is_eq}
use mocp.Playlist.SearchTree.{file_at, order_of}

module _ (strcoll : Str → Str → Ordering) where
  -- the item has a file, and its name is this one
  abbrev pub names : Option Str → Str → Bool
  names none f = false
  names (some g) f = is_eq (strcoll f g)

  -- the number of the last item with this name; the list is what stands from number i on
  unfoldable pub last_index : List PlistItem → ℕ → Str → Option ℕ
  last_index [] i f = none
  last_index (item ∷ items) i f = elim (last_index items (suc i) f) [
    | some j ↦ some j
    | none ↦ if names item.file f then some i else none
  ]

  unfoldable pub last_named : List PlistItem → Str → Option ℕ
  last_named items f = last_index items 0 f

  last_index-append :
      (items : List PlistItem) (item : PlistItem) (i : ℕ) (f : Str)
      → last_index (items ++ (item ∷ [])) i f
        ≡ (if names item.file f then some (i + length items) else last_index items i f)
  unfolding last_index
  last_index-append [] item i f = ground arith
  last_index-append (x ∷ items) item i f = ground (arith, last_index-append items item (suc i) f)

  pub last_named-append :
      (items : List PlistItem) (item : PlistItem) (f : Str)
      → last_named (items ++ (item ∷ [])) f
        ≡ (if names item.file f then some (length items) else last_named items f)
  unfolding last_named
  last_named-append items item f = last_index-append items item 0 f ∙ ground arith

-- Two lists of items that have the same names at the numbers of the tree.
module _ (strcoll : Str → Str → Ordering) (xs ys : List PlistItem) where
  pub All-agree :
      (k : ℕ) (is : List ℕ)
      → file_at xs k ≡ file_at ys k
      → All (λ i. file_at xs i ≡ file_at ys i) is
      → All (λ i. strcoll (file_at xs i) (file_at xs k) ≡ gt) is
      → All (λ i. strcoll (file_at ys i) (file_at ys k) ≡ gt) is
  All-agree k [] h e a = tt
  All-agree k (i ∷ is) h e a = (rw (sym e.0, sym h) a.0, All-agree k is h e.1 a.1)

  pub IsSorted-agree :
      (is : List ℕ)
      → All (λ i. file_at xs i ≡ file_at ys i) is
      → IsSorted (order_of strcoll xs) is
      → IsSorted (order_of strcoll ys) is
  IsSorted-agree [] e s = tt
  IsSorted-agree (i ∷ is) e s = (All-agree i is e.0 e.1 s.0, IsSorted-agree is e.1 s.1)

  pub find_list-agree :
      (f : Str) (is : List ℕ)
      → All (λ i. file_at xs i ≡ file_at ys i) is
      → find_list (order_of strcoll ys) f is ≡ find_list (order_of strcoll xs) f is
  unfolding find_list
  find_list-agree f [] e = refl
  find_list-agree f (i ∷ is) e =
      rw (find_list, sym e.0)
        (ap (λ r. elim (strcoll f (file_at xs i)) [ lt ↦ none | eq ↦ some i | gt ↦ r ])
          (find_list-agree f is e.1))
