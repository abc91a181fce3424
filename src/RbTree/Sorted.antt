-- ===== src/RbTree/Sorted.antt =====
-- What the operations of rbtree.c mean for the data in order: a sorted list.
use Prim.Native.Nat.{Ordering}
use Prim.Native.Nat.Ordering.{lt, eq, gt}
use mocp.Prelude.{◌≡◌, refl, sym, ◌∙◌, Option, some, none, List, [], ◌∷◌, ◌++◌, All, arith}
use mocp.RbTree.{Order}
use mocp.RbTree.Place.{IsLawful, IsSorted, place}

-- of the list, if there is one
abbrev pub Given : {D : Type 0} → (List D → Type 0) → Option (List D) → Type 0
Given P none = Unit {0}
Given P (some ys) = P ys

module _ {K D : Type 0} (o : Order K D) where
  unfoldable pub insert_list : D → List D → Option (List D)
  insert_list d [] = some (d ∷ [])
  insert_list d (x ∷ xs) = elim (o.cmp (o.key d) (o.key x)) [
    | lt ↦ some (d ∷ (x ∷ xs))
    | eq ↦ none
    | gt ↦ elim (insert_list d xs) [ none ↦ none | some ys ↦ some (x ∷ ys) ]
  ]

  unfoldable pub delete_list : K → List D → List D
  delete_list k [] = []
  delete_list k (x ∷ xs) = elim (o.cmp k (o.key x)) [
    | lt ↦ x ∷ xs
    | eq ↦ xs
    | gt ↦ x ∷ delete_list k xs
  ]

  unfoldable pub find_list : K → List D → Option D
  find_list k [] = none
  find_list k (x ∷ xs) = elim (o.cmp k (o.key x)) [ lt ↦ none | eq ↦ some x | gt ↦ find_list k xs ]

  -- The three of them by the place of the key.
  abbrev pub inserted : D → List D × Option D × List D → Option (List D)
  inserted d (xs, none, ys) = some (xs ++ (d ∷ ys))
  inserted d (xs, some v, ys) = none

  pub insert_list-place :
      (d : D) (xs : List D) → insert_list d xs ≡ inserted d (place o (o.key d) xs)
  unfolding insert_list place
  insert_list-place d [] = refl
  insert_list-place d (x ∷ xs) = ground (arith, insert_list-place d xs)

  pub delete_list-place :
      (k : K) (xs : List D) → delete_list k xs ≡ (place o k xs).0 ++ (place o k xs).2
  unfolding delete_list place
  delete_list-place k [] = refl
  delete_list-place k (x ∷ xs) = ground (arith, delete_list-place k xs)

  pub find_list-place : (k : K) (xs : List D) → find_list k xs ≡ (place o k xs).1
  unfolding find_list place
  find_list-place k [] = refl
  find_list-place k (x ∷ xs) = ground (arith, find_list-place k xs)

  pub delete_list-absent : (k : K) (xs : List D) → find_list k xs ≡ none → delete_list k xs ≡ xs
  unfolding delete_list find_list
  delete_list-absent k [] e = refl
  delete_list-absent k (x ∷ xs) e = ground (arith, delete_list-absent k xs)

  pub insert_list-All :
      (P : D → Type 0) (d : D) (xs : List D) → P d → All P xs → Given (All P) (insert_list d xs)
  unfolding insert_list
  insert_list-All P d [] h a = (h, tt)
  insert_list-All P d (x ∷ xs) h a = by (insert_list-All P d xs h a.1) (o.cmp (o.key d) (o.key x))
    where
      at :
          (r : Option (List D))
          → Given (All P) r
          → Given (All P) (elim r [ none ↦ none | some ys ↦ some (x ∷ ys) ])
      at none g = tt
      at (some ys) g = (a.0, g)

      by :
          Given (All P) (insert_list d xs)
          → (r : Ordering)
          → Given (All P) (elim r [
            | lt ↦ some (d ∷ (x ∷ xs))
            | eq ↦ none
            | gt ↦ elim (insert_list d xs) [ none ↦ none | some ys ↦ some (x ∷ ys) ]
          ])
      by g lt = (h, a)
      by g eq = tt
      by g gt = at (insert_list d xs) g

  All-trans :
      (l : IsLawful o) (d x : D) (xs : List D)
      → o.cmp (o.key x) (o.key d) ≡ gt
      → All (λ y. o.cmp (o.key y) (o.key x) ≡ gt) xs
      → All (λ y. o.cmp (o.key y) (o.key d) ≡ gt) xs
  All-trans l d x [] h a = tt
  All-trans l d x (y ∷ xs) h a =
      (l.above (o.key y) (o.key x) (o.key d) a.0 h, All-trans l d x xs h a.1)

  pub insert_list-IsSorted :
      IsLawful o → (d : D) (xs : List D) → IsSorted o xs → Given (IsSorted o) (insert_list d xs)
  unfolding insert_list
  insert_list-IsSorted l d [] s = (tt, tt)
  insert_list-IsSorted l d (x ∷ xs) s =
      by (insert_list-IsSorted l d xs s.1)
        (insert_list-All (λ y. o.cmp (o.key y) (o.key x) ≡ gt) d xs) (o.cmp (o.key d) (o.key x))
        refl
    where
      at :
          (r : Option (List D))
          → Given (IsSorted o) r
          → Given (All (λ y. o.cmp (o.key y) (o.key x) ≡ gt)) r
          → Given (IsSorted o) (elim r [ none ↦ none | some ys ↦ some (x ∷ ys) ])
      at none g h = tt
      at (some ys) g h = (h, g)

      by :
          Given (IsSorted o) (insert_list d xs)
          → (o.cmp (o.key d) (o.key x) ≡ gt
              → All (λ y. o.cmp (o.key y) (o.key x) ≡ gt) xs
              → Given (All (λ y. o.cmp (o.key y) (o.key x) ≡ gt)) (insert_list d xs))
          → (r : Ordering) → o.cmp (o.key d) (o.key x) ≡ r
          → Given (IsSorted o) (elim r [
            | lt ↦ some (d ∷ (x ∷ xs))
            | eq ↦ none
            | gt ↦ elim (insert_list d xs) [ none ↦ none | some ys ↦ some (x ∷ ys) ]
          ])
      by g h lt e = (
        (l.swapped (o.key d) (o.key x) e, All-trans l d x xs (l.swapped (o.key d) (o.key x) e) s.0),
        s,
      )
      by g h eq e = tt
      by g h gt e = at (insert_list d xs) g (h e s.0)

  pub delete_list-All : (P : D → Type 0) (k : K) (xs : List D) → All P xs → All P (delete_list k xs)
  unfolding delete_list
  delete_list-All P k [] a = a
  delete_list-All P k (x ∷ xs) a = by (delete_list-All P k xs a.1) (o.cmp k (o.key x))
    where
      by :
          All P (delete_list k xs)
          → (r : Ordering) → All P (elim r [ lt ↦ x ∷ xs | eq ↦ xs | gt ↦ x ∷ delete_list k xs ])
      by h lt = a
      by h eq = a.1
      by h gt = (a.0, h)

  pub delete_list-IsSorted : (k : K) (xs : List D) → IsSorted o xs → IsSorted o (delete_list k xs)
  unfolding delete_list
  delete_list-IsSorted k [] s = s
  delete_list-IsSorted k (x ∷ xs) s =
      by (delete_list-All (λ y. o.cmp (o.key y) (o.key x) ≡ gt) k xs s.0)
        (delete_list-IsSorted k xs s.1) (o.cmp k (o.key x))
    where
      by :
          All (λ y. o.cmp (o.key y) (o.key x) ≡ gt) (delete_list k xs)
          → IsSorted o (delete_list k xs)
          → (r : Ordering)
          → IsSorted o (elim r [ lt ↦ x ∷ xs | eq ↦ xs | gt ↦ x ∷ delete_list k xs ])
      by h t lt = s
      by h t eq = s.1
      by h t gt = (h, t)

  -- Where no entry has the key, the insertion does not fail.
  pub insert_list-absent :
      (d : D) (xs : List D)
      → find_list (o.key d) xs ≡ none
      → (ys : List D) × (insert_list d xs ≡ some ys)
  insert_list-absent d xs e =
      go (place o (o.key d) xs) (insert_list-place d xs) (sym (find_list-place (o.key d) xs) ∙ e)
    where
      go :
          (p : List D × Option D × List D)
          → insert_list d xs ≡ inserted d p
          → p.1 ≡ none
          → (ys : List D) × (insert_list d xs ≡ some ys)
      go (bs, none, cs) i h = (bs ++ (d ∷ cs), i)
      go (bs, some v, cs) i h = cc
