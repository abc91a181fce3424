-- ===== src/RbTree/Place.antt =====
-- Where a key stands in a sorted list: what the trees of rbtree.c are measured by.
use Prim.Native.Nat.Ordering.{lt, eq, gt}
use mocp.Prelude.{◌≡◌, refl, Option, some, none, List, [], ◌∷◌, ◌++◌, All, arith}
use mocp.RbTree.{Order}

-- What the comparison functions promise: swapped arguments give the opposite sign, and the order is
-- transitive.
pub record IsLawful {K D : Type 0} (o : Order K D) : Type 0 where
  pub swapped : (a b : K) → o.cmp a b ≡ lt → o.cmp b a ≡ gt
  pub swapped_back : (a b : K) → o.cmp a b ≡ gt → o.cmp b a ≡ lt
  pub same : (a b : K) → o.cmp a b ≡ eq → o.cmp b a ≡ eq
  pub above : (a b c : K) → o.cmp a b ≡ gt → o.cmp b c ≡ gt → o.cmp a c ≡ gt
  pub above_same : (a b c : K) → o.cmp a b ≡ eq → o.cmp b c ≡ gt → o.cmp a c ≡ gt

module _ {K D : Type 0} (o : Order K D) where
  -- the entries of the list are below the key
  abbrev pub Above : K → List D → Type 0
  Above k xs = All (λ y. o.cmp k (o.key y) ≡ gt) xs

  -- every entry is above those before it
  abbrev pub IsSorted : List D → Type 0
  IsSorted [] = Unit {0}
  IsSorted (x ∷ xs) = All (λ y. o.cmp (o.key y) (o.key x) ≡ gt) xs × IsSorted xs

  -- the entries before the key, the entry that has it, and those behind
  unfoldable pub place : K → List D → List D × Option D × List D
  place k [] = ([], none, [])
  place k (x ∷ xs) = elim (o.cmp k (o.key x)) [
    | lt ↦ ([], none, x ∷ xs)
    | eq ↦ ([], some x, xs)
    | gt ↦ (x ∷ (place k xs).0, (place k xs).1, (place k xs).2)
  ]

  pub place-left :
      (k : K) (v : D) (xs ys : List D)
      → o.cmp k (o.key v) ≡ lt
      → place k (xs ++ (v ∷ ys)) ≡ ((place k xs).0, (place k xs).1, (place k xs).2 ++ (v ∷ ys))
  unfolding place
  place-left k v [] ys h = rw h refl
  place-left k v (x ∷ xs) ys h = ground (arith, place-left k v xs ys h)

  pub place-right :
      (k : K) (v : D) (xs ys : List D)
      → Above k xs
      → o.cmp k (o.key v) ≡ gt
      → place k (xs ++ (v ∷ ys)) ≡ (xs ++ (v ∷ (place k ys).0), (place k ys).1, (place k ys).2)
  unfolding place
  place-right k v [] ys a h = rw h refl
  place-right k v (x ∷ xs) ys a h = ground (arith, place-right k v xs ys a.1 h)

  pub place-at :
      (k : K) (v : D) (xs ys : List D)
      → Above k xs
      → o.cmp k (o.key v) ≡ eq
      → place k (xs ++ (v ∷ ys)) ≡ (xs, some v, ys)
  unfolding place
  place-at k v [] ys a h = rw h refl
  place-at k v (x ∷ xs) ys a h = ground (arith, place-at k v xs ys a.1 h)

  -- a sorted list taken apart at an entry
  pub record Apart (v : D) (xs ys : List D) : Type 0 where
    pub before : IsSorted xs
    pub behind : IsSorted ys
    pub below : Above (o.key v) xs

  All-end : (P : D → Type 0) (v : D) (xs ys : List D) → All P (xs ++ (v ∷ ys)) → All P xs × P v
  All-end P v [] ys a = (tt, a.0)
  All-end P v (x ∷ xs) ys a = let r = All-end P v xs ys a.1 in ((a.0, r.0), r.1)

  pub IsSorted-Apart : (v : D) (xs ys : List D) → IsSorted (xs ++ (v ∷ ys)) → Apart v xs ys
  IsSorted-Apart v [] ys s = record { before = tt; behind = s.1; below = tt }
  IsSorted-Apart v (x ∷ xs) ys s =
      let r = IsSorted-Apart v xs ys s.1 in
      let e = All-end (λ y. o.cmp (o.key y) (o.key x) ≡ gt) v xs ys s.0 in
      record { before = (e.0, r.before); behind = r.behind; below = (e.1, r.below) }

  module _ (l : IsLawful o) where
    pub Above-trans :
        (k : K) (v : D) (xs : List D) → o.cmp k (o.key v) ≡ gt → Above (o.key v) xs → Above k xs
    Above-trans k v [] h a = tt
    Above-trans k v (x ∷ xs) h a = (l.above k (o.key v) (o.key x) h a.0, Above-trans k v xs h a.1)

    pub Above-same :
        (k : K) (v : D) (xs : List D) → o.cmp k (o.key v) ≡ eq → Above (o.key v) xs → Above k xs
    Above-same k v [] h a = tt
    Above-same k v (x ∷ xs) h a =
        (l.above_same k (o.key v) (o.key x) h a.0, Above-same k v xs h a.1)
