-- ===== src/RbTree/Lookup.antt =====
-- What a search finds in the sorted lists of rbtree.c's trees after a change.
use Prim.Native.Nat.{Ordering}
use Prim.Native.Nat.Ordering.{lt, eq, gt}
use mocp.Prelude.{
  ◌≡◌, refl, sym, ◌∙◌, ap, Bool, true, false, Option, some, none, List, [], ◌∷◌, All, if◌then◌else◌,
  arith,
}
use mocp.RbTree.{Order}
use mocp.RbTree.Place.{IsLawful, IsSorted}
use mocp.RbTree.Sorted.{insert_list, delete_list, find_list, Given}

abbrev pub is_eq : Ordering → Bool
is_eq lt = false
is_eq eq = true
is_eq gt = false

module _ {K D : Type 0} (o : Order K D) (l : IsLawful o) where
  pub same_self : (a : K) → o.cmp a a ≡ eq
  same_self a = go (o.cmp a a) refl
    where
      go : (r : Ordering) → o.cmp a a ≡ r → r ≡ eq
      go eq e = refl
      go lt e = ground (arith, l.swapped a a e)
      go gt e = ground (arith, l.swapped_back a a e)

  same_above : (a b c : K) → o.cmp a b ≡ gt → o.cmp b c ≡ eq → o.cmp a c ≡ gt
  same_above a b c h e = go (o.cmp a c) refl
    where
      go : (r : Ordering) → o.cmp a c ≡ r → r ≡ gt
      go gt f = refl
      go eq f = ground (arith, l.above_same c a b (l.same a c f) h, l.same b c e)
      go lt f = ground (arith, l.above c a b (l.swapped a c f) h, l.same b c e)

  same_trans : (a b c : K) → o.cmp a b ≡ eq → o.cmp b c ≡ eq → o.cmp a c ≡ eq
  same_trans a b c h e = go (o.cmp a c) refl
    where
      go : (r : Ordering) → o.cmp a c ≡ r → r ≡ eq
      go eq f = refl
      go gt f = ground (arith, same_above a c b f (l.same b c e))
      go lt f = ground (arith, same_above c a b (l.swapped a c f) h, l.same b c e)

  below_same : (a b c : K) → o.cmp a b ≡ eq → o.cmp b c ≡ lt → o.cmp a c ≡ lt
  below_same a b c h e = l.swapped_back c a (same_above c b a (l.swapped b c e) (l.same a b h))

  -- A key below every entry is not found.
  find-below :
      (k : K) (xs : List D) → All (λ y. o.cmp (o.key y) k ≡ gt) xs → find_list o k xs ≡ none
  unfolding find_list
  find-below k [] a = refl
  find-below k (x ∷ xs) a = rw (find_list, l.swapped_back (o.key x) k a.0) refl

  All-more :
      (k m : K) (xs : List D)
      → o.cmp m k ≡ gt
      → All (λ y. o.cmp (o.key y) m ≡ gt) xs
      → All (λ y. o.cmp (o.key y) k ≡ gt) xs
  All-more k m [] h a = tt
  All-more k m (x ∷ xs) h a = (l.above (o.key x) m k a.0 h, All-more k m xs h a.1)

  All-same :
      (k m : K) (xs : List D)
      → o.cmp m k ≡ eq
      → All (λ y. o.cmp (o.key y) m ≡ gt) xs
      → All (λ y. o.cmp (o.key y) k ≡ gt) xs
  All-same k m [] h a = tt
  All-same k m (x ∷ xs) h a = (same_above (o.key x) m k a.0 h, All-same k m xs h a.1)

  find-behind :
      (k : K) (x : D) (ys zs : List D)
      → find_list o k ys ≡ find_list o k zs
      → find_list o k (x ∷ ys) ≡ find_list o k (x ∷ zs)
  unfolding find_list
  find-behind k x ys zs e =
      ap (λ r. elim (o.cmp k (o.key x)) [ lt ↦ none | eq ↦ some x | gt ↦ r ]) e

  find-skip :
      (k : K) (x : D) (xs : List D)
      → o.cmp k (o.key x) ≡ gt
      → find_list o k (x ∷ xs) ≡ find_list o k xs
  unfolding find_list
  find-skip k x xs e = rw (find_list, e) refl

  find-stop : (k : K) (x : D) (xs : List D) → o.cmp k (o.key x) ≡ lt → find_list o k (x ∷ xs) ≡ none
  unfolding find_list
  find-stop k x xs e = rw (find_list, e) refl

  pub find_list-delete :
      (k m : K) (xs : List D)
      → IsSorted o xs
      → find_list o k (delete_list o m xs) ≡ (if is_eq (o.cmp k m) then none else find_list o k xs)
  unfolding find_list delete_list
  find_list-delete k m [] s = ground arith
  find_list-delete k m (x ∷ xs) s =
      go (o.cmp m (o.key x)) refl (o.cmp k m) refl (find_list-delete k m xs s.1)
    where
      go :
          (r : Ordering)
          → o.cmp m (o.key x) ≡ r
          → (q : Ordering) → o.cmp k m ≡ q
          → find_list o k (delete_list o m xs)
            ≡ (if is_eq (o.cmp k m) then none else find_list o k xs)
          → find_list o k (elim r [ lt ↦ x ∷ xs | eq ↦ xs | gt ↦ x ∷ delete_list o m xs ])
            ≡ (if is_eq q then none else find_list o k (x ∷ xs))
      go lt er lt eq' h = refl
      go lt er gt eq' h = refl
      go lt er eq eq' h = rw (find_list, below_same k m (o.key x) eq' er) refl
      go eq er eq eq' h =
          find-below k xs
            (All-same k (o.key x) xs (l.same k (o.key x) (same_trans k m (o.key x) eq' er)) s.0)
      go eq er lt eq' h =
          (let above = l.above_same (o.key x) m k (l.same m (o.key x) er) (l.swapped k m eq') in
            find-below k xs (All-more k (o.key x) xs above s.0)
            ∙ sym (find-stop k x xs (l.swapped_back (o.key x) k above)))
      go eq er gt eq' h = sym (find-skip k x xs (same_above k m (o.key x) eq' er))
      go gt er eq eq' h =
          find-skip k x (delete_list o m xs) (l.above_same k m (o.key x) eq' er)
          ∙ h
          ∙ ap (λ z. if is_eq z then none else find_list o k xs) eq'
      go gt er lt eq' h =
          find-behind k x (delete_list o m xs) xs
            (h ∙ ap (λ z. if is_eq z then none else find_list o k xs) eq')
      go gt er gt eq' h =
          find-behind k x (delete_list o m xs) xs
            (h ∙ ap (λ z. if is_eq z then none else find_list o k xs) eq')

  pub find_list-insert :
      (k : K) (d : D) (xs : List D)
      → Given
          (λ ys.
            find_list o k ys ≡ (if is_eq (o.cmp k (o.key d)) then some d else find_list o k xs))
          (insert_list o d xs)
  unfolding find_list insert_list
  find_list-insert k d [] = ground arith
  find_list-insert k d (x ∷ xs) =
      go (o.cmp (o.key d) (o.key x)) refl (o.cmp k (o.key d)) refl (find_list-insert k d xs)
    where
      at :
          (q : Ordering)
          → o.cmp k (o.key d) ≡ q
          → o.cmp (o.key d) (o.key x) ≡ gt
          → (r : Option (List D))
          → Given
              (λ ys.
                find_list o k ys ≡ (if is_eq (o.cmp k (o.key d)) then some d else find_list o k xs))
              r
          → Given
              (λ ys. find_list o k ys ≡ (if is_eq q then some d else find_list o k (x ∷ xs)))
              (elim r [ none ↦ none | some ys ↦ some (x ∷ ys) ])
      at q e g none h = tt
      at eq e g (some ys) h =
          find-skip k x ys (l.above_same k (o.key d) (o.key x) e g)
          ∙ h
          ∙ ap (λ z. if is_eq z then some d else find_list o k xs) e
      at lt e g (some ys) h =
          find-behind k x ys xs (h ∙ ap (λ z. if is_eq z then some d else find_list o k xs) e)
      at gt e g (some ys) h =
          find-behind k x ys xs (h ∙ ap (λ z. if is_eq z then some d else find_list o k xs) e)

      go :
          (r : Ordering)
          → o.cmp (o.key d) (o.key x) ≡ r
          → (q : Ordering) → o.cmp k (o.key d) ≡ q
          → Given
              (λ ys.
                find_list o k ys ≡ (if is_eq (o.cmp k (o.key d)) then some d else find_list o k xs))
              (insert_list o d xs)
          → Given
              (λ ys. find_list o k ys ≡ (if is_eq q then some d else find_list o k (x ∷ xs)))
              (elim r [
                | lt ↦ some (d ∷ (x ∷ xs))
                | eq ↦ none
                | gt ↦ elim (insert_list o d xs) [ none ↦ none | some ys ↦ some (x ∷ ys) ]
              ])
      go eq er q eq' h = tt
      go gt er q eq' h = at q eq' er (insert_list o d xs) h
      go lt er eq eq' h = rw (find_list, eq') refl
      go lt er gt eq' h = find-skip k d (x ∷ xs) eq'
      go lt er lt eq' h =
          find-stop k d (x ∷ xs) eq'
          ∙ sym (
              find-stop k x xs (
                l.swapped_back (o.key x) k (
                  l.above (o.key x) (o.key d) k (l.swapped (o.key d) (o.key x) er)
                    (l.swapped k (o.key d) eq'))))
