-- ===== src/RbTree/Refine.antt =====
-- The operations of rbtree.c over a whole tree, and the sorted list that they stand for.
use mocp.Prelude.{
  ℕ, ◌≡◌, refl, sym, ◌∙◌, ap, subst, Option, some, none, List, [], ◌∷◌, ◌++◌, append_assoc, arith,
}
use mocp.RbTree.{
  Tree, leaf, node, Color, red, black, Way, top, left, right, Focus, Order, rb_insert_fixup,
  rb_get_data, descend, rb_insert, search_from, rb_search,
}
use mocp.RbTree.Removal.{delete_focus, rb_delete}
use mocp.RbTree.Contents.{inorder, flat}
use mocp.RbTree.Place.{IsLawful, IsSorted}
use mocp.RbTree.Balance.{IsRb, leaf_rb, fits_top, IsBalanced, Leaves, black_under}
use mocp.RbTree.Search.{Reached, around, search_from-Reached}
use mocp.RbTree.Insert.{insert_fixup-Leaves}
use mocp.RbTree.Delete.{delete_at-Leaves}
use mocp.RbTree.Sorted.{
  insert_list, delete_list, find_list, inserted, Given, insert_list-place, delete_list-place,
  find_list-place, insert_list-IsSorted, delete_list-IsSorted, delete_list-absent,
}

module _ {D : Type 0} where
  -- where the descent ends, from where the search ends
  missing : Focus D → Option (Way D)
  missing (leaf, p) = some p
  missing (node c a v b, p) = none

  insert_focus : D → Option (Way D) → Option (Tree D)
  insert_focus d o = elim o [ none ↦ none | some p ↦ rb_insert_fixup (node red leaf d leaf) p ]

  black_leaf : {c : Color} {n : ℕ} → IsRb {D = D} leaf c n → IsRb {D = D} leaf black n
  black_leaf leaf_rb = leaf_rb

-- Balanced, and the data sorted.
module _ {K D : Type 0} (o : Order K D) where
  abbrev pub IsTree : Tree D → Type 0
  IsTree t = IsBalanced t × IsSorted o (inorder t)

  -- the result of an operation for the result of the list's
  abbrev pub Implements : Option (Tree D) → Option (List D) → Type 0
  Implements r none = r ≡ none
  Implements r (some xs) = (t : Tree D) × (r ≡ some t) × IsTree t × (inorder t ≡ xs)

  descend-missing :
      (d : D) (t : Tree D) (p : Way D) → descend o d t p ≡ missing (search_from o (o.key d) t p)
  unfolding descend search_from missing
  descend-missing d leaf p = refl
  descend-missing d (node c a v b) p =
      ground (arith, descend-missing d a (left c v b p), descend-missing d b (right c a v p))

  reached :
      IsLawful o → (k : K) (t : Tree D) → IsTree t → Reached o k (inorder t) top (rb_search o t k)
  unfolding rb_search
  reached l k t h = search_from-Reached o l k t top h.1 h.0.1 fits_top black_under

  Implements-Leaves :
      (r : Option (Tree D)) (xs : List D) → IsSorted o xs → Leaves r xs → Implements r (some xs)
  Implements-Leaves r xs s (t, e, b, i) = (t, e, (b, subst (IsSorted o) (sym i) s), i)

  insert_at :
      (d : D) (xs : List D) (f : Focus D)
      → Reached o (o.key d) xs top f
      → Given (IsSorted o) (insert_list o d xs)
      → Implements (insert_focus d (missing f)) (insert_list o d xs)
  unfolding missing insert_focus around flat inorder
  insert_at d xs (leaf, s) r g =
      let list : insert_list o d xs ≡ some (r.before ++ (d ∷ r.behind)) =
        insert_list-place o d xs ∙ ap (inserted o d) r.placed in
      subst (Implements (rb_insert_fixup (node red leaf d leaf) s)) (sym list) (
        Implements-Leaves (rb_insert_fixup (node red leaf d leaf) s) (r.before ++ (d ∷ r.behind))
          (subst (Given (IsSorted o)) list g)
          (subst (Leaves (rb_insert_fixup (node red leaf d leaf) s)) (r.inside (d ∷ [])) (
            insert_fixup-Leaves leaf d leaf s (black_leaf r.balanced) (black_leaf r.balanced)
              r.fits)))
  insert_at d xs (node c a v b, s) r g =
      subst (Implements none) (sym (insert_list-place o d xs ∙ ap (inserted o d) r.placed)) refl

  -- In a balanced red-black tree whose data is in order, under a lawful comparison, rb_insert follows no
  -- NULL pointer and aborts exactly where a data element has the key already; otherwise the tree is
  -- balanced again and its data is the old with the new element inserted in order.
  pub rb_insert-refines :
      IsLawful o
      → (t : Tree D) (d : D) → IsTree t
      → Implements (rb_insert o t d) (insert_list o d (inorder t))
  unfolding rb_insert insert_focus rb_search
  rb_insert-refines l t d h =
      rw (rb_insert, descend-missing d t top)
        (insert_at d (inorder t) (rb_search o t (o.key d)) (reached l (o.key d) t h)
          (insert_list-IsSorted o l d (inorder t) h.1))

  delete_at_focus :
      (k : K) (t : Tree D) (f : Focus D)
      → IsTree t
      → Reached o k (inorder t) top f
      → Implements (delete_focus t f) (some (delete_list o k (inorder t)))
  unfolding around flat inorder
  delete_at_focus k t (leaf, s) h r = (
    t,
    refl,
    h,
    sym (
        delete_list-absent o k (inorder t)
          (find_list-place o k (inorder t) ∙ ap (λ z. z.1) r.placed)),
  )
  delete_at_focus k t (node c a v b, s) h r =
      let list : flat s (inorder a ++ inorder b) ≡ delete_list o k (inorder t) =
        r.inside (inorder a ++ inorder b)
        ∙ (simp append_assoc)
        ∙ sym (delete_list-place o k (inorder t) ∙ ap (λ z. z.0 ++ z.2) r.placed) in
      Implements-Leaves (delete_focus t (node c a v b, s)) (delete_list o k (inorder t))
        (delete_list-IsSorted o k (inorder t) h.1)
        (subst (Leaves (delete_focus t (node c a v b, s))) list
          (delete_at-Leaves c a v b s r.balanced r.fits r.under))

  -- In a balanced red-black tree whose data is in order, under a lawful comparison, rb_delete follows no
  -- NULL pointer, passes the assertions of the rotations and leaves a balanced tree whose data is the
  -- old without the element that has the key, or all of it where none has.
  pub rb_delete-refines :
      IsLawful o
      → (t : Tree D) (k : K) → IsTree t
      → Implements (rb_delete o t k) (some (delete_list o k (inorder t)))
  unfolding rb_delete
  rb_delete-refines l t k h = delete_at_focus k t (rb_search o t k) h (reached l k t h)

  found_at :
      (k : K) (xs : List D) (f : Focus D) → Reached o k xs top f → rb_get_data f ≡ find_list o k xs
  unfolding around
  found_at k xs (leaf, s) r = sym (find_list-place o k xs ∙ ap (λ z. z.1) r.placed)
  found_at k xs (node c a v b, s) r = sym (find_list-place o k xs ∙ ap (λ z. z.1) r.placed)

  -- In a balanced red-black tree whose data is in order, under a lawful comparison, rb_search comes to
  -- the element that has the key, and to rb_null where none has.
  pub rb_search-refines :
      IsLawful o
      → (t : Tree D) (k : K) → IsTree t
      → rb_get_data (rb_search o t k) ≡ find_list o k (inorder t)
  rb_search-refines l t k h = found_at k (inorder t) (rb_search o t k) (reached l k t h)
