-- ===== src/RbTree/Removal.antt =====
-- rbtree.c: rb_delete and rb_delete_fixup.
use mocp.Prelude.{true, false, not, ◌&&◌, Option, none, some, if◌then◌else◌}
use mocp.RbTree.{
  Color, red, black, Tree, leaf, node, Way, top, left, right, Focus, Order, plug, is_red, paint,
  rb_left_rotate, rb_right_rotate, rb_min_internal, rb_next, rb_get_data, rb_search,
}

-- What the loop of `rb_delete_fixup` does to the parent of x: it ends with this subtree in the parent's
-- place, or goes on with x = parent.
pub data Settled (D : Type 0) : Type 0 where
  done up : Tree D → Settled D

module _ {D : Type 0} where
  abbrev pub data_of : Option (Focus D) → Option D
  data_of none = none
  data_of (some f) = rb_get_data f

  abbrev pub settled : Option (Tree D) → Option (Settled D)
  settled none = none
  settled (some t) = some (done t)

  -- `w->color = parent->color; parent->color = RB_BLACK; w->right->color = RB_BLACK;` and the rotation, with w
  -- given
  abbrev pub rotate_left_over : Tree D → Color → D → Option (Tree D) → Option (Tree D)
  rotate_left_over x c v none = none
  rotate_left_over x c v (some leaf) = none
  rotate_left_over x c v (some (node d a y b)) =
      rb_left_rotate (node black x v (node c a y (paint black b)))

  abbrev pub rotate_right_over : Tree D → Color → D → Option (Tree D) → Option (Tree D)
  rotate_right_over x c v none = none
  rotate_right_over x c v (some leaf) = none
  rotate_right_over x c v (some (node d a y b)) =
      rb_right_rotate (node black (node c (paint black a) y b) v x)

  -- The loop from `if (w->left->color == RB_BLACK ...` on, for a parent of color c that holds v, a left child x and
  -- its sibling w, or the other way round.
  unfoldable pub settle_left : Tree D → Color → D → Tree D → Option (Settled D)
  settle_left x c v leaf = none
  settle_left x c v (node d a y b) =
      if not (is_red a) && not (is_red b)
      then some (up (node c x v (node red a y b)))
      else settled (
          rotate_left_over x c v (
            if not (is_red b)
            then rb_right_rotate (node red (paint black a) y b)
            else some (node d a y b)))

  unfoldable pub settle_right : Tree D → Color → D → Tree D → Option (Settled D)
  settle_right x c v leaf = none
  settle_right x c v (node d a y b) =
      if not (is_red b) && not (is_red a)
      then some (up (node c (node red a y b) v x))
      else settled (
          rotate_right_over x c v (
            if not (is_red a)
            then rb_left_rotate (node red a y (paint black b))
            else some (node d a y b)))

  -- The end of the loop. With a red sibling the parent has become red, so that the loop ends where it would go
  -- on with x = parent, and paints that black.
  abbrev pub close_red : Option (Settled D) → Way D → Option (Tree D)
  close_red none p = none
  close_red (some (done t)) p = some (paint black (plug t p))
  close_red (some (up t)) p = some (plug (paint black t) p)

  -- `rb_delete_fixup` at the focus x
  unfoldable pub rb_delete_fixup : Tree D → Way D → Option (Tree D)
  rb_delete_fixup x top = some (paint black x)
  rb_delete_fixup x (left c v w p) = elim (is_red x) [
    | true ↦ some (plug (paint black x) (left c v w p))
    | false ↦ elim w [
      | node red a y b ↦ close_red (settle_left x red v a) (left black y b p)
      | other ↦ elim (settle_left x c v other) [
        | none ↦ none
        | some (done t) ↦ some (paint black (plug t p))
        | some (up t) ↦ rb_delete_fixup t p
      ]
    ]
  ]
  rb_delete_fixup x (right c w v p) = elim (is_red x) [
    | true ↦ some (plug (paint black x) (right c w v p))
    | false ↦ elim w [
      | node red a y b ↦ close_red (settle_right x red v b) (right black a y p)
      | other ↦ elim (settle_right x c v other) [
        | none ↦ none
        | some (done t) ↦ some (paint black (plug t p))
        | some (up t) ↦ rb_delete_fixup t p
      ]
    ]
  ]

  -- y, whose color is c, is taken out: x takes its place.
  abbrev pub splice : Color → Tree D → Way D → Option (Tree D)
  splice red x p = some (plug x p)
  splice black x p = rb_delete_fixup x p

  -- `x = y->left != &rb_null ? y->left : y->right`
  abbrev pub child_of : Tree D → Tree D → Tree D
  child_of leaf r = r
  child_of (node c a v b) r = node c a v b

  -- y is the least node of the right subtree of z: taken out, and its data put into z
  abbrev pub splice_least : Focus D → Option (Tree D)
  splice_least (leaf, p) = none
  splice_least (node c a v b, p) = splice c (child_of a b) p

  -- The path to y is walked again with the data of y in z.
  abbrev pub delete_inner : Color → Tree D → Tree D → Way D → Option D → Option (Tree D)
  delete_inner c l r p none = none
  delete_inner c l r p (some least) = splice_least (rb_min_internal r (right c l least p))

  -- the part of `rb_delete` behind the search, at z
  unfoldable pub delete_at : Color → Tree D → D → Tree D → Way D → Option (Tree D)
  delete_at c leaf v r p = splice c (child_of leaf r) p
  delete_at c (node lc la lv lb) v leaf p = splice c (child_of (node lc la lv lb) leaf) p
  delete_at c (node lc la lv lb) v (node rc ra rv rb) p =
      delete_inner c (node lc la lv lb) (node rc ra rv rb) p
        (data_of (rb_next (node c (node lc la lv lb) v (node rc ra rv rb), p)))

  -- `if (!rb_is_null (z)) { ...`
  abbrev pub delete_focus : Tree D → Focus D → Option (Tree D)
  delete_focus t (leaf, p) = some t
  delete_focus t (node c a v b, p) = delete_at c a v b p

module _ {K D : Type 0} (o : Order K D) where
  unfoldable pub rb_delete : Tree D → K → Option (Tree D)
  rb_delete t k = delete_focus t (rb_search o t k)
