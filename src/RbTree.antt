-- ===== src/RbTree.antt =====
-- rbtree.c: the red-black tree that the playlist finds files with.
-- A pointer to a node is a focus: the subtree below the pointer and the path from there up to the root.
-- The parent pointers are the path, `rb_null` is a leaf, and what is written through a pointer is
-- written in the focus. A function returns `none` where the C code aborts, where an assertion fails and
-- where it follows the NULL pointers of `rb_null`.
pub mod Balance
pub mod Removal
pub mod Contents
pub mod Place
pub mod Search
pub mod Insert
pub mod Fixup
pub mod Delete
pub mod Sorted
pub mod Refine
pub mod Lookup
pub mod Walk
pub mod Height
mod Tests
use Prim.Native.Nat.{Ordering}
use Prim.Native.Nat.Ordering.{lt, eq, gt}
use mocp.Prelude.{
  Bool, true, false, not, ◌&&◌, Option, none, some, List, [], ◌∷◌, ◌++◌, if◌then◌else◌,
}

pub data Color : Type 0 where
  red black : Color

-- `struct rb_node`
pub data Tree (D : Type 0) : Type 0 where
  leaf : Tree D
  node : Color → Tree D → D → Tree D → Tree D

-- The way up from a pointer: at each parent its color, its data and its other child. `left` says that the
-- pointer, or the parent below, is the left child.
pub data Way (D : Type 0) : Type 0 where
  top : Way D
  left : Color → D → Tree D → Way D → Way D
  right : Color → Tree D → D → Way D → Way D

abbrev pub Focus : Type 0 → Type 0
Focus D = Tree D × Way D

-- `cmp_fn` and `cmp_key_fn` with `adata`: the sign of what they return. A data element is compared by its
-- key.
pub record Order (K D : Type 0) : Type 0 where
  pub key : D → K
  pub cmp : K → K → Ordering

module _ {D : Type 0} where
  -- the whole tree around a focus
  unfoldable pub plug : Tree D → Way D → Tree D
  plug t top = t
  plug t (left c v s p) = plug (node c t v s) p
  plug t (right c s v p) = plug (node c s v t) p

  -- `n->color == RB_RED`; `rb_null` is black.
  abbrev pub is_red : Tree D → Bool
  is_red leaf = false
  is_red (node red a v b) = true
  is_red (node black a v b) = false

  -- `n->color = c`; on `rb_null` the code sets black only.
  abbrev pub paint : Color → Tree D → Tree D
  paint c leaf = leaf
  paint c (node d a v b) = node c a v b

  abbrev pub rb_left_rotate : Tree D → Option (Tree D)
  rb_left_rotate leaf = none
  rb_left_rotate (node c a x leaf) = none
  rb_left_rotate (node c a x (node d b y e)) = some (node d (node c a x b) y e)

  abbrev pub rb_right_rotate : Tree D → Option (Tree D)
  rb_right_rotate leaf = none
  rb_right_rotate (node c leaf x e) = none
  rb_right_rotate (node c (node d a y b) x e) = some (node d a y (node c b x e))

  -- the end of `rb_insert_fixup`: the root becomes black
  abbrev pub finish : Option (Tree D) → Way D → Option (Tree D)
  finish none p = none
  finish (some t) p = some (paint black (plug t p))

  -- `z->parent->color = RB_BLACK; z->parent->parent->color = RB_RED;` and a rotation of the grandparent, with
  -- the parent given; the loop ends then, since z has a black parent.
  abbrev pub lift_right : Option (Tree D) → D → Tree D → Option (Tree D)
  lift_right none g u = none
  lift_right (some parent) g u = rb_right_rotate (node red (paint black parent) g u)

  abbrev pub lift_left : Option (Tree D) → D → Tree D → Option (Tree D)
  lift_left none g u = none
  lift_left (some parent) g u = rb_left_rotate (node red u g (paint black parent))

  -- `rb_insert_fixup` at the focus `z`: a red parent has a grandparent above it, and `u` is the uncle. A
  -- grandparent that is `rb_null` has NULL for its children.
  unfoldable pub rb_insert_fixup : Tree D → Way D → Option (Tree D)
  rb_insert_fixup z top = finish (some z) top
  rb_insert_fixup z (left black v s p) = finish (some z) (left black v s p)
  rb_insert_fixup z (right black s v p) = finish (some z) (right black s v p)
  rb_insert_fixup z (left red v s top) = none
  rb_insert_fixup z (right red s v top) = none
  rb_insert_fixup z (left red v s (left gc g u p)) = elim (is_red u) [
    | true ↦ rb_insert_fixup (node red (node black z v s) g (paint black u)) p
    | false ↦ finish (lift_right (some (node red z v s)) g u) p
  ]
  rb_insert_fixup z (right red s v (left gc g u p)) = elim (is_red u) [
    | true ↦ rb_insert_fixup (node red (node black s v z) g (paint black u)) p
    | false ↦ finish (lift_right (rb_left_rotate (node red s v z)) g u) p
  ]
  rb_insert_fixup z (right red s v (right gc u g p)) = elim (is_red u) [
    | true ↦ rb_insert_fixup (node red (paint black u) g (node black s v z)) p
    | false ↦ finish (lift_left (some (node red s v z)) g u) p
  ]
  rb_insert_fixup z (left red v s (right gc u g p)) = elim (is_red u) [
    | true ↦ rb_insert_fixup (node red (paint black u) g (node black z v s)) p
    | false ↦ finish (lift_left (rb_right_rotate (node red z v s)) g u) p
  ]

  -- `rb_min_internal` of a node
  unfoldable pub rb_min_internal : Tree D → Way D → Focus D
  rb_min_internal leaf p = (leaf, p)
  rb_min_internal (node c leaf v b) p = (node c leaf v b, p)
  rb_min_internal (node c (node d x y z) v b) p = rb_min_internal (node d x y z) (left c v b p)

  unfoldable pub rb_min : Tree D → Focus D
  rb_min t = rb_min_internal t top

  -- the loop of `rb_next`: up as long as the pointer is a right child
  unfoldable pub climb : Tree D → Way D → Focus D
  climb x top = (leaf, top)
  climb x (left c v s p) = (node c x v s, p)
  climb x (right c s v p) = climb (node c s v x) p

  -- `rb_null` has NULL for its right child.
  unfoldable pub rb_next : Focus D → Option (Focus D)
  rb_next (leaf, p) = none
  rb_next (node c a v leaf, p) = some (climb (node c a v leaf) p)
  rb_next (node c a v (node d x y z), p) = some (rb_min_internal (node d x y z) (right c a v p))

  -- `rb_get_data`
  abbrev pub rb_get_data : Focus D → Option D
  rb_get_data (leaf, p) = none
  rb_get_data (node c a v b, p) = some v

module _ {K D : Type 0} (o : Order K D) where
  -- the loop of `rb_insert` down to a leaf; `none` where it aborts
  unfoldable pub descend : D → Tree D → Way D → Option (Way D)
  descend d leaf p = some p
  descend d (node c a v b) p = elim (o.cmp (o.key d) (o.key v)) [
    | lt ↦ descend d a (left c v b p)
    | gt ↦ descend d b (right c a v p)
    | eq ↦ none
  ]

  unfoldable pub rb_insert : Tree D → D → Option (Tree D)
  rb_insert t d = elim (descend d t top) [
    | none ↦ none
    | some p ↦ rb_insert_fixup (node red leaf d leaf) p
  ]

  -- `rb_search` from a focus down
  unfoldable pub search_from : K → Tree D → Way D → Focus D
  search_from k leaf p = (leaf, p)
  search_from k (node c a v b) p = elim (o.cmp k (o.key v)) [
    | lt ↦ search_from k a (left c v b p)
    | gt ↦ search_from k b (right c a v p)
    | eq ↦ (node c a v b, p)
  ]

  unfoldable pub rb_search : Tree D → K → Focus D
  rb_search t k = search_from k t top
