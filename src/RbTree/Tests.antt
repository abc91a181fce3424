-- ===== src/RbTree/Tests.antt =====
-- The tree of rbtree.c at concrete inputs: numbers in their order.
use Prim.Native.Nat.{Ordering}
use Prim.Native.Nat.Ordering.{lt, eq, gt}
use mocp.Prelude.{ℕ, ◌*◌, ◌^◌, ◌≤◌, suc, ◌≡◌, refl, some, ltb, ◌==◌, if◌then◌else◌, length, arith}
use mocp.RbTree.{
  Tree, leaf, node, red, black, Order, rb_get_data, rb_min, rb_insert, rb_search, search_from, plug,
}
use mocp.RbTree.Removal.{rb_delete, delete_at, rb_delete_fixup, settle_left}
use mocp.RbTree.Contents.{inorder}
use mocp.RbTree.Balance.{leaf_rb, red_rb, black_rb}
use mocp.RbTree.Place.{IsLawful}
use mocp.RbTree.Sorted.{insert_list, delete_list, find_list}
use mocp.RbTree.Refine.{IsTree, Implements, rb_insert-refines, rb_delete-refines, rb_search-refines}
use mocp.RbTree.Walk.{walk, walk-min}
use mocp.RbTree.Height.{steps, steps-search}

unfoldable number_cmp : ℕ → ℕ → Ordering
number_cmp a b = if ltb a b then lt else if a == b then eq else gt

abbrev numbers : Order ℕ ℕ
numbers = record { key = λ n. n; cmp = number_cmp }

numbers-IsLawful : IsLawful numbers
unfolding number_cmp
numbers-IsLawful = record {
  swapped = λ a b h. ground arith;
  swapped_back = λ a b h. ground arith;
  same = λ a b h. ground arith;
  above = λ a b c h k. ground arith;
  above_same = λ a b c h k. ground arith;
}

abbrev five : Tree ℕ
five =
    node black (node black leaf 1 leaf) 2
      (node red (node black leaf 3 leaf) 5 (node black leaf 8 leaf))

five-IsTree : IsTree numbers five
unfolding inorder number_cmp
five-IsTree = (
  (
    2,
    black_rb (black_rb leaf_rb leaf_rb)
        (red_rb (black_rb leaf_rb leaf_rb) (black_rb leaf_rb leaf_rb)),
  ),
  (
    (refl, (refl, (refl, (refl, tt)))),
    ((refl, (refl, (refl, tt))), ((refl, (refl, tt)), ((refl, tt), (tt, tt)))),
  ),
)

rb_insert-refines_example :
    Implements numbers (rb_insert numbers five 9) (insert_list numbers 9 (inorder five))
rb_insert-refines_example = rb_insert-refines numbers numbers-IsLawful five 9 five-IsTree

rb_delete-refines_example :
    Implements numbers (rb_delete numbers five 1) (some (delete_list numbers 1 (inorder five)))
rb_delete-refines_example = rb_delete-refines numbers numbers-IsLawful five 1 five-IsTree

rb_search-refines_example :
    rb_get_data (rb_search numbers five 3) ≡ find_list numbers 3 (inorder five)
rb_search-refines_example = rb_search-refines numbers numbers-IsLawful five 3 five-IsTree

walk-min_example : walk 5 (rb_min five) ≡ inorder five
unfolding inorder
walk-min_example = walk-min five 5 (omega arith)

steps-search_example :
    2 ^ steps (rb_search numbers five 4).1
    ≤ suc (length (inorder five)) * suc (length (inorder five))
steps-search_example = steps-search numbers 4 five five-IsTree.0

-- A leaf is deleted whose sibling is red: the tree turns, and the other child of its parent becomes red.
delete_turns :
    rb_delete numbers five 1
    ≡ some (node black (node black leaf 2 (node red leaf 3 leaf)) 5 (node black leaf 8 leaf))
unfolding rb_delete rb_search search_from number_cmp delete_at rb_delete_fixup settle_left plug
delete_turns = refl
