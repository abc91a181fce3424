-- ===== src/Playlist/SearchTree/Swap.antt =====
-- playlist.c: `plist_swap_files`, which swaps two items and the numbers in their nodes of the search tree.
use Prim.Native.Nat.{Ordering}
use mocp.Prelude.{ℕ, Option, none, some}
use mocp.Bytes.{Str}
use mocp.RbTree.{Tree, leaf, node, Way, top, left, right, Focus, rb_get_data, rb_search}
use mocp.Playlist.{plist_swap}
use mocp.Playlist.SearchTree.{Searched, order_of}

abbrev pub at_left : {D : Type 0} → (Tree D → Tree D) → Tree D → Tree D
at_left f leaf = leaf
at_left f (node c a v b) = node c (f a) v b

abbrev pub at_right : {D : Type 0} → (Tree D → Tree D) → Tree D → Tree D
at_right f leaf = leaf
at_right f (node c a v b) = node c a v (f b)

-- a change of the node to which the way leads
unfoldable pub change_at : {D : Type 0} → Way D → (Tree D → Tree D) → Tree D → Tree D
change_at top f t = f t
change_at (left c v b way) f t = change_at way (at_left f) t
change_at (right c a v way) f t = change_at way (at_right f) t

-- `rb_set_data`
abbrev pub rb_set_data : {D : Type 0} → D → Tree D → Tree D
rb_set_data d leaf = leaf
rb_set_data d (node c a v b) = node c a d b

-- the branch in which both names are in the tree, with the numbers there
abbrev pub swap_both : Searched → Focus ℕ → Focus ℕ → Option ℕ → Option ℕ → Option Searched
swap_both s x1 x2 (some a) (some b) = elim (plist_swap s.list a b) [
  | none ↦ none
  | some p ↦ some (record {
    list = p;
    search_tree = change_at x2.1 (rb_set_data a) (change_at x1.1 (rb_set_data b) s.search_tree);
  })
]
swap_both s x1 x2 none b = some s
swap_both s x1 x2 (some a) none = some s

module _ (strcoll : Str → Str → Ordering) where
  unfoldable pub plist_swap_files : Searched → Str → Str → Option Searched
  plist_swap_files s file1 file2 =
      let x1 = rb_search (order_of strcoll s.list.items) s.search_tree file1 in
      let x2 = rb_search (order_of strcoll s.list.items) s.search_tree file2 in
      swap_both s x1 x2 (rb_get_data x1) (rb_get_data x2)
