-- ===== src/Playlist/SearchTree/Shuffle.antt =====
-- playlist.c: `plist_shuffle` and `plist_swap_first_fname`. The numbers that rand (3) gives are a parameter.
use Prim.Native.Nat.{Ordering}
use mocp.Prelude.{ℕ, zero, suc, ◌==◌, Option, none, some, List, if◌then◌else◌}
use mocp.Prelude.Int.{ℤ, pos, negsuc}
use mocp.Bytes.{Str}
use mocp.Item.{PlistItem}
use mocp.RbTree.{Tree, leaf, rb_insert}
use mocp.RbTree.Removal.{rb_delete}
use mocp.Playlist.{Plist, num, plist_swap}
use mocp.Playlist.SearchTree.{Searched, order_of, file_at, plist_find_fname}

-- `for (i = 0; i < plist->num; i += 1) plist_swap (plist, i, ...)`, the last n rounds
unfoldable pub swap_all : (ℕ → ℕ) → Plist → ℕ → ℕ → Option Plist
swap_all picks p i zero = some p
swap_all picks p i (suc n) = elim (plist_swap p i (picks i)) [
  | none ↦ none
  | some q ↦ swap_all picks q (suc i) n
]

module _ (strcoll : Str → Str → Ordering) where
  -- `for (i = 0; i < plist->num; i++) rb_insert (plist->search_tree, i)`, the last n rounds
  unfoldable pub insert_all : List PlistItem → Tree ℕ → ℕ → ℕ → Option (Tree ℕ)
  insert_all items t i zero = some t
  insert_all items t i (suc n) = elim (rb_insert (order_of strcoll items) t i) [
    | none ↦ none
    | some t ↦ insert_all items t (suc i) n
  ]

  unfoldable pub plist_shuffle : (ℕ → ℕ) → Searched → Option Searched
  plist_shuffle picks s = elim (swap_all picks s.list 0 (num s.list)) [
    | none ↦ none
    | some p ↦ elim (insert_all p.items leaf 0 (num s.list)) [
      | none ↦ none
      | some t ↦ some (record { list = p; search_tree = t })
    ]
  ]

  -- the branch of `plist_swap_first_fname` for an item that is not the first
  abbrev pub swap_first : Searched → Str → ℕ → Option Searched
  swap_first s fname i =
      let before = order_of strcoll s.list.items in
      elim (rb_delete before s.search_tree fname) [
        | none ↦ none
        | some t ↦ elim (rb_delete before t (file_at s.list.items 0)) [
          | none ↦ none
          | some t ↦ elim (plist_swap s.list 0 i) [
            | none ↦ none
            | some p ↦ elim (rb_insert (order_of strcoll p.items) t 0) [
              | none ↦ none
              | some t ↦ elim (rb_insert (order_of strcoll p.items) t i) [
                | none ↦ none
                | some t ↦ some (record { list = p; search_tree = t })
              ]
            ]
          ]
        ]
      ]

  -- the branches by the number that `plist_find_fname` returns
  abbrev pub swap_found : Searched → Str → ℤ → Option Searched
  swap_found s fname (pos i) = if i == 0 then some s else swap_first s fname i
  swap_found s fname (negsuc i) = some s

  unfoldable pub plist_swap_first_fname : Searched → Str → Option Searched
  plist_swap_first_fname s fname = elim (plist_find_fname strcoll s fname) [
    | none ↦ none
    | some i ↦ swap_found s fname i
  ]
