-- ===== src/Playlist/SearchTree.antt =====
-- playlist.c: the playlist with its search tree, which holds the numbers of the items that have a file, in
-- the order of strcoll (3) on the names of the files.
pub mod Named
pub mod Indexed
pub mod Files
pub mod Reach
pub mod Concat
pub mod Shuffle
pub mod Swap
mod Tests
use Prim.Native.Nat.{Ordering}
use Prim.Native.Nat.Ordering.{lt, eq, gt}
use mocp.Prelude.{
  ℕ, Bool, true, false, Option, none, some, List, [], ◌∷◌, ltb, if◌then◌else◌, get_elem?, set,
}
use mocp.Prelude.Int.{ℤ, pos}
use mocp.Bytes.{Str}
use mocp.Files.{World, file_type, get_mtime}
use mocp.Item.{PlistItem}
use mocp.RbTree.{Tree, leaf, Order, rb_insert, rb_search, rb_get_data}
use mocp.RbTree.Removal.{rb_delete}
use mocp.Playlist.{
  Plist, num, minus_one, is_set, deleted_at, plist_init, plist_append, plist_delete, plist_clear,
  plist_item_copy, add_time, tags_seconds,
}

-- `struct plist`
pub record Searched : Type 0 where
  pub list : Plist
  pub search_tree : Tree ℕ

-- `plist->items[pos].file`; the tree holds no item whose file is NULL.
abbrev pub name_of : Option PlistItem → Str
name_of none = []
name_of (some item) = elim item.file [ none ↦ [] | some file ↦ file ]

abbrev pub file_at : List PlistItem → ℕ → Str
file_at items i = name_of (get_elem? items i)

module _ (strcoll : Str → Str → Ordering) where
  -- `rb_compare` and `rb_fname_compare`
  abbrev pub order_of : List PlistItem → Order Str ℕ
  order_of items = record { key = file_at items; cmp = strcoll }

  -- `plist_find_fname`: -1 where there is no such item or it is deleted
  unfoldable pub plist_find_fname : Searched → Str → Option ℤ
  plist_find_fname s file =
      elim (rb_get_data (rb_search (order_of s.list.items) s.search_tree file)) [
        | none ↦ some minus_one
        | some i ↦
            if ltb i (num s.list)
            then some (if deleted_at s.list.items i then minus_one else pos i)
            else none
      ]

  -- `plist_set_file`
  unfoldable pub plist_set_file : World → Searched → ℕ → Str → Option Searched
  plist_set_file w s n file = elim (get_elem? s.list.items n) [
    | none ↦ none
    | some item ↦
        let t : Option (Tree ℕ) = elim item.file [
          | none ↦ some s.search_tree
          | some old ↦ rb_delete (order_of s.list.items) s.search_tree file
        ] in
        elim t [
          | none ↦ none
          | some t ↦
              let items = set s.list.items n (record item {
                file = some file;
                kind = file_type w file;
                mtime = get_mtime w file;
              }) in
              elim (rb_insert (order_of items) t n) [
                | none ↦ none
                | some t ↦ some (record { list = record s.list { items = items }; search_tree = t })
              ]
        ]
  ]

  module _ (w : World) where
    -- `plist_add`, with the number that it returns
    unfoldable pub plist_add : Searched → Option Str → Option (Searched × ℕ)
    plist_add s none = some (record s { list = plist_append w s.list none }, num s.list)
    plist_add s (some file) =
        let p = plist_append w s.list (some file) in
        elim (rb_delete (order_of p.items) s.search_tree file) [
          | none ↦ none
          | some t ↦ elim (rb_insert (order_of p.items) t (num s.list)) [
            | none ↦ none
            | some t ↦ some (record { list = p; search_tree = t }, num s.list)
          ]
        ]

    -- the rest of `plist_add_from_item`: the fields and the time
    abbrev pub copy_fields : PlistItem → Searched × ℕ → Option (Searched × ℕ)
    copy_fields item (s, n) = elim (get_elem? s.list.items n) [
      | none ↦ none
      | some dst ↦
          let p = record s.list { items = set s.list.items n (plist_item_copy dst item) } in
          some (record s { list = add_time p (tags_seconds item.tags) }, n)
    ]

    unfoldable pub plist_add_from_item : Searched → PlistItem → Option (Searched × ℕ)
    plist_add_from_item s item = elim (plist_add s item.file) [
      | none ↦ none
      | some r ↦ copy_fields item r
    ]

    -- a turn of the loop of `plist_cat` for an item with this file
    abbrev pub cat_item : Searched → PlistItem → Str → Option Searched
    cat_item a item file = elim (plist_find_fname a file) [
      | none ↦ none
      | some i ↦
          if is_set i
          then some a
          else elim (plist_add_from_item a item) [ none ↦ none | some (a, n) ↦ some a ]
    ]

    -- The loop of `plist_cat`: every item of the other list has to have a file, unless it is deleted.
    unfoldable pub cat_items : Searched → List PlistItem → Option Searched
    cat_items a [] = some a
    cat_items a (item ∷ items) = if item.deleted then cat_items a items else elim item.file [
      | none ↦ none
      | some file ↦ elim (cat_item a item file) [ none ↦ none | some a ↦ cat_items a items ]
    ]

    unfoldable pub plist_cat : Searched → Searched → Option Searched
    plist_cat a b = cat_items a b.list.items
