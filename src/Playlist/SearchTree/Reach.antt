-- ===== src/Playlist/SearchTree/Reach.antt =====
-- playlist.c: plist_add and plist_find_fname, and sequences of changes of a playlist with its search tree.
use Prim.Native.Nat.{Ordering}
use mocp.Prelude.{
  ℕ, suc, ◌+◌, ◌<◌, ◌≡◌, refl, sym, ◌∙◌, ap, subst, Option, none, some, List, [], ◌∷◌, ltb,
  if◌then◌else◌, length, arith,
}
use mocp.Prelude.Int.{ℤ, pos}
use mocp.Bytes.{Str}
use mocp.Tags.{FileTags}
use mocp.Files.{World}
use mocp.Item.{PlistItem}
use mocp.RbTree.{leaf, rb_get_data, rb_search}
use mocp.RbTree.Balance.{leaf_rb}
use mocp.RbTree.Contents.{inorder}
use mocp.RbTree.Sorted.{find_list}
use mocp.RbTree.Refine.{rb_search-refines}
use mocp.Playlist.{
  Plist, num, minus_one, deleted_at, plist_init, plist_append, plist_delete, plist_set_item_time,
  plist_set_item_rating, plist_set_tags, plist_discard_tags, plist_clear, new_item,
}
use mocp.Playlist.SearchTree.{Searched, order_of, plist_add, plist_find_fname}
use mocp.Playlist.SearchTree.Named.{last_index, last_named}
use mocp.Playlist.SearchTree.Indexed.{
  IsTreeOf, IsIndexed, IsCollation, lawful, IsTreeOf-unnamed, add_named,
}
use mocp.Playlist.SearchTree.Files.{
  Keeps, IsTreeOf-files, files-discard_tags, delete-Keeps, set_item_time-Keeps,
  set_item_rating-Keeps, set_tags-Keeps,
}

-- the last item with the name, unless it is deleted
abbrev pub found_in : List PlistItem → Option ℕ → ℤ
found_in items none = minus_one
found_in items (some i) = if deleted_at items i then minus_one else pos i

module _ (strcoll : Str → Str → Ordering) where
  last_index-lt :
      (items : List PlistItem) (i j : ℕ) (f : Str)
      → last_index strcoll items i f ≡ some j
      → j < i + length items
  unfolding last_index
  last_index-lt [] i j f e = cc
  last_index-lt (x ∷ items) i j f e = ground (arith, last_index-lt items (suc i) j f)

  -- With a right search tree, plist_find_fname returns the last item that has the name by strcoll,
  -- unless that one is deleted, and -1 otherwise.
  pub plist_find_fname-last :
      IsCollation strcoll
      → (s : Searched) (f : Str) → IsIndexed strcoll s
      → plist_find_fname strcoll s f
        ≡ some (found_in s.list.items (last_named strcoll s.list.items f))
  unfolding plist_find_fname last_named
  plist_find_fname-last l s f h = go (last_named strcoll s.list.items f) refl (
      rb_search-refines (order_of strcoll s.list.items) (lawful strcoll l s.list.items)
        s.search_tree f h.tree
      ∙ h.found f)
    where
      look : Option ℕ → Option ℤ
      look o = elim o [
        | none ↦ some minus_one
        | some i ↦
            if ltb i (num s.list)
            then some (if deleted_at s.list.items i then minus_one else pos i)
            else none
      ]

      there :
          (i : ℕ)
          → i < 0 + length s.list.items
          → look (some i) ≡ some (found_in s.list.items (some i))
      there i b = ground arith

      go :
          (o : Option ℕ)
          → last_named strcoll s.list.items f ≡ o
          → rb_get_data (rb_search (order_of strcoll s.list.items) s.search_tree f)
            ≡ last_named strcoll s.list.items f
          → plist_find_fname strcoll s f ≡ some (found_in s.list.items o)
      go none e k = ap look (k ∙ e)
      go (some i) e k = ap look (k ∙ e) ∙ there i (last_index-lt s.list.items 0 i f e)

  module _ (w : World) where
    -- With a right search tree, which is balanced, in order, and finds the last item of each name,
    -- plist_add returns the number of items of before, rb_insert does not abort, the item is appended
    -- and the search tree is right again.
    pub plist_add-IsIndexed :
        IsCollation strcoll
        → (s : Searched) (file : Option Str) → IsIndexed strcoll s
        → (t : Searched) × (plist_add strcoll w s file ≡ some (t, num s.list))
          × (t.list ≡ plist_append w s.list file)
          × IsIndexed strcoll t
    unfolding plist_add plist_append
    plist_add-IsIndexed l s none h = (
      record s { list = plist_append w s.list none },
      refl,
      refl,
      IsTreeOf-unnamed strcoll s.list.items (new_item w none) s.search_tree refl h,
    )
    plist_add-IsIndexed l s (some f) h =
        let (t1, t2, e1, e2, k) =
          add_named strcoll l s.list.items (new_item w (some f)) s.search_tree f refl h in
        (
          record { list = plist_append w s.list (some f); search_tree = t2 },
          rw (plist_add, e1, e2) refl,
          refl,
          k,
        )

    -- What the owner of a playlist has done since plist_init. An operation that fails an assertion does not
    -- return.
    pub data History : Searched → Type 0 where
      fresh : History (record { list = plist_init; search_tree = leaf })
      added :
          {s t : Searched} {n : ℕ} (file : Option Str)
          → History s
          → plist_add strcoll w s file ≡ some (t, n)
          → History t
      deleted :
          {s : Searched} {p : Plist} (n : ℕ)
          → History s
          → plist_delete s.list n ≡ some p
          → History (record s { list = p })
      timed :
          {s : Searched} {p : Plist} (n : ℕ) (time : ℤ)
          → History s
          → plist_set_item_time s.list n time ≡ some p
          → History (record s { list = p })
      rated :
          {s : Searched} {p : Plist} (n : ℕ) (rating : ℤ)
          → History s
          → plist_set_item_rating s.list n rating ≡ some p
          → History (record s { list = p })
      tagged :
          {s : Searched} {p : Plist} (n : ℕ) (tags : FileTags)
          → History s
          → plist_set_tags s.list n tags ≡ some p
          → History (record s { list = p })
      discarded :
          {s : Searched} → History s → History (record s { list = plist_discard_tags s.list })
      cleared :
          {s : Searched}
          → History s
          → History (record { list = plist_clear s.list; search_tree = leaf })

    Keeps-IsIndexed :
        (s : Searched) (o : Option Plist) (p : Plist)
        → Keeps s.list o
        → o ≡ some p
        → IsIndexed strcoll s
        → IsTreeOf strcoll p.items s.search_tree
    Keeps-IsIndexed s o p k e h =
        IsTreeOf-files strcoll s.list.items p.items s.search_tree (sym (subst (Keeps s.list) e k)) h

    -- From plist_init on, whatever is added, deleted, given times, ratings or tags, discarded and
    -- cleared: the search tree is balanced, in order, holds numbers of items only and finds the last
    -- item of each name.
    pub History-IsIndexed : IsCollation strcoll → (s : Searched) → History s → IsIndexed strcoll s
    unfolding inorder find_list last_named last_index plist_init plist_clear plist_discard_tags
    History-IsIndexed l _ fresh = record {
      tree = ((0, leaf_rb), tt);
      below = tt;
      found = λ f. refl;
    }
    History-IsIndexed l _ (cleared r) = record {
      tree = ((0, leaf_rb), tt);
      below = tt;
      found = λ f. refl;
    }
    History-IsIndexed l _ (added {s} {t} file r e) =
        let (u, k, m, h) = plist_add-IsIndexed l s file (History-IsIndexed l s r) in
        let same : u ≡ t = cc in subst (λ z. IsIndexed strcoll z) same h
    History-IsIndexed l _ (deleted {s} {p} n r e) =
        Keeps-IsIndexed s _ p (delete-Keeps s.list n) e (History-IsIndexed l s r)
    History-IsIndexed l _ (timed {s} {p} n time r e) =
        Keeps-IsIndexed s _ p (set_item_time-Keeps s.list n time) e (History-IsIndexed l s r)
    History-IsIndexed l _ (rated {s} {p} n rating r e) =
        Keeps-IsIndexed s _ p (set_item_rating-Keeps s.list n rating) e (History-IsIndexed l s r)
    History-IsIndexed l _ (tagged {s} {p} n tags r e) =
        Keeps-IsIndexed s _ p (set_tags-Keeps s.list n tags) e (History-IsIndexed l s r)
    History-IsIndexed l _ (discarded {s} r) =
        IsTreeOf-files strcoll s.list.items (plist_discard_tags s.list).items s.search_tree
          (sym (files-discard_tags s.list.items)) (History-IsIndexed l s r)
