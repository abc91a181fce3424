-- ===== src/Playlist/SearchTree/Concat.antt =====
-- playlist.c: plist_add_from_item and plist_cat.
use Prim.Native.Nat.{Ordering}
use mocp.Prelude.{
  ℕ, zero, suc, ◌≡◌, refl, ◌⊎◌, inl, inr, sym, ◌∙◌, ap, subst, Bool, true, false, Option, none,
  some, List, [], ◌∷◌, ◌++◌, All, if◌then◌else◌, length, get_elem?, set, get_elem?-append_last,
  arith,
}
use mocp.Prelude.Int.{ℤ, pos}
use mocp.Bytes.{Str}
use mocp.Files.{World}
use mocp.Item.{PlistItem}
use mocp.Playlist.{
  Plist, num, minus_one, deleted_at, plist_append, new_item, plist_item_copy, add_time,
  tags_seconds,
}
use mocp.RbTree.Lookup.{same_self}
use mocp.Playlist.SearchTree.{
  order_of, Searched, plist_add, plist_add_from_item, copy_fields, plist_find_fname, cat_item,
  cat_items, plist_cat,
}
use mocp.Playlist.SearchTree.Named.{names, last_named, last_named-append}
use mocp.Playlist.SearchTree.Indexed.{IsIndexed, IsCollation}
use mocp.Playlist.SearchTree.Files.{files, files-set, IsTreeOf-files}
use mocp.Playlist.SearchTree.Reach.{plist_add-IsIndexed, plist_find_fname-last, found_in}

set-append_last :
    {A : Type 0} (xs : List A) (x y : A) → set (xs ++ (x ∷ [])) (length xs) y ≡ xs ++ (y ∷ [])
set-append_last [] x y = refl
set-append_last (z ∷ xs) x y = ap (λ r. z ∷ r) (set-append_last xs x y)

items-add_time : (p : Plist) (t : ℤ) → (add_time p t).items ≡ p.items
items-add_time p t = ground arith

deleted_at-append :
    (items : List PlistItem) (item : PlistItem) (j : ℕ)
    → item.deleted ≡ false
    → deleted_at (items ++ (item ∷ [])) j ≡ deleted_at items j
deleted_at-append [] item zero d = d
deleted_at-append [] item (suc j) d = refl
deleted_at-append (x ∷ items) item zero d = refl
deleted_at-append (x ∷ items) item (suc j) d = deleted_at-append items item j d

found_in-append :
    (items : List PlistItem) (item : PlistItem) (o : Option ℕ)
    → item.deleted ≡ false
    → found_in (items ++ (item ∷ [])) o ≡ found_in items o
found_in-append items item none d = refl
found_in-append items item (some j) d =
    ap (λ b. if b then minus_one else pos j) (deleted_at-append items item j d)

-- the items that are not deleted have a file
abbrev pub HaveFiles : List PlistItem → Type 0
HaveFiles items =
    All (λ (item : PlistItem). item.deleted ≡ false → (f : Str) × (item.file ≡ some f)) items

module _ (strcoll : Str → Str → Ordering) where
  -- plist_find_fname finds an item
  abbrev pub Has : Searched → Str → Type 0
  Has s f = (i : ℕ) × (plist_find_fname strcoll s f ≡ some (pos i))

  -- the files of the items that are not deleted are found
  abbrev pub HasAll : Searched → List PlistItem → Type 0
  HasAll t items =
      All (λ (item : PlistItem). item.deleted ≡ false → (f : Str) → item.file ≡ some f → Has t f)
        items

module _ (strcoll : Str → Str → Ordering) (w : World) where
  -- the item that plist_add_from_item leaves on the list
  abbrev pub copied : PlistItem → PlistItem
  copied item = plist_item_copy (new_item w item.file) item

  pub add_from_item-IsIndexed :
      IsCollation strcoll
      → (s : Searched) (item : PlistItem) → IsIndexed strcoll s
      → (t : Searched) × (plist_add_from_item strcoll w s item ≡ some (t, num s.list))
        × (t.list.items ≡ s.list.items ++ (copied item ∷ []))
        × IsIndexed strcoll t
  unfolding plist_add_from_item plist_append plist_item_copy
  add_from_item-IsIndexed l s item h =
      let (u, k, m, g) = plist_add-IsIndexed strcoll w l s item.file h in
      rest u k (ap (λ p. p.items) m) g
    where
      new : PlistItem
      new = new_item w item.file

      rest :
          (u : Searched)
          → plist_add strcoll w s item.file ≡ some (u, num s.list)
          → u.list.items ≡ s.list.items ++ (new ∷ [])
          → IsIndexed strcoll u
          → (t : Searched) × (plist_add_from_item strcoll w s item ≡ some (t, num s.list))
            × (t.list.items ≡ s.list.items ++ (copied item ∷ []))
            × IsIndexed strcoll t
      rest u k m g =
          let at : get_elem? u.list.items (num s.list) ≡ some new =
            ap (λ z. get_elem? z (num s.list)) m ∙ get_elem?-append_last s.list.items new in
          let p : Plist = record u.list {
            items = set u.list.items (num s.list) (plist_item_copy new item);
          } in
          let items : (add_time p (tags_seconds item.tags)).items ≡ p.items =
            items-add_time p (tags_seconds item.tags) in
          (
            record u { list = add_time p (tags_seconds item.tags) },
            rw (plist_add_from_item, k, copy_fields, at) refl,
            items
                ∙ ap (λ z. set z (num s.list) (plist_item_copy new item)) m
                ∙ set-append_last s.list.items new _,
            IsTreeOf-files strcoll u.list.items _ u.search_tree
                (sym (ap files items ∙ files-set u.list.items (num s.list) new _ at refl)) g,
          )

  -- what plist_find_fname returns once the item is added
  find-added :
      IsCollation strcoll
      → (s t : Searched) (item : PlistItem) (g : Str) → item.deleted ≡ false
      → IsIndexed strcoll s
      → IsIndexed strcoll t
      → t.list.items ≡ s.list.items ++ (copied item ∷ [])
      → plist_find_fname strcoll t g ≡ (
          if names strcoll item.file g
          then some (pos (num s.list))
          else plist_find_fname strcoll s g)
  unfolding plist_item_copy
  find-added l s t item g d h k m =
      plist_find_fname-last strcoll l t g k
      ∙ ap (λ z. some (found_in z (last_named strcoll z g))) m
      ∙ ap (λ z. some (found_in (s.list.items ++ (copied item ∷ [])) z))
          (last_named-append strcoll s.list.items (copied item) g)
      ∙ go (names strcoll item.file g)
    where
      go :
          (b : Bool)
          → some (
              found_in
                (s.list.items ++ (copied item ∷ []))
                (if b then some (num s.list) else last_named strcoll s.list.items g))
            ≡ (if b then some (pos (num s.list)) else plist_find_fname strcoll s g)
      go true = rw (get_elem?-append_last s.list.items (copied item)) (rw d refl)
      go false =
          ap some (found_in-append s.list.items (copied item) (last_named strcoll s.list.items g) d)
          ∙ sym (plist_find_fname-last strcoll l s g h)

  -- What a turn of the loop leaves: the name is found, and every name that was found.
  abbrev More : Searched → Str → Option Searched → Type 0
  More s f o =
      (t : Searched) × (o ≡ some t)
      × IsIndexed strcoll t
      × Has strcoll t f
      × ((g : Str) → Has strcoll s g → Has strcoll t g)

  added-More :
      IsCollation strcoll
      → (s : Searched) (item : PlistItem) (f : Str) → item.deleted ≡ false
      → item.file ≡ some f
      → IsIndexed strcoll s
      → More s f
          (elim (plist_add_from_item strcoll w s item) [ none ↦ none | some (a, n) ↦ some a ])
  added-More l s item f d e h =
      let (t, k, m, g) = add_from_item-IsIndexed l s item h in
      (
        t,
        rw k refl,
        g,
        (
          num s.list,
          find-added l s t item f d h g m ∙ rw (e, names, same_self (order_of strcoll []) l f) refl,
        ),
        λ u r. then_has t u (find-added l s t item u d h g m) r (names strcoll item.file u) refl,
      )
    where
      then_has :
          (t : Searched) (u : Str)
          → plist_find_fname strcoll t u ≡ (
              if names strcoll item.file u
              then some (pos (num s.list))
              else plist_find_fname strcoll s u)
          → Has strcoll s u
          → (b : Bool) → names strcoll item.file u ≡ b
          → Has strcoll t u
      then_has t u k r true b = (num s.list, k ∙ rw b refl)
      then_has t u k r false b = (r.0, k ∙ rw b r.1)

  found_in-cases :
      (items : List PlistItem) (o : Option ℕ)
      → (found_in items o ≡ minus_one) ⊎ ((i : ℕ) × (found_in items o ≡ pos i))
  found_in-cases items none = inl refl
  found_in-cases items (some i) = go (deleted_at items i)
    where
      go :
          (b : Bool)
          → ((if b then minus_one else pos i) ≡ minus_one)
            ⊎ ((j : ℕ) × ((if b then minus_one else pos i) ≡ pos j))
      go true = inl refl
      go false = inr (i, refl)

  cat_item-More :
      IsCollation strcoll
      → (s : Searched) (item : PlistItem) (f : Str) → item.deleted ≡ false
      → item.file ≡ some f
      → IsIndexed strcoll s
      → More s f (cat_item strcoll w s item f)
  cat_item-More l s item f d e h =
      let find = plist_find_fname-last strcoll l s f h in
      elim (found_in-cases s.list.items (last_named strcoll s.list.items f)) [
        | inl m ↦ rw (cat_item, find ∙ ap some m) (added-More l s item f d e h)
        | inr r ↦
            rw (cat_item, find ∙ ap some r.1) (s, refl, h, (r.0, find ∙ ap some r.1), λ g k. k)
      ]

  abbrev Filled : Searched → List PlistItem → Option Searched → Type 0
  Filled s items o =
      (t : Searched) × (o ≡ some t)
      × IsIndexed strcoll t
      × ((g : Str) → Has strcoll s g → Has strcoll t g)
      × HasAll strcoll t items

  cat_items-Filled :
      IsCollation strcoll
      → (s : Searched) (items : List PlistItem) → IsIndexed strcoll s
      → HaveFiles items
      → Filled s items (cat_items strcoll w s items)
  unfolding cat_items
  cat_items-Filled l s [] h a = (s, refl, h, λ g k. k, tt)
  cat_items-Filled l s (item ∷ items) h a =
      go (λ u k. cat_items-Filled l u items k a.1) item.deleted refl
    where
      go :
          ((u : Searched) → IsIndexed strcoll u → Filled u items (cat_items strcoll w u items))
          → (b : Bool) → item.deleted ≡ b
          → Filled s (item ∷ items) (cat_items strcoll w s (item ∷ items))
      go others true d =
          let (t, k, g, m, r) = others s h in (t, rw (cat_items, d) k, g, m, (λ z. cc, r))
      go others false d =
          let (f, e) = a.0 d in
          let (u, k1, g1, has, m1) = cat_item-More l s item f d e h in
          let (t, k, g, m, r) = others u g1 in
          (
            t,
            rw (cat_items, d) (rw e (rw k1 k)),
            g,
            λ v x. m v (m1 v x),
            (λ z v y. subst (Has strcoll t) (cc) (m f has), r),
          )

  -- Where the list a has a right search tree and the items of b that are not deleted have files,
  -- plist_cat passes its assertion and rb_insert does not abort; afterwards the search tree of a is
  -- right, every name that plist_find_fname found is still found, and so is the name of every item
  -- of b that is not deleted.
  pub plist_cat-HasAll :
      IsCollation strcoll
      → (a b : Searched) → IsIndexed strcoll a
      → HaveFiles b.list.items
      → (t : Searched) × (plist_cat strcoll w a b ≡ some t)
        × IsIndexed strcoll t
        × ((f : Str) → Has strcoll a f → Has strcoll t f)
        × HasAll strcoll t b.list.items
  unfolding plist_cat
  plist_cat-HasAll l a b h k = cat_items-Filled l a b.list.items h k
