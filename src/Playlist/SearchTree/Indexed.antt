-- ===== src/Playlist/SearchTree/Indexed.antt =====
-- playlist.c: what the search tree finds.
use Prim.Native.Nat.{Ordering}
use mocp.Prelude.{
  ℕ, ◌<◌, ◌≡◌, refl, sym, ◌∙◌, ap, subst, Bool, true, false, Option, none, some, List, [], ◌∷◌,
  ◌++◌, All, if◌then◌else◌, length, length-append, get_elem?-append_left, get_elem?-append_last,
  arith,
}
use mocp.Bytes.{Str}
use mocp.Item.{PlistItem}
use mocp.RbTree.{Tree, Order, rb_insert}
use mocp.RbTree.Removal.{rb_delete}
use mocp.RbTree.Contents.{inorder}
use mocp.RbTree.Place.{IsLawful}
use mocp.RbTree.Sorted.{
  insert_list, delete_list, find_list, Given, insert_list-All, delete_list-All, insert_list-absent,
}
use mocp.RbTree.Lookup.{is_eq, same_self, find_list-delete, find_list-insert}
use mocp.RbTree.Refine.{IsTree, Implements, rb_insert-refines, rb_delete-refines}
use mocp.Playlist.SearchTree.{Searched, name_of, file_at, order_of}
use mocp.Playlist.SearchTree.Named.{
  names, last_named, last_named-append, IsSorted-agree, find_list-agree,
}

twice :
    {A : Type 0} (b : Bool) (x : A) (y : Option A)
    → (if b then some x else if b then none else y) ≡ (if b then some x else y)
twice true x y = refl
twice false x y = refl

module _ (strcoll : Str → Str → Ordering) where
  -- The tree is balanced and in order, holds numbers of items, and finds the last item of each name.
  pub record IsTreeOf (items : List PlistItem) (t : Tree ℕ) : Type 0 where
    pub tree : IsTree (order_of strcoll items) t
    pub below : All (λ i. i < length items) (inorder t)
    pub found :
        (f : Str) → find_list (order_of strcoll items) f (inorder t) ≡ last_named strcoll items f

  abbrev pub IsIndexed : Searched → Type 0
  IsIndexed s = IsTreeOf s.list.items s.search_tree

  abbrev pub IsCollation : Type 0
  IsCollation = IsLawful (order_of strcoll [])

  pub lawful : IsCollation → (items : List PlistItem) → IsLawful (order_of strcoll items)
  lawful l items = record {
    swapped = l.swapped;
    swapped_back = l.swapped_back;
    same = l.same;
    above = l.above;
    above_same = l.above_same;
  }

  agree-append :
      (items : List PlistItem) (item : PlistItem) (is : List ℕ)
      → All (λ i. i < length items) is
      → All (λ i. file_at items i ≡ file_at (items ++ (item ∷ [])) i) is
  agree-append items item [] b = tt
  agree-append items item (i ∷ is) b = (
    ap name_of (sym (get_elem?-append_left items (item ∷ []) i b.0)),
    agree-append items item is b.1,
  )

  below-append :
      (items : List PlistItem) (item : PlistItem) (is : List ℕ)
      → All (λ i. i < length items) is
      → All (λ i. i < length (items ++ (item ∷ []))) is
  below-append items item [] b = tt
  below-append items item (i ∷ is) b =
      (omega (arith, b.0, length-append items (item ∷ [])), below-append items item is b.1)

  -- an item without a file behind the others
  pub IsTreeOf-unnamed :
      (items : List PlistItem) (item : PlistItem) (t : Tree ℕ)
      → item.file ≡ none
      → IsTreeOf items t
      → IsTreeOf (items ++ (item ∷ [])) t
  IsTreeOf-unnamed items item t e h = record {
    tree = (
      h.tree.0,
      IsSorted-agree strcoll items _ (inorder t) (agree-append items item (inorder t) h.below)
          h.tree.1,
    );
    below = below-append items item (inorder t) h.below;
    found = λ f.
        find_list-agree strcoll items _ f (inorder t) (agree-append items item (inorder t) h.below)
        ∙ h.found f
        ∙ sym (last_named-append strcoll items item f ∙ (rw e refl));
  }

  -- `rb_delete` and `rb_insert` of `plist_add`, for an item behind the others
  pub add_named :
      IsCollation
      → (items : List PlistItem) (item : PlistItem) (t : Tree ℕ) (f : Str) → item.file ≡ some f
      → IsTreeOf items t
      → (t1 : Tree ℕ) × (t2 : Tree ℕ) × (rb_delete (order_of strcoll (items ++ (item ∷ []))) t f
          ≡ some t1)
        × (rb_insert (order_of strcoll (items ++ (item ∷ []))) t1 (length items) ≡ some t2)
        × IsTreeOf (items ++ (item ∷ [])) t2
  add_named c items item t f e h =
      let (t1, e1, h1, i1) = rb_delete-refines o l t f tree_now in
      second t1 e1 h1 i1 (rb_insert-refines o l t1 n h1)
    where
      o : Order Str ℕ
      o = order_of strcoll (items ++ (item ∷ []))

      l : IsLawful o
      l = lawful c (items ++ (item ∷ []))

      n : ℕ
      n = length items

      is : List ℕ
      is = inorder t

      tree_now : IsTree o t
      tree_now = (
        h.tree.0,
        IsSorted-agree strcoll items _ is (agree-append items item is h.below) h.tree.1,
      )

      key_n : o.key n ≡ f
      key_n = ap name_of (get_elem?-append_last items item) ∙ (rw e refl)

      removed :
          (k : Str)
          → find_list o k (delete_list o f is)
            ≡ (if is_eq (strcoll k f) then none else last_named strcoll items k)
      removed k =
          find_list-delete o l k f is tree_now.1
          ∙ ap (λ z. if is_eq (strcoll k f) then none else z)
              (find_list-agree strcoll items _ k is (agree-append items item is h.below)
                ∙ h.found k)

      finds :
          (k : Str) (ys : List ℕ)
          → insert_list o n (delete_list o f is) ≡ some ys
          → find_list o k ys ≡ last_named strcoll (items ++ (item ∷ [])) k
      finds k ys g =
          subst
            (Given (λ zs. find_list o k zs ≡ (
              if is_eq (strcoll k (o.key n)) then some n else find_list o k (delete_list o f is))))
            g (find_list-insert o l k n (delete_list o f is))
          ∙ ap (λ z. if is_eq (strcoll k z) then some n else find_list o k (delete_list o f is))
              key_n
          ∙ ap (λ z. if is_eq (strcoll k f) then some n else z) (removed k)
          ∙ twice (is_eq (strcoll k f)) n (last_named strcoll items k)
          ∙ sym (
              last_named-append strcoll items item k
              ∙ ap (λ z. if names strcoll z k then some n else last_named strcoll items k) e)

      free : find_list o (o.key n) (delete_list o f is) ≡ none
      free =
          ap (λ z. find_list o z (delete_list o f is)) key_n
          ∙ removed f
          ∙ ap (λ z. if is_eq z then none else last_named strcoll items f) (same_self o l f)

      third :
          (t1 : Tree ℕ)
          → rb_delete o t f ≡ some t1
          → (ys : List ℕ) → insert_list o n (delete_list o f is) ≡ some ys
          → Implements o (rb_insert o t1 n) (some ys)
          → (t1 : Tree ℕ) × (t2 : Tree ℕ) × (rb_delete o t f ≡ some t1)
            × (rb_insert o t1 n ≡ some t2)
            × IsTreeOf (items ++ (item ∷ [])) t2
      third t1 e1 ys g (t2, e2, h2, i2) = (
        t1,
        t2,
        e1,
        e2,
        record {
          tree = h2;
          below = subst (All (λ i. i < length (items ++ (item ∷ [])))) (sym i2) (
              subst (Given (All (λ i. i < length (items ++ (item ∷ []))))) g (
                insert_list-All o (λ i. i < length (items ++ (item ∷ []))) n (delete_list o f is)
                  (omega (arith, length-append items (item ∷ [])))
                  (delete_list-All o (λ i. i < length (items ++ (item ∷ []))) f is
                    (below-append items item is h.below))));
          found = λ k. ap (find_list o k) i2 ∙ finds k ys g;
        },
      )

      second :
          (t1 : Tree ℕ)
          → rb_delete o t f ≡ some t1
          → IsTree o t1
          → inorder t1 ≡ delete_list o f is
          → Implements o (rb_insert o t1 n) (insert_list o n (inorder t1))
          → (t1 : Tree ℕ) × (t2 : Tree ℕ) × (rb_delete o t f ≡ some t1)
            × (rb_insert o t1 n ≡ some t2)
            × IsTreeOf (items ++ (item ∷ [])) t2
      second t1 e1 h1 i1 h =
          let (ys, g) = insert_list-absent o n (delete_list o f is) free in
          third t1 e1 ys g (subst (Implements o (rb_insert o t1 n)) (ap (insert_list o n) i1 ∙ g) h)
