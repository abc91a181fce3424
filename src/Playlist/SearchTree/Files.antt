-- ===== src/Playlist/SearchTree/Files.antt =====
-- playlist.c: changes of the items that leave their files alone, and the search tree with them.
use Prim.Native.Nat.{Ordering}
use mocp.Prelude.{
  ℕ, zero, suc, ◌<◌, ◌≡◌, refl, sym, ◌∙◌, ap, subst, Bool, true, false, Option, none, some, List,
  [], ◌∷◌, All, if◌then◌else◌, length, get_elem?, set, leb, arith,
}
use mocp.Prelude.Int.{ℤ, pos_part}
use mocp.Bytes.{Str}
use mocp.Tags.{FileTags, tags_dup, set_flag, tags_time, tags_rating}
use mocp.Item.{PlistItem}
use mocp.RbTree.{Tree}
use mocp.RbTree.Contents.{inorder}
use mocp.Playlist.{
  Plist, plist_delete, plist_set_item_time, plist_set_item_rating, plist_set_tags, discard_tags,
  mark_deleted, retag, or_new,
}
use mocp.Playlist.SearchTree.{file_at}
use mocp.Playlist.SearchTree.Named.{names, last_index, last_named, IsSorted-agree, find_list-agree}
use mocp.Playlist.SearchTree.Indexed.{IsTreeOf}

pub files : List PlistItem → List (Option Str)
files [] = []
files (item ∷ items) = item.file ∷ files items

or_nil : Option (Option Str) → Str
or_nil none = []
or_nil (some none) = []
or_nil (some (some f)) = f

file_at-files :
    (items : List PlistItem) (i : ℕ) → file_at items i ≡ or_nil (get_elem? (files items) i)
unfolding files or_nil
file_at-files [] i = refl
file_at-files (x ∷ items) zero = ground arith
file_at-files (x ∷ items) (suc i) = file_at-files items i

length-files : (items : List PlistItem) → length items ≡ length (files items)
unfolding files
length-files [] = refl
length-files (x ∷ items) = ap suc (length-files items)

module _ (strcoll : Str → Str → Ordering) where
  last_file : List (Option Str) → ℕ → Str → Option ℕ
  last_file [] i f = none
  last_file (x ∷ xs) i f = elim (last_file xs (suc i) f) [
    | some j ↦ some j
    | none ↦ if names strcoll x f then some i else none
  ]

  last_index-files :
      (items : List PlistItem) (i : ℕ) (f : Str)
      → last_index strcoll items i f ≡ last_file (files items) i f
  unfolding last_index last_file files
  last_index-files [] i f = refl
  last_index-files (x ∷ items) i f =
      ap (λ r. elim r [ some j ↦ some j | none ↦ if names strcoll x.file f then some i else none ])
        (last_index-files items (suc i) f)

  last_named-files :
      (xs ys : List PlistItem) (f : Str)
      → files xs ≡ files ys
      → last_named strcoll xs f ≡ last_named strcoll ys f
  unfolding last_named
  last_named-files xs ys f e =
      last_index-files xs 0 f ∙ ap (λ z. last_file z 0 f) e ∙ sym (last_index-files ys 0 f)

  agree-files :
      (xs ys : List PlistItem) (is : List ℕ)
      → files xs ≡ files ys
      → All (λ i. file_at xs i ≡ file_at ys i) is
  agree-files xs ys [] e = tt
  agree-files xs ys (i ∷ is) e = (
    file_at-files xs i ∙ ap (λ z. or_nil (get_elem? z i)) e ∙ sym (file_at-files ys i),
    agree-files xs ys is e,
  )

  pub IsTreeOf-files :
      (xs ys : List PlistItem) (t : Tree ℕ)
      → files xs ≡ files ys
      → IsTreeOf strcoll xs t
      → IsTreeOf strcoll ys t
  IsTreeOf-files xs ys t e h = record {
    tree = (
      h.tree.0,
      IsSorted-agree strcoll xs ys (inorder t) (agree-files xs ys (inorder t) e) h.tree.1,
    );
    below =
        subst (λ n. All (λ i. i < n) (inorder t))
          (length-files xs ∙ ap length e ∙ sym (length-files ys)) h.below;
    found = λ f.
        find_list-agree strcoll xs ys f (inorder t) (agree-files xs ys (inorder t) e)
        ∙ h.found f
        ∙ last_named-files xs ys f e;
  }

pub files-set :
    (items : List PlistItem) (n : ℕ) (x y : PlistItem)
    → get_elem? items n ≡ some x
    → y.file ≡ x.file
    → files (set items n y) ≡ files items
unfolding files
files-set [] n x y e h = refl
files-set (z ∷ items) zero x y e h = rw h (cc)
files-set (z ∷ items) (suc n) x y e h = ap (λ r. z.file ∷ r) (files-set items n x y e h)

pub files-discard_tags : (items : List PlistItem) → files (discard_tags items) ≡ files items
unfolding files discard_tags
files-discard_tags [] = refl
files-discard_tags (x ∷ items) = ground (arith, files-discard_tags items)

-- the result, if there is one, has the files of before
abbrev pub Keeps : Plist → Option Plist → Type 0
Keeps p none = Unit {0}
Keeps p (some q) = files q.items ≡ files p.items

if-Keeps :
    (b : Bool) (p : Plist) (x y : Option Plist)
    → Keeps p x
    → Keeps p y
    → Keeps p (if b then x else y)
if-Keeps true p x y h k = h
if-Keeps false p x y h k = k

pub delete-Keeps : (p : Plist) (n : ℕ) → Keeps p (plist_delete p n)
unfolding plist_delete
delete-Keeps p n = go (get_elem? p.items n) refl
  where
    go :
        (o : Option PlistItem)
        → get_elem? p.items n ≡ o
        → Keeps p (elim o [
          | none ↦ none
          | some item ↦
              if item.deleted
              then none
              else if leb (pos_part p.not_deleted) 0
              then none
              else some (mark_deleted p n item)
        ])
    go none e = tt
    go (some item) e = if-Keeps item.deleted p none _ tt (
        if-Keeps (leb (pos_part p.not_deleted) 0) p none (some (mark_deleted p n item)) tt
          (files-set p.items n item _ e refl))

pub set_item_time-Keeps : (p : Plist) (n : ℕ) (time : ℤ) → Keeps p (plist_set_item_time p n time)
unfolding plist_set_item_time
set_item_time-Keeps p n time = go (get_elem? p.items n) refl
  where
    go :
        (o : Option PlistItem)
        → get_elem? p.items n ≡ o
        → Keeps p (elim o [
          | none ↦ none
          | some item ↦
              let t = or_new item.tags in
              some (retag p n item (record t { time = time; filled = set_flag t.filled tags_time }))
        ])
    go none e = tt
    go (some item) e = files-set p.items n item _ e refl

pub set_item_rating-Keeps :
    (p : Plist) (n : ℕ) (rating : ℤ) → Keeps p (plist_set_item_rating p n rating)
unfolding plist_set_item_rating
set_item_rating-Keeps p n rating = go (get_elem? p.items n) refl
  where
    go :
        (o : Option PlistItem)
        → get_elem? p.items n ≡ o
        → Keeps p (elim o [
          | none ↦ none
          | some item ↦
              let t = or_new item.tags in
              some (record p {
                items = set p.items n (record item {
                  tags =
                      some (record t { rating = rating; filled = set_flag t.filled tags_rating });
                });
              })
        ])
    go none e = tt
    go (some item) e = files-set p.items n item _ e refl

pub set_tags-Keeps : (p : Plist) (n : ℕ) (tags : FileTags) → Keeps p (plist_set_tags p n tags)
unfolding plist_set_tags
set_tags-Keeps p n tags = go (get_elem? p.items n) refl
  where
    go :
        (o : Option PlistItem)
        → get_elem? p.items n ≡ o
        → Keeps p (elim o [ none ↦ none | some item ↦ some (retag p n item (tags_dup tags)) ])
    go none e = tt
    go (some item) e = files-set p.items n item _ e refl
