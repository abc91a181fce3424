-- ===== src/Playlist/SearchTree/Tests.antt =====
-- Playlists with a search tree at concrete inputs, under the order of strcoll (3) in the C locale.
use Prim.Native.Nat.{Ordering}
use Prim.Native.Nat.Ordering.{lt, eq, gt}
use mocp.Prelude.{◌≡◌, refl, false, none, some, [], ◌∷◌, ltb, ◌==◌, if◌then◌else◌, arith}
use mocp.Bytes.{Str}
use mocp.Files.{World, chars}
use mocp.RbTree.{
  leaf, node, black, rb_search, search_from, rb_insert, descend, rb_insert_fixup, plug,
}
use mocp.RbTree.Removal.{rb_delete}
use mocp.Playlist.{num, plist_init, plist_append}
use mocp.Playlist.SearchTree.{Searched, plist_add, plist_find_fname, plist_cat}
use mocp.Playlist.SearchTree.Named.{last_named}
use mocp.Playlist.SearchTree.Indexed.{IsIndexed, IsCollation}
use mocp.Playlist.SearchTree.Reach.{
  History, fresh, added, found_in, plist_add-IsIndexed, plist_find_fname-last, History-IsIndexed,
}
use mocp.Playlist.SearchTree.Concat.{Has, HasAll, plist_cat-HasAll}

-- strcmp (3)
unfoldable str_cmp : Str → Str → Ordering
str_cmp [] [] = eq
str_cmp [] (d ∷ t) = lt
str_cmp (c ∷ s) [] = gt
str_cmp (c ∷ s) (d ∷ t) = if ltb c d then lt else if c == d then str_cmp s t else gt

str_cmp-swapped : (a b : Str) → str_cmp a b ≡ lt → str_cmp b a ≡ gt
unfolding str_cmp
str_cmp-swapped [] [] e = cc
str_cmp-swapped [] (d ∷ t) e = refl
str_cmp-swapped (c ∷ s) [] e = cc
str_cmp-swapped (c ∷ s) (d ∷ t) e = ground (arith, str_cmp-swapped s t)

str_cmp-swapped_back : (a b : Str) → str_cmp a b ≡ gt → str_cmp b a ≡ lt
unfolding str_cmp
str_cmp-swapped_back [] [] e = cc
str_cmp-swapped_back [] (d ∷ t) e = cc
str_cmp-swapped_back (c ∷ s) [] e = refl
str_cmp-swapped_back (c ∷ s) (d ∷ t) e = ground (arith, str_cmp-swapped_back s t)

str_cmp-same : (a b : Str) → str_cmp a b ≡ eq → str_cmp b a ≡ eq
unfolding str_cmp
str_cmp-same [] [] e = refl
str_cmp-same [] (d ∷ t) e = cc
str_cmp-same (c ∷ s) [] e = cc
str_cmp-same (c ∷ s) (d ∷ t) e = ground (arith, str_cmp-same s t)

str_cmp-above : (a b c : Str) → str_cmp a b ≡ gt → str_cmp b c ≡ gt → str_cmp a c ≡ gt
unfolding str_cmp
str_cmp-above [] [] c e k = cc
str_cmp-above [] (y ∷ t) c e k = cc
str_cmp-above (x ∷ s) [] [] e k = cc
str_cmp-above (x ∷ s) [] (z ∷ u) e k = cc
str_cmp-above (x ∷ s) (y ∷ t) [] e k = refl
str_cmp-above (x ∷ s) (y ∷ t) (z ∷ u) e k = ground (arith, str_cmp-above s t u)

str_cmp-above_same : (a b c : Str) → str_cmp a b ≡ eq → str_cmp b c ≡ gt → str_cmp a c ≡ gt
unfolding str_cmp
str_cmp-above_same [] [] c e k = k
str_cmp-above_same [] (y ∷ t) c e k = cc
str_cmp-above_same (x ∷ s) [] c e k = cc
str_cmp-above_same (x ∷ s) (y ∷ t) [] e k = refl
str_cmp-above_same (x ∷ s) (y ∷ t) (z ∷ u) e k = ground (arith, str_cmp-above_same s t u)

str_cmp-IsCollation : IsCollation str_cmp
str_cmp-IsCollation = record {
  swapped = str_cmp-swapped;
  swapped_back = str_cmp-swapped_back;
  same = str_cmp-same;
  above = str_cmp-above;
  above_same = str_cmp-above_same;
}

-- No file is there.
abbrev nothing_there : World
nothing_there = record { stat = λ f. none; is_sound_file = λ f. false }

abbrev empty : Searched
empty = record { list = plist_init; search_tree = leaf }

empty-IsIndexed : IsIndexed str_cmp empty
empty-IsIndexed = History-IsIndexed str_cmp nothing_there str_cmp-IsCollation empty fresh

abbrev one : Searched
one = record {
  list = plist_append nothing_there plist_init (some (chars "/b.ogg"));
  search_tree = node black leaf 0 leaf;
}

one_added : plist_add str_cmp nothing_there empty (some (chars "/b.ogg")) ≡ some (one, 0)
unfolding plist_add plist_append plist_init rb_delete rb_search search_from rb_insert descend
    rb_insert_fixup plug
one_added = refl

one_History : History str_cmp nothing_there one
one_History = added (some (chars "/b.ogg")) fresh one_added

one-IsIndexed : IsIndexed str_cmp one
one-IsIndexed = History-IsIndexed str_cmp nothing_there str_cmp-IsCollation one one_History

History-IsIndexed_example : IsIndexed str_cmp one
History-IsIndexed_example =
    History-IsIndexed str_cmp nothing_there str_cmp-IsCollation one one_History

plist_add-IsIndexed_example :
    (t : Searched) × (plist_add str_cmp nothing_there one (some (chars "/b.ogg"))
      ≡ some (t, num one.list))
    × (t.list ≡ plist_append nothing_there one.list (some (chars "/b.ogg")))
    × IsIndexed str_cmp t
plist_add-IsIndexed_example =
    plist_add-IsIndexed str_cmp nothing_there str_cmp-IsCollation one (some (chars "/b.ogg"))
      one-IsIndexed

plist_find_fname-last_example :
    plist_find_fname str_cmp one (chars "/b.ogg")
    ≡ some (found_in one.list.items (last_named str_cmp one.list.items (chars "/b.ogg")))
plist_find_fname-last_example =
    plist_find_fname-last str_cmp str_cmp-IsCollation one (chars "/b.ogg") one-IsIndexed

plist_cat-HasAll_example :
    (t : Searched) × (plist_cat str_cmp nothing_there empty one ≡ some t)
    × IsIndexed str_cmp t
    × ((f : Str) → Has str_cmp empty f → Has str_cmp t f)
    × HasAll str_cmp t one.list.items
unfolding plist_init plist_append
plist_cat-HasAll_example =
    plist_cat-HasAll str_cmp nothing_there str_cmp-IsCollation empty one empty-IsIndexed
      ((λ e. (chars "/b.ogg", refl)), tt)
