-- ===== src/Playlist.antt =====
-- playlist.c: the list of files that is played, kept by the server and by each client.
-- `items` holds the `num` elements in use of the array, so `num` is its length. An `int` that counts
-- or sums is an integer. A function that asserts returns `none` where the assertion fails.
-- `Playlist.SearchTree` adds the search tree.
pub mod Walk
pub mod Totals
pub mod Edit
pub mod Reach
pub mod SearchTree
mod Tests
use mocp.Prelude.{
  ℕ, zero, suc, ◌+◌, ◌-◌, ◌<◌, Bool, true, false, not, ◌&&◌, Option, none, some, List, [], ◌∷◌,
  ◌++◌, ltb, leb, ◌==◌, if◌then◌else◌, length, get_elem?, set, drop,
}
use mocp.Prelude.Int.{ℤ, pos, negsuc, pos_part, eqb_ℤ, ◌+ℤ◌, ◌-ℤ◌}
use mocp.Bytes.{Str}
use mocp.Tags.{FileTags, tags_new, tags_dup, tags_time, tags_rating, set_flag}
use mocp.Files.{World, FileType, f_other, file_type, get_mtime}
use mocp.Item.{PlistItem}

-- `struct plist` without the search tree
pub record Plist : Type 0 where
  pub items : List PlistItem
  pub allocated : ℕ
  pub not_deleted : ℤ
  pub serial : ℤ
  pub total_time : ℤ
  pub items_with_time : ℤ

abbrev pub num : Plist → ℕ
num p = length p.items

-- `INIT_SIZE`
abbrev pub init_size : ℕ
init_size = 64

abbrev pub minus_one : ℤ
minus_one = negsuc 0

-- `x != -1`
abbrev pub is_set : ℤ → Bool
is_set (pos n) = true
is_set (negsuc n) = not (n == 0)

unfoldable pub plist_init : Plist
plist_init = record {
  items = [];
  allocated = init_size;
  not_deleted = pos 0;
  serial = minus_one;
  total_time = pos 0;
  items_with_time = pos 0;
}

-- `plist->items[i].deleted`; what lies behind the end is not looked at.
abbrev pub is_deleted : Option PlistItem → Bool
is_deleted none = false
is_deleted (some item) = item.deleted

-- `plist_deleted`
abbrev pub deleted_at : List PlistItem → ℕ → Bool
deleted_at items i = is_deleted (get_elem? items i)

-- the index where `while (i < plist->num && plist->items[i].deleted) i++` stops; the list is what
-- stands from index i on
unfoldable pub skip_deleted : List PlistItem → ℕ → ℕ
skip_deleted [] i = i
skip_deleted (item ∷ rest) i = if item.deleted then skip_deleted rest (suc i) else i

-- `num + 1`, for `num >= -1`
abbrev pub after : ℤ → ℕ
after (pos n) = suc n
after (negsuc n) = 0

unfoldable pub plist_next : Plist → ℤ → ℤ
plist_next p n =
    let i = skip_deleted (drop (after n) p.items) (after n) in
    if ltb i (num p) then pos i else minus_one

-- `while (i >= 0 && plist->items[i].deleted) i--; return i >= 0 ? i : -1;` with `i + 1` given
pub skip_back : List PlistItem → ℕ → ℤ
skip_back items zero = minus_one
skip_back items (suc i) = if deleted_at items i then skip_back items i else pos i

unfoldable pub plist_prev : Plist → ℤ → ℤ
plist_prev p n = skip_back p.items (pos_part n)

-- `while (i > 0 && plist_deleted (plist, i)) i--;`
pub last_from : List PlistItem → ℕ → ℕ
last_from items zero = zero
last_from items (suc i) = if deleted_at items (suc i) then last_from items i else suc i

unfoldable pub plist_last : Plist → ℤ
plist_last p = if num p == 0 then minus_one else pos (last_from p.items (num p - 1))

-- `for (i = 0; i < num; i++) if (!plist->items[i].deleted) pos++;`
pub count_position : List PlistItem → ℕ → ℕ → ℕ
count_position items zero at = at
count_position [] (suc n) at = at
count_position (item ∷ items) (suc n) at =
    count_position items n (if item.deleted then at else at + 1)

unfoldable pub plist_get_position : Plist → ℕ → Option ℕ
plist_get_position p n = if ltb n (num p) then some (count_position p.items n 1) else none

unfoldable pub plist_count : Plist → ℤ
plist_count p = p.not_deleted

-- `item->tags->time`, -1 without tags: `get_item_time`, which does not look at whether the item is there.
-- Its callers pass a number below `num`.
abbrev pub tags_seconds : Option FileTags → ℤ
tags_seconds none = minus_one
tags_seconds (some t) = t.time

unfoldable pub get_item_time : Plist → ℕ → ℤ
get_item_time p i = elim (get_elem? p.items i) [
  | none ↦ minus_one
  | some item ↦ tags_seconds item.tags
]

-- `plist_total_time`, with `*all_files`
unfoldable pub plist_total_time : Plist → ℤ × Bool
plist_total_time p = (p.total_time, eqb_ℤ p.not_deleted p.items_with_time)

-- The time `t` comes into the sums, or leaves them, unless it is -1.
abbrev pub add_time : Plist → ℤ → Plist
add_time p t =
    if is_set t
    then record p { total_time = p.total_time +ℤ t; items_with_time = p.items_with_time +ℤ pos 1 }
    else p

abbrev pub sub_time : Plist → ℤ → Plist
sub_time p t =
    if is_set t
    then record p { total_time = p.total_time -ℤ t; items_with_time = p.items_with_time -ℤ pos 1 }
    else p

-- the item at n, which is `item`, marked as deleted: its file name is kept
abbrev pub mark_deleted : Plist → ℕ → PlistItem → Plist
mark_deleted p n item =
    let q = sub_time p (tags_seconds item.tags) in
    record q {
      items =
          set p.items n
            (record item { title_file = none; title_tags = none; tags = none; deleted = true });
      not_deleted = p.not_deleted -ℤ pos 1;
    }

-- The first assertion reads the item before the code looks at whether it is there: `none` if it is not.
unfoldable pub plist_delete : Plist → ℕ → Option Plist
plist_delete p n = elim (get_elem? p.items n) [
  | none ↦ none
  | some item ↦
      if item.deleted
      then none
      else if leb (pos_part p.not_deleted) 0
      then none
      else some (mark_deleted p n item)
]

-- the tags of the item at n, which is `item`, replaced: its old time leaves the sums, the new comes in
abbrev pub retag : Plist → ℕ → PlistItem → FileTags → Plist
retag p n item tags =
    let q = add_time (sub_time p (tags_seconds item.tags)) tags.time in
    record q { items = set p.items n (record item { tags = some tags }) }

abbrev pub or_new : Option FileTags → FileTags
or_new none = record {
  title = none;
  artist = none;
  album = none;
  track = negsuc 0;
  time = negsuc 0;
  rating = negsuc 0;
  filled = pos 0;
}
or_new (some t) = t

-- `plist_set_item_time`
unfoldable pub plist_set_item_time : Plist → ℕ → ℤ → Option Plist
plist_set_item_time p n time = elim (get_elem? p.items n) [
  | none ↦ none
  | some item ↦
      let t = or_new item.tags in
      some (retag p n item (record t { time = time; filled = set_flag t.filled tags_time }))
]

-- `plist_set_item_rating`
unfoldable pub plist_set_item_rating : Plist → ℕ → ℤ → Option Plist
plist_set_item_rating p n rating = elim (get_elem? p.items n) [
  | none ↦ none
  | some item ↦
      let t = or_new item.tags in
      some (record p {
        items = set p.items n (record item {
          tags = some (record t { rating = rating; filled = set_flag t.filled tags_rating });
        });
      })
]

-- `plist_set_tags`
unfoldable pub plist_set_tags : Plist → ℕ → FileTags → Option Plist
plist_set_tags p n tags = elim (get_elem? p.items n) [
  | none ↦ none
  | some item ↦ some (retag p n item (tags_dup tags))
]

-- the loop of `plist_discard_tags`
pub discard_tags : List PlistItem → List PlistItem
discard_tags [] = []
discard_tags (item ∷ items) =
    (if item.deleted then item else record item { tags = none }) ∷ discard_tags items

unfoldable pub plist_discard_tags : Plist → Plist
plist_discard_tags p = record p {
  items = discard_tags p.items;
  items_with_time = pos 0;
  total_time = pos 0;
}

-- `plist_swap`: both items are read before either is written.
unfoldable pub plist_swap : Plist → ℕ → ℕ → Option Plist
plist_swap p a b = elim (get_elem? p.items a) [
  | none ↦ none
  | some x ↦ elim (get_elem? p.items b) [
    | none ↦ none
    | some y ↦ if a == b then some p else some (record p { items = set (set p.items a y) b x })
  ]
]

-- `plist_clear`
unfoldable pub plist_clear : Plist → Plist
plist_clear p = record p {
  items = [];
  allocated = init_size;
  not_deleted = pos 0;
  total_time = pos 0;
  items_with_time = pos 0;
}

-- The part of `plist_add` that is not about the search tree: room for one more item, and the item.
module _ (w : World) where
  abbrev pub new_item : Option Str → PlistItem
  new_item file_name = record {
    file = file_name;
    kind = elim file_name [ none ↦ f_other | some f ↦ file_type w f ];
    title_file = none;
    title_tags = none;
    tags = none;
    deleted = false;
    mtime = elim file_name [ none ↦ minus_one | some f ↦ get_mtime w f ];
    queue_pos = pos 0;
  }

  unfoldable pub plist_append : Plist → Option Str → Plist
  plist_append p file_name = record p {
    allocated = if p.allocated == num p then p.allocated + p.allocated else p.allocated;
    items = p.items ++ (new_item file_name ∷ []);
    not_deleted = p.not_deleted +ℤ pos 1;
  }

-- `plist_item_copy`: every field is given anew.
unfoldable pub plist_item_copy : PlistItem → PlistItem → PlistItem
plist_item_copy dst src = record dst {
  file = src.file;
  kind = src.kind;
  title_file = src.title_file;
  title_tags = src.title_tags;
  mtime = src.mtime;
  queue_pos = src.queue_pos;
  tags = elim src.tags [ none ↦ none | some t ↦ some (tags_dup t) ];
  deleted = src.deleted;
}
