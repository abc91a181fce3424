-- ===== src/Playlist/Edit.antt =====
-- The functions of playlist.c that change items, and the counters of the playlist.
use mocp.Prelude.{
  ℕ, zero, suc, ◌≡◌, refl, ap, ap₂, ◌∙◌, sym, true, false, List, [], ◌∷◌, Option, none, some, leb,
  if◌then◌else◌, length, length-append, get_elem?, get_elem?-set_self, lt_of_get_elem?, arith,
}
use mocp.Prelude.Int.{ℤ, pos, pos_part, ◌+ℤ◌, ◌≤ℤ◌, int_laws, parts_of_eq}
use mocp.Bytes.{Str}
use mocp.Tags.{FileTags, tags_dup, set_flag, tags_time}
use mocp.Files.{World}
use mocp.Item.{PlistItem}
use mocp.Playlist.{
  Plist, tags_seconds, add_time, sub_time, plist_init, plist_delete, plist_set_item_time,
  plist_set_tags, get_item_time, plist_count, retag, mark_deleted, or_new, plist_discard_tags,
  discard_tags, plist_clear, plist_append, new_item,
}
use mocp.Playlist.Totals.{
  IsCounted, AllStripped, IsStripped, AllStripped-append, sum, sum-append, live, timed, seconds,
  one_if_set, time_if_set, Shares, add_time_lem, sub_time_lem, replace-IsCounted,
}

-- the item at index n, which is not deleted
record LiveAt (p : Plist) (n : ℕ) (item : PlistItem) : Type 0 where
  at : get_elem? p.items n ≡ some item
  kept : item.deleted ≡ false

live_nonneg : (x : PlistItem) → pos 0 ≤ℤ live x
live_nonneg x = ground arith

sum-live_nonneg : (xs : List PlistItem) → pos 0 ≤ℤ sum live xs
unfolding sum
sum-live_nonneg [] = omega arith
sum-live_nonneg (x ∷ xs) = omega (int_laws, live_nonneg x, sum-live_nonneg xs)

-- An item that is not deleted is counted.
sum-live_pos :
    (xs : List PlistItem) (n : ℕ) (item : PlistItem)
    → get_elem? xs n ≡ some item
    → item.deleted ≡ false
    → pos 1 ≤ℤ sum live xs
unfolding sum
sum-live_pos [] n item e k = cc
sum-live_pos (x ∷ xs) zero item e k =
    let one : live x ≡ pos 1 = ground arith in omega (int_laws, parts_of_eq one, sum-live_nonneg xs)
sum-live_pos (x ∷ xs) (suc n) item e k = omega (int_laws, live_nonneg x, sum-live_pos xs n item e k)

-- the time of an item taken out of the sums, and another put in
retime :
    (p : Plist) (t u : ℤ)
    → let q = add_time (sub_time p t) u in
      (q.items_with_time +ℤ one_if_set t ≡ p.items_with_time +ℤ one_if_set u)
      × (q.total_time +ℤ time_if_set t ≡ p.total_time +ℤ time_if_set u)
      × Shares p q
retime p t u =
    let a = sub_time_lem p t in
    let b = add_time_lem (sub_time p t) u in
    (
      omega (int_laws, parts_of_eq a.0, parts_of_eq b.0),
      omega (int_laws, parts_of_eq a.1, parts_of_eq b.1),
      record {
        items = b.2.items ∙ a.2.items;
        allocated = b.2.allocated ∙ a.2.allocated;
        not_deleted = b.2.not_deleted ∙ a.2.not_deleted;
      },
    )

retag-IsCounted :
    (p : Plist) (n : ℕ) (item : PlistItem) (tags : FileTags)
    → IsCounted p
    → get_elem? p.items n ≡ some item
    → item.deleted ≡ false
    → IsCounted (retag p n item tags)
retag-IsCounted p n item tags c e k =
    let r = retime p (tags_seconds item.tags) tags.time in
    replace-IsCounted p (retag p n item tags) n item (record item { tags = some tags }) c e
      (λ d. cc) refl r.2.allocated (ap (λ x. x +ℤ live item) r.2.not_deleted) r.0 r.1

-- `plist_set_item_time` on an item that is not deleted keeps the counters of the playlist right, and
-- `get_item_time` then returns the time that was set.
pub set_item_time-IsCounted :
    (p : Plist) (n : ℕ) (time : ℤ) (item : PlistItem)
    → IsCounted p
    → get_elem? p.items n ≡ some item
    → item.deleted ≡ false
    → (q : Plist) × (plist_set_item_time p n time ≡ some q)
      × IsCounted q
      × (get_item_time q n ≡ time)
unfolding plist_set_item_time get_item_time
set_item_time-IsCounted p n time item c e k =
    let t = or_new item.tags in
    let t' : FileTags = record t { time = time; filled = set_flag t.filled tags_time } in
    (
      retag p n item t',
      rw (e, plist_set_item_time) refl,
      retag-IsCounted p n item t' c e k,
      rw
          (
            get_elem?-set_self p.items n (record item { tags = some t' })
                (lt_of_get_elem? p.items n item e),
            get_item_time,
          )
          refl,
    )

-- `plist_set_tags` on an item that is not deleted keeps the counters right, and `get_item_time` then
-- returns the time of the new tags.
pub set_tags-IsCounted :
    (p : Plist) (n : ℕ) (tags : FileTags) (item : PlistItem)
    → IsCounted p
    → get_elem? p.items n ≡ some item
    → item.deleted ≡ false
    → (q : Plist) × (plist_set_tags p n tags ≡ some q)
      × IsCounted q
      × (get_item_time q n ≡ tags.time)
unfolding plist_set_tags get_item_time tags_dup
set_tags-IsCounted p n tags item c e k = (
  retag p n item (tags_dup tags),
  rw (e, plist_set_tags) refl,
  retag-IsCounted p n item (tags_dup tags) c e k,
  rw
      (
        get_elem?-set_self p.items n (record item { tags = some (tags_dup tags) })
            (lt_of_get_elem? p.items n item e),
        get_item_time,
      )
      refl,
)

-- `plist_delete` of an item that is not deleted passes both of its assertions and keeps the counters
-- right; `plist_count` falls by one.
pub delete-IsCounted :
    (p : Plist) (n : ℕ) (item : PlistItem)
    → IsCounted p
    → get_elem? p.items n ≡ some item
    → item.deleted ≡ false
    → (q : Plist) × (plist_delete p n ≡ some q)
      × IsCounted q
      × (plist_count q +ℤ pos 1 ≡ plist_count p)
unfolding plist_delete plist_count
delete-IsCounted p n item c e k =
    let new : PlistItem = record item {
      title_file = none;
      title_tags = none;
      tags = none;
      deleted = true;
    } in
    let r = sub_time_lem p (tags_seconds item.tags) in
    let one : live item ≡ pos 1 = ground arith in
    let some_left : pos 1 ≤ℤ p.not_deleted =
      omega (int_laws, sum-live_pos p.items n item e k, parts_of_eq c.counted) in
    let ok : leb (pos_part p.not_deleted) 0 ≡ false = ground (arith, some_left) in
    (
      mark_deleted p n item,
      rw (e, k, ok, plist_delete) refl,
      replace-IsCounted p (mark_deleted p n item) n item new c e (λ d. refl) refl r.2.allocated
          (omega (int_laws, parts_of_eq one)) (omega (int_laws, parts_of_eq r.0))
          (omega (int_laws, parts_of_eq r.1)),
      omega int_laws,
    )

-- An item appended by `plist_add` is counted, and the array has room for it.
pub append-IsCounted :
    (w : World) (p : Plist) (file : Option Str) → IsCounted p → IsCounted (plist_append w p file)
unfolding plist_append sum
append-IsCounted w p file c = record {
  room = ground (arith, length-append p.items (new_item w file ∷ []), c.room, c.some_room);
  some_room = ground (arith, c.some_room);
  counted = omega (
    int_laws,
    parts_of_eq c.counted,
    parts_of_eq (sum-append live p.items (new_item w file ∷ [])),
  );
  with_time = omega (
    int_laws,
    parts_of_eq c.with_time,
    parts_of_eq (sum-append timed p.items (new_item w file ∷ [])),
  );
  total = omega (
    int_laws,
    parts_of_eq c.total,
    parts_of_eq (sum-append seconds p.items (new_item w file ∷ [])),
  );
  stripped = AllStripped-append p.items (new_item w file ∷ []) c.stripped ((λ d. refl), tt);
}

pub init-IsCounted : IsCounted plist_init
unfolding plist_init sum
init-IsCounted = record {
  room = omega arith;
  some_room = omega arith;
  counted = refl;
  with_time = refl;
  total = refl;
  stripped = tt;
}

pub clear-IsCounted : (p : Plist) → IsCounted (plist_clear p)
unfolding plist_clear sum
clear-IsCounted p = record {
  room = omega arith;
  some_room = omega arith;
  counted = refl;
  with_time = refl;
  total = refl;
  stripped = tt;
}

-- an item after the loop of `plist_discard_tags` has passed it
abbrev untagged : PlistItem → PlistItem
untagged x = if x.deleted then x else record x { tags = none }

untagged_lem :
    (x : PlistItem) → IsStripped x → ((untagged x).deleted ≡ x.deleted) × ((untagged x).tags ≡ none)
untagged_lem x h = (ground arith, ground arith)

zero_plus : pos 0 +ℤ pos 0 ≡ pos 0
unfolding ◌+ℤ◌
zero_plus = refl

discard_sums :
    (xs : List PlistItem)
    → AllStripped xs
    → (length (discard_tags xs) ≡ length xs)
      × (sum live (discard_tags xs) ≡ sum live xs)
      × (sum timed (discard_tags xs) ≡ pos 0)
      × (sum seconds (discard_tags xs) ≡ pos 0)
      × AllStripped (discard_tags xs)
unfolding discard_tags sum
discard_sums [] h = (refl, refl, refl, refl, tt)
discard_sums (x ∷ xs) h =
    let r = discard_sums xs h.1 in
    let (gone, bare) = untagged_lem x h.0 in
    let t : timed (untagged x) ≡ pos 0 = rw bare refl in
    let s : seconds (untagged x) ≡ pos 0 = rw bare refl in
    (
      ap suc r.0,
      ap₂ ◌+ℤ◌ (rw gone refl) r.1,
      ap₂ ◌+ℤ◌ t r.2 ∙ zero_plus,
      ap₂ ◌+ℤ◌ s r.3 ∙ zero_plus,
      ((λ d. bare), r.4),
    )

-- `plist_discard_tags` keeps the counters right.
pub discard_tags-IsCounted : (p : Plist) → IsCounted p → IsCounted (plist_discard_tags p)
unfolding plist_discard_tags
discard_tags-IsCounted p c =
    let r = discard_sums p.items c.stripped in
    record {
      room = omega (arith, r.0, c.room);
      some_room = c.some_room;
      counted = c.counted ∙ sym r.1;
      with_time = sym r.2;
      total = sym r.3;
      stripped = r.4;
    }
