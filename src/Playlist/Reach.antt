-- ===== src/Playlist/Reach.antt =====
-- Sequences of changes of a playlist (playlist.c), and its counters.
use mocp.Prelude.{ℕ, ◌≡◌, subst, false, Option, some, get_elem?, arith}
use mocp.Prelude.Int.{ℤ}
use mocp.Bytes.{Str}
use mocp.Tags.{FileTags}
use mocp.Files.{World}
use mocp.Item.{PlistItem}
use mocp.Playlist.{
  Plist, plist_init, plist_delete, plist_set_item_time, plist_set_tags, plist_discard_tags,
  plist_clear, plist_append,
}
use mocp.Playlist.Totals.{IsCounted}
use mocp.Playlist.Edit.{
  set_item_time-IsCounted, set_tags-IsCounted, delete-IsCounted, append-IsCounted, init-IsCounted,
  clear-IsCounted, discard_tags-IsCounted,
}

-- one change of a list by its owner, at an item that is there and not deleted
pub data Step (w : World) (p : Plist) : Plist → Type 0 where
  append : (file : Option Str) → Step w p (plist_append w p file)
  delete :
      (n : ℕ) (item : PlistItem) (q : Plist)
      → get_elem? p.items n ≡ some item
      → plist_delete p n ≡ some q
      → Step w p q
  set_time :
      (n : ℕ) (time : ℤ) (item : PlistItem) (q : Plist)
      → get_elem? p.items n ≡ some item
      → item.deleted ≡ false
      → plist_set_item_time p n time ≡ some q
      → Step w p q
  set_tags :
      (n : ℕ) (tags : FileTags) (item : PlistItem) (q : Plist)
      → get_elem? p.items n ≡ some item
      → item.deleted ≡ false
      → plist_set_tags p n tags ≡ some q
      → Step w p q
  discards : Step w p (plist_discard_tags p)
  clear : Step w p (plist_clear p)

pub data Reach (w : World) (p : Plist) : Plist → Type 0 where
  here : Reach w p p
  next : {q r : Plist} → Reach w p q → Step w q r → Reach w p r

some_same : {p q : Plist} {o : Option Plist} → o ≡ some p → o ≡ some q → IsCounted p → IsCounted q
some_same e f c = subst IsCounted (cc) c

delete-kept :
    (p q : Plist) (n : ℕ) (item : PlistItem)
    → get_elem? p.items n ≡ some item
    → plist_delete p n ≡ some q
    → item.deleted ≡ false
unfolding plist_delete
delete-kept p q n item e r = ground arith

Step-IsCounted : {w : World} {p q : Plist} → Step w p q → IsCounted p → IsCounted q
Step-IsCounted {w} {p} (append file) c = append-IsCounted w p file c
Step-IsCounted {p = p} (delete n item q e r) c =
    let d = delete-IsCounted p n item c e (delete-kept p q n item e r) in some_same d.1 r d.2
Step-IsCounted {p = p} (set_time n time item q e k r) c =
    let d = set_item_time-IsCounted p n time item c e k in some_same d.1 r d.2
Step-IsCounted {p = p} (set_tags n tags item q e k r) c =
    let d = set_tags-IsCounted p n tags item c e k in some_same d.1 r d.2
Step-IsCounted {p = p} discards c = discard_tags-IsCounted p c
Step-IsCounted {p = p} clear c = clear-IsCounted p

-- From a new playlist on, whatever items are appended and deleted, whatever tags or times are
-- given to items that are not deleted, and whenever the tags are discarded or the list cleared:
-- the counters are those of the items, the array has room for the items, and a deleted item has no
-- tags.
pub Reach-IsCounted : (w : World) (p : Plist) → Reach w plist_init p → IsCounted p
Reach-IsCounted w p here = init-IsCounted
Reach-IsCounted w p (next {q} r st) = Step-IsCounted st (Reach-IsCounted w q r)
