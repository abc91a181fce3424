-- ===== src/Playlist/Tests.antt =====
-- A playlist of three items, the second deleted, the third with a time.
use mocp.Prelude.{refl, [], ◌∷◌, none, some, true, false, arith}
use mocp.Prelude.Int.{pos, negsuc, ◌+ℤ◌}
use mocp.Tags.{FileTags}
use mocp.Files.{World, f_sound, f_other, file_type, get_mtime, is_url, prefix_nocase, chars}
use mocp.Item.{PlistItem}
use mocp.Playlist.{
  Plist, minus_one, plist_init, plist_append, plist_delete, plist_next, mark_deleted,
}
use mocp.Playlist.Totals.{IsCounted, sum}
use mocp.Playlist.Walk.{FirstFrom, plist_next-FirstFrom}
use mocp.Playlist.Reach.{Reach, append, delete, here, next, Reach-IsCounted}

abbrev two_hundred : FileTags
two_hundred = record {
  title = none;
  artist = none;
  album = none;
  track = negsuc 0;
  time = pos 200;
  rating = negsuc 0;
  filled = pos 2;
}

abbrev bare : PlistItem
bare = record {
  file = some (chars "/a.ogg");
  kind = f_sound;
  title_file = none;
  title_tags = none;
  tags = none;
  deleted = false;
  mtime = pos 1;
  queue_pos = pos 0;
}

abbrev gone : PlistItem
gone = record bare { deleted = true }

abbrev with_time : PlistItem
with_time = record bare { tags = some two_hundred }

abbrev three : Plist
three = record {
  items = bare ∷ gone ∷ with_time ∷ [];
  allocated = 64;
  not_deleted = pos 2;
  serial = minus_one;
  total_time = pos 200;
  items_with_time = pos 1;
}

three-IsCounted : IsCounted three
unfolding sum ◌+ℤ◌
three-IsCounted = record {
  room = omega arith;
  some_room = omega arith;
  counted = refl;
  with_time = refl;
  total = refl;
  stripped = ((λ d. refl), ((λ d. refl), ((λ d. ground arith), tt)));
}

plist_next-FirstFrom_example : FirstFrom three.items 1 (plist_next three (pos 0))
plist_next-FirstFrom_example = plist_next-FirstFrom three (pos 0)

abbrev no_files : World
no_files = record { stat = λ f. none; is_sound_file = λ f. false }

abbrev one : Plist
one = plist_append no_files plist_init (some (chars "/a.ogg"))

abbrev other : PlistItem
other = record {
  file = some (chars "/a.ogg");
  kind = f_other;
  title_file = none;
  title_tags = none;
  tags = none;
  deleted = false;
  mtime = minus_one;
  queue_pos = pos 0;
}

abbrev last : Plist
last = mark_deleted one 0 other

last-Reach : Reach no_files plist_init last
unfolding plist_append plist_init plist_delete is_url prefix_nocase file_type get_mtime ◌+ℤ◌
last-Reach = next (next here (append (some (chars "/a.ogg")))) (delete 0 other last refl refl)

Reach-IsCounted_example : IsCounted last
Reach-IsCounted_example = Reach-IsCounted no_files last last-Reach
