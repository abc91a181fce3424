-- ===== src/Tags/Tests.antt =====
-- `tags_update` at a file whose time alone has been read.
use mocp.Prelude.{◌≡◌, true, none, some, [], ◌∷◌, arith}
use mocp.Prelude.Int.{pos, negsuc}
use mocp.Tags.{FileTags, tags_update}
use mocp.Tags.Update.{MayUpdate, Updated, tags_update_lem}

abbrev timed : FileTags
timed = record {
  title = none;
  artist = none;
  album = none;
  track = negsuc 0;
  time = pos 200;
  rating = negsuc 0;
  filled = pos 2;
}

abbrev full : FileTags
full = record {
  title = some (65 ∷ []);
  artist = none;
  album = none;
  track = pos 4;
  time = pos 199;
  rating = pos 5;
  filled = pos 7;
}

may_update : MayUpdate timed full
may_update h = ground arith

tags_update_lem_example :
    (r : FileTags × FileTags) × (tags_update timed full true ≡ some r) × Updated timed full true r
tags_update_lem_example = tags_update_lem timed full true (omega arith) (omega arith) may_update
