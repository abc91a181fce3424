-- ===== src/Tags.antt =====
-- `struct file_tags` of playlist.h and the functions tags_* of playlist.c.
-- A `char *` is an optional string, `none` for NULL. A function that asserts returns `none` where the
-- assertion fails.
pub mod Update
mod Tests
use mocp.Prelude.{
  ℕ, ◌+◌, ◌/◌, ◌%◌, ◌^◌, Bool, true, false, not, ◌&&◌, Option, none, some, ◌==◌, if◌then◌else◌,
}
use mocp.Prelude.Int.{ℤ, pos, negsuc, ◌+ℤ◌, ◌-ℤ◌}
use mocp.Bytes.{Str, word}

pub record FileTags : Type 0 where
  pub title : Option Str
  pub artist : Option Str
  pub album : Option Str
  pub track : ℤ
  pub time : ℤ
  pub rating : ℤ
  pub filled : ℤ

-- `enum tags_select`, by the number of the bit
abbrev pub tags_comments : ℕ
tags_comments = 0

abbrev pub tags_time : ℕ
tags_time = 1

abbrev pub tags_rating : ℕ
tags_rating = 2

-- `filled & (1 << k)`
unfoldable pub has_flag : ℤ → ℕ → Bool
has_flag f k = word 32 f / 2 ^ k % 2 == 1

-- `filled |= 1 << k`
unfoldable pub set_flag : ℤ → ℕ → ℤ
set_flag f k = if has_flag f k then f else f +ℤ pos (2 ^ k)

-- `filled &= ~(1 << k)`
unfoldable pub clear_flag : ℤ → ℕ → ℤ
clear_flag f k = if has_flag f k then f -ℤ pos (2 ^ k) else f

unfoldable pub tags_new : FileTags
tags_new = record {
  title = none;
  artist = none;
  album = none;
  track = negsuc 0;
  time = negsuc 0;
  rating = negsuc 0;
  filled = pos 0;
}

unfoldable pub tags_clear : FileTags → FileTags
tags_clear t = record t {
  title = none;
  artist = none;
  album = none;
  track = negsuc 0;
  time = negsuc 0;
  rating = negsuc 0;
  filled = pos 0;
}

-- Every field of `dst` is given anew.
unfoldable pub tags_copy : FileTags → FileTags → FileTags
tags_copy dst src = record dst {
  title = src.title;
  artist = src.artist;
  album = src.album;
  track = src.track;
  time = src.time;
  rating = src.rating;
  filled = src.filled;
}

unfoldable pub tags_dup : FileTags → FileTags
unfolding tags_copy tags_new
tags_dup t = tags_copy tags_new t

abbrev pub is_null : {A : Type 0} → Option A → Bool
is_null none = true
is_null (some a) = false

-- The three parts of `tags_update`, each of `dst` and `src`.
update_comments : Bool → FileTags → FileTags → Option (FileTags × FileTags)
update_comments move dst src =
    if not (has_flag dst.filled tags_comments) && has_flag src.filled tags_comments
    then if is_null dst.title && (is_null dst.artist && is_null dst.album)
      then some (
        record dst {
          title = src.title;
          artist = src.artist;
          album = src.album;
          track = src.track;
          filled = set_flag dst.filled tags_comments;
        },
        if move
            then record src {
              title = none;
              artist = none;
              album = none;
              filled = clear_flag src.filled tags_comments;
            }
            else src,
      )
      else none
    else some (dst, src)

update_time : FileTags → FileTags → FileTags
update_time dst src =
    if not (has_flag dst.filled tags_time) && has_flag src.filled tags_time
    then record dst { time = src.time; filled = set_flag dst.filled tags_time }
    else dst

update_rating : FileTags → FileTags → FileTags
update_rating dst src =
    if not (has_flag dst.filled tags_rating) && has_flag src.filled tags_rating
    then record dst { rating = src.rating; filled = set_flag dst.filled tags_rating }
    else dst

unfoldable pub tags_update : FileTags → FileTags → Bool → Option (FileTags × FileTags)
unfolding update_comments update_time update_rating
tags_update dst src move = elim (update_comments move dst src) [
  | none ↦ none
  | some (d, s) ↦ some (update_rating (update_time d s) s, s)
]
