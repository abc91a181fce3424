-- ===== src/TagsCache/Record/Fields.antt =====
-- tags_cache.c: the fields of a record, written by `cache_record_serialize` and read by
-- `cache_record_deserialize`.
use mocp.Prelude.{
  refl, true, ℕ, ◌+◌, ◌^◌, ◌≤◌, ◌<◌, ◌≡◌, sym, subst, false, Option, none, some, [], length, arith,
}
use mocp.Prelude.Int.{ℤ, pos, negsuc, ltb_ℤ, ◌+ℤ◌}
use mocp.Bytes.{
  Str, IsWord, IsString, c_string-eq, word, of_le_bytes, int_bytes, bytes_int, time_bytes,
  bytes_time, bytes_int-int_bytes, bytes_time-time_bytes, length-int_bytes, length-time_bytes,
  length-le_bytes, sizeof_int, sizeof_time, of_le_bytes-le_bytes,
}
use mocp.Tags.{FileTags, tags_new, set_flag, has_flag}
use mocp.Protocol.Packet.{or_empty}
use mocp.TagsCache.Record.{
  CacheRecord, serialize_str, serialize_tags, char_byte, char_value, cache_record_serialize,
  extract_num, extract_str, extract_tags, extract_rest, extract_record, fill_comments, fill_time,
}
use mocp.TagsCache.Record.Cut.{Cut, bind-Cut, map-Cut, extract_num-Cut, extract_str-Cut}

-- Tags whose strings are C strings, and whose numbers fit their types.
pub record CanStore (t : FileTags) : Type 0 where
  pub title : IsString (or_empty t.title)
  pub artist : IsString (or_empty t.artist)
  pub album : IsString (or_empty t.album)
  pub track : IsWord 32 t.track
  pub time : IsWord 32 t.time
  pub rating : IsWord 8 t.rating

-- Each string of the tags is no longer than m bytes.
pub record Fits (m : ℕ) (t : FileTags) : Type 0 where
  pub title : length (or_empty t.title) ≤ m
  pub artist : length (or_empty t.artist) ≤ m
  pub album : length (or_empty t.album) ≤ m

-- The flags of tags that come back: 1, the comments, always, and 2, the time, unless it is negative.
abbrev pub filled_again : ℤ → ℤ
filled_again (pos n) = pos 3
filled_again (negsuc n) = pos 1

-- The tags that come back: a string that was NULL is empty, and `filled` is made anew.
abbrev pub restored : FileTags → FileTags
restored t = record {
  title = some (or_empty t.title);
  artist = some (or_empty t.artist);
  album = some (or_empty t.album);
  track = t.track;
  time = t.time;
  filled = filled_again t.time;
  rating = t.rating;
}

-- the flags that the code sets are these
filled-restored :
    (t : FileTags)
    → fill_time (
        fill_comments (record tags_new {
          artist = some (or_empty t.artist);
          album = some (or_empty t.album);
          title = some (or_empty t.title);
          track = t.track;
          time = t.time;
          rating = t.rating;
        }))
      ≡ restored t
unfolding fill_time fill_comments set_flag has_flag tags_new ◌+ℤ◌
filled-restored t = go t.time
  where
    go :
        (time : ℤ)
        → fill_time (
            fill_comments (record tags_new {
              artist = some (or_empty t.artist);
              album = some (or_empty t.album);
              title = some (or_empty t.title);
              track = t.track;
              time = time;
              rating = t.rating;
            }))
          ≡ restored (record t { time = time })
    go (pos n) = let late : ltb_ℤ (pos n) (pos 0) ≡ false = ground arith in rw late refl
    go (negsuc n) = let early : ltb_ℤ (negsuc n) (pos 0) ≡ true = ground arith in rw early refl

serialize_str-Cut :
    (s : Option Str) (m : ℕ)
    → m < 2 ^ 64
    → 8 ≤ m
    → IsString (or_empty s)
    → length (or_empty s) ≤ m
    → Cut extract_str (serialize_str s) (or_empty s) 0 m
serialize_str-Cut none m b h c f =
    subst (λ a. Cut extract_str (serialize_str none) a 0 m) (c_string-eq [] tt)
      (extract_str-Cut [] m (omega arith) h (omega arith))
serialize_str-Cut (some s) m b h c f =
    subst (λ a. Cut extract_str (serialize_str (some s)) a 0 m) (c_string-eq s c)
      (extract_str-Cut s m (omega (arith, f)) h f)

int-Cut : (n : ℤ) → IsWord 32 n → Cut (extract_num sizeof_int bytes_int) (int_bytes n) n 4 4
int-Cut n w =
    subst (λ a. Cut (extract_num sizeof_int bytes_int) (int_bytes n) a 4 4)
      (bytes_int-int_bytes n w)
      (extract_num-Cut 4 bytes_int (int_bytes n) (sym (length-int_bytes n)))

time-Cut : (n : ℤ) → IsWord 64 n → Cut (extract_num sizeof_time bytes_time) (time_bytes n) n 8 8
time-Cut n w =
    subst (λ a. Cut (extract_num sizeof_time bytes_time) (time_bytes n) a 8 8)
      (bytes_time-time_bytes n w)
      (extract_num-Cut 8 bytes_time (time_bytes n) (sym (length-time_bytes n)))

char_value-char_byte : (n : ℤ) → IsWord 8 n → char_value (char_byte n) ≡ n
unfolding of_le_bytes
char_value-char_byte (pos n) w = ground (arith, of_le_bytes-le_bytes 1 (word 8 (pos n)))
char_value-char_byte (negsuc n) w = ground (arith, of_le_bytes-le_bytes 1 (word 8 (negsuc n)))

char-Cut : (n : ℤ) → IsWord 8 n → Cut (extract_num 1 char_value) (char_byte n) n 1 1
char-Cut n w =
    subst (λ a. Cut (extract_num 1 char_value) (char_byte n) a 1 1) (char_value-char_byte n w)
      (extract_num-Cut 1 char_value (char_byte n) (sym (length-le_bytes 1 (word 8 n))))

extract_tags-Cut :
    (t : FileTags) (m : ℕ)
    → m < 2 ^ 64
    → 9 ≤ m
    → CanStore t
    → Fits m t
    → Cut extract_tags (serialize_tags t) (restored t) 9 m
unfolding extract_tags serialize_tags
extract_tags-Cut t m b h s f =
    subst (λ a. Cut extract_tags (serialize_tags t) a 9 m) (filled-restored t)
      (bind-Cut _ _ (serialize_str t.artist) _ _ _ 0 9 m m m
        (serialize_str-Cut t.artist m b (omega arith) s.artist f.artist)
        (bind-Cut _ _ (serialize_str t.album) _ _ _ 0 9 m m m
          (serialize_str-Cut t.album m b (omega arith) s.album f.album)
          (bind-Cut _ _ (serialize_str t.title) _ _ _ 0 9 m m m
            (serialize_str-Cut t.title m b (omega arith) s.title f.title)
            (bind-Cut _ _ (int_bytes t.track) _ _ _ 4 5 4 5 m (int-Cut t.track s.track)
              (bind-Cut _ _ (int_bytes t.time) _ _ _ 4 1 4 1 5 (int-Cut t.time s.time)
                (map-Cut _ _ (char_byte t.rating) _ 1 1 (omega arith) (char-Cut t.rating s.rating))
                (omega arith) (omega arith))
              (omega arith) (omega arith))
            (omega arith) (omega arith))
          (omega arith) (omega arith))
        (omega arith) (omega arith))

-- the record that comes back
abbrev pub restored_record : ℤ → ℤ → FileTags → CacheRecord
restored_record mod_time atime t = record {
  mod_time = mod_time;
  atime = atime;
  tags = some (restored t);
}

pub extract_record-Cut :
    (mod_time atime : ℤ) (t : FileTags) (m : ℕ)
    → IsWord 64 mod_time
    → IsWord 64 atime
    → CanStore t
    → m < 2 ^ 64
    → 9 ≤ m
    → Fits m t
    → Cut
        (extract_record false)
        (cache_record_serialize mod_time atime t)
        (restored_record mod_time atime t)
        25
        (m + 16)
unfolding extract_record extract_rest cache_record_serialize
extract_record-Cut mod_time atime t m wm wa s b h f =
    bind-Cut _ _ (time_bytes mod_time) _ _ _ 8 17 8 (m + 8) (m + 16) (time-Cut mod_time wm)
      (bind-Cut _ _ (time_bytes atime) _ _ _ 8 9 8 m (m + 8) (time-Cut atime wa)
        (map-Cut _ _ (serialize_tags t) _ 9 m h (extract_tags-Cut t m b h s f)) (omega arith)
        (omega arith))
      (omega arith) (omega arith)
