-- ===== src/TagsCache/Record.antt =====
-- tags_cache.c: the records of the tags database, as bytes.
pub mod Cut
pub mod Fields
pub mod Times
pub mod RoundTrip
use mocp.Prelude.{
  ℕ, ◌+◌, ◌-◌, ◌≡◌, Bool, true, false, Option, none, some, List, [], ◌∷◌, ◌++◌, length, take, drop,
  ltb, ◌==◌, if◌then◌else◌,
}
use mocp.Prelude.Int.{ℤ, pos, ltb_ℤ}
use mocp.Bytes.{
  Str, word, of_word, le_bytes, of_le_bytes, int_bytes, bytes_int, time_bytes, bytes_time, c_string,
  sizeof_int, sizeof_time,
}
use mocp.Tags.{FileTags, tags_new, tags_comments, tags_time, set_flag}
use mocp.Protocol.Packet.{or_empty}

-- `struct cache_record`; `tags` may be NULL.
pub record CacheRecord : Type 0 where
  pub mod_time : ℤ
  pub atime : ℤ
  pub tags : Option FileTags

-- `sizeof (size_t)`
abbrev pub sizeof_size : ℕ
sizeof_size = 8

abbrev pub strlen_null : Option Str → ℕ
strlen_null none = 0
strlen_null (some s) = length s

-- a length and the string behind it
abbrev pub serialize_str : Option Str → List ℕ
serialize_str s = le_bytes sizeof_size (strlen_null s) ++ or_empty s

-- `(char) rating`
abbrev pub char_byte : ℤ → List ℕ
char_byte n = le_bytes 1 (word 8 n)

-- the tags of a record
unfoldable pub serialize_tags : FileTags → List ℕ
serialize_tags t =
    serialize_str t.artist
    ++ (serialize_str t.album
        ++ (serialize_str t.title
            ++ (int_bytes t.track ++ (int_bytes t.time ++ char_byte t.rating))))

unfoldable pub cache_record_serialize : ℤ → ℤ → FileTags → List ℕ
cache_record_serialize mod_time atime t =
    time_bytes mod_time ++ (time_bytes atime ++ serialize_tags t)

-- `p`, as the bytes from there to the end of the record, and `bytes_left`
pub record Cursor : Type 0 where
  pub rest : List ℕ
  pub bytes_left : ℕ

-- a value, the jump to `err`, or a read behind the end of the record
pub data Reading {ℓ} (A : Type ℓ) : Type ℓ where
  ok : A → Reading A
  err : Reading A
  overruns : Reading A

abbrev pub Extract : Type 0 → Type 0
Extract A = Cursor → Reading (A × Cursor)

-- what follows a read, by how it ended
abbrev pub then_do : {A B : Type 0} → Reading (A × Cursor) → (A → Extract B) → Reading (B × Cursor)
then_do (ok s) f = f s.0 s.1
then_do err f = err
then_do overruns f = overruns

infixl 5 ◌>>=◌
unfoldable pub ◌>>=◌ : {A B : Type 0} → Extract A → (A → Extract B) → Extract B
(p >>= f) c = then_do (p c) f

unfoldable pub pure : {A : Type 0} → A → Extract A
pure a c = ok (a, c)

-- memcpy of n bytes from `p`, which moves behind them
abbrev pub copy : {A : Type 0} → List ℕ → ℕ → (List ℕ → List ℕ → Reading A) → Reading A
copy rest n f = if ltb (length rest) n then overruns else f (take n rest) (drop n rest)

-- `extract_num`, for a variable of n bytes
unfoldable pub extract_num : {A : Type 0} → ℕ → (List ℕ → A) → Extract A
extract_num n value c =
    if ltb c.bytes_left n
    then err
    else copy c.rest n
        λ bytes rest. ok (value bytes, record { rest = rest; bytes_left = c.bytes_left - n })

-- the string of a length that has been read
unfoldable pub extract_chars : ℕ → Extract Str
extract_chars str_len c =
    if ltb c.bytes_left str_len
    then err
    else copy c.rest str_len
        λ bytes rest. ok (c_string bytes, record { rest = rest; bytes_left = c.bytes_left })

-- `extract_str`, which does not take the bytes that it reads off `bytes_left`
unfoldable pub extract_str : Extract Str
extract_str c =
    if ltb c.bytes_left sizeof_size
    then err
    else copy c.rest sizeof_size λ bytes rest.
      extract_chars (of_le_bytes bytes) (record { rest = rest; bytes_left = c.bytes_left })

-- `rating = *p++`, a signed char
abbrev pub char_value : List ℕ → ℤ
char_value bytes = of_word 8 (of_le_bytes bytes)

-- what follows the last field: `filled`
unfoldable pub fill_comments : FileTags → FileTags
fill_comments t = elim t.title [
  | none ↦ record t { artist = none; album = none }
  | some s ↦ record t { filled = set_flag t.filled tags_comments }
]

unfoldable pub fill_time : FileTags → FileTags
fill_time t = if ltb_ℤ t.time (pos 0) then t else record t { filled = set_flag t.filled tags_time }

unfoldable pub extract_tags : Extract FileTags
extract_tags = do
  artist ← extract_str
  album ← extract_str
  title ← extract_str
  track ← extract_num sizeof_int bytes_int
  time ← extract_num sizeof_int bytes_int
  rating ← extract_num 1 char_value
  pure (
      fill_time (
        fill_comments (record tags_new {
          artist = some artist;
          album = some album;
          title = some title;
          track = track;
          time = time;
          rating = rating;
        })))

-- the part behind the times, which is left out if `skip_tags`
unfoldable pub extract_rest : Bool → ℤ → ℤ → Extract CacheRecord
extract_rest true mod_time atime = pure (record { mod_time = mod_time; atime = atime; tags = none })
extract_rest false mod_time atime = do
  tags ← extract_tags
  pure (record { mod_time = mod_time; atime = atime; tags = some tags })

unfoldable pub extract_record : Bool → Extract CacheRecord
extract_record skip_tags = do
  mod_time ← extract_num sizeof_time bytes_time
  atime ← extract_num sizeof_time bytes_time
  extract_rest skip_tags mod_time atime

-- How `cache_record_deserialize` ends: with 1, with 0, at the assertion of `tags_free` for tags that are
-- NULL, or with a read behind the end.
pub data Deserialized : Type 0 where
  accepted : CacheRecord → Deserialized
  rejected : Deserialized
  aborted : Deserialized
  overrun : Deserialized

abbrev pub ends_with : Bool → Reading (CacheRecord × Cursor) → Deserialized
ends_with skip_tags (ok s) = accepted s.0
ends_with skip_tags err = if skip_tags then aborted else rejected
ends_with skip_tags overruns = overrun

unfoldable pub cache_record_deserialize : List ℕ → Bool → Deserialized
cache_record_deserialize serialized skip_tags =
    ends_with skip_tags
      (extract_record skip_tags (record { rest = serialized; bytes_left = length serialized }))
