-- ===== src/TagsCache/Database.antt =====
-- tags_cache.c: the tags database and the tags that are read, added and dropped.
-- Berkeley DB, the clock, the files and the tags decoders are parameters.
pub mod Bound
pub mod Answers
use mocp.Prelude.{
  ℕ, suc, ◌+◌, ◌≤◌, ◌≡◌, Bool, true, false, not, ◌&&◌, Option, none, some, List, [], ◌∷◌, length,
  ltb, leb, ◌==◌, All, if◌then◌else◌,
}
use Prim.Native.Nat.{bit_and}
use mathlib.Core.List.{Memᴰ}
use mocp.Prelude.Int.{ℤ, pos, negsuc, ◌+ℤ◌, ltb_ℤ, eqb_ℤ}
use mocp.Bytes.{Str, word}
use mocp.Tags.{FileTags, tags_new, tags_time, has_flag, set_flag, clear_flag}
use mocp.TagsCache.Requests.{Request, Requests, add_request, reader_turn}
use mocp.TagsCache.Record.{
  CacheRecord, Deserialized, accepted, rejected, aborted, overrun, cache_record_serialize,
  cache_record_deserialize,
}

-- How DB->get (3) ends: with a record, with DB_NOTFOUND, or with another error.
pub data Found : Type 0 where
  found : List ℕ → Found
  not_found : Found
  failed : Found

-- a database of Berkeley DB: the records in the order of a cursor, and DB->get, DB->put and DB->del
pub record Database : Type 1 where
  pub State : Type 0
  pub records : State → List (Str × List ℕ)
  pub get : State → Str → Found
  pub put : State → Str → List ℕ → State
  pub del : State → Str → State

-- What Berkeley DB says of a database whose keys are unique.
pub record IsMap (db : Database) : Type 1 where
  pub get-put : (s : db.State) (k : Str) (b : List ℕ) → db.get (db.put s k b) k ≡ found b
  pub put_more :
      (s : db.State) (k : Str) (b : List ℕ)
      → length (db.records (db.put s k b)) ≤ suc (length (db.records s))
  pub del_fewer :
      (s : db.State) (k : Str) (b : List ℕ)
      → Memᴰ (k, b) (db.records s)
      → suc (length (db.records (db.del s k))) ≤ length (db.records s)
  pub put_all :
      (P : Str × List ℕ → Type 0) (s : db.State) (k : Str) (b : List ℕ)
      → All P (db.records s)
      → P (k, b)
      → All P (db.records (db.put s k b))
  pub del_all :
      (P : Str × List ℕ → Type 0) (s : db.State) (k : Str)
      → All P (db.records s)
      → All P (db.records (db.del s k))

-- time (2), `get_mtime`, `audio_get_ftime` and `read_file_tags`
pub record Outside : Type 0 where
  pub now : ℤ
  pub get_mtime : Str → ℤ
  pub audio_get_ftime : Str → ℤ
  pub read_file_tags : Str → FileTags → ℤ → FileTags

-- `(filled & tags_sel) == tags_sel`
abbrev pub has_all : ℤ → ℤ → Bool
has_all filled tags_sel = bit_and (word 32 filled) (word 32 tags_sel) == word 32 tags_sel

-- `last_referenced`, `last_referenced_atime` and `nitems` of `tags_cache_gc`
pub record Oldest : Type 0 where
  pub last_referenced : Option Str
  pub atime : ℤ
  pub nitems : ℕ

-- a record under the cursor
abbrev pub look_at : Oldest → Str → CacheRecord → Oldest
look_at o key rec =
    if ltb_ℤ rec.atime o.atime
    then record { last_referenced = some key; atime = rec.atime; nitems = suc o.nitems }
    else record o { nitems = suc o.nitems }

-- The loop of `tags_cache_gc`; `none` where `cache_record_deserialize` fails an assertion.
unfoldable pub find_oldest : Oldest → List (Str × List ℕ) → Option Oldest
find_oldest o [] = some o
find_oldest o ((key, bytes) ∷ rs) = elim (cache_record_deserialize bytes true) [
  | accepted rec ↦ find_oldest (look_at o key rec) rs
  | rejected ↦ find_oldest (record o { nitems = suc o.nitems }) rs
  | aborted ↦ none
  | overrun ↦ none
]

-- `DB_SYNC_COUNT`
abbrev pub db_sync_count : ℕ
db_sync_count = 5

-- `struct tags_cache` without the requests, with the counter of `tags_cache_sync`. `syncs` counts the
-- calls of DB->sync (3).
pub record Cache (db : Database) : Type 0 where
  pub store : db.State
  pub max_items : ℕ
  pub sync_count : ℕ
  pub syncs : ℕ

module _ (db : Database) (out : Outside) where
  unfoldable pub tags_cache_remove_rec : Cache db → Str → Cache db
  tags_cache_remove_rec c fname = record c { store = db.del c.store fname }

  -- the end of `tags_cache_gc`, with the number of records and the oldest of them
  abbrev pub drop_oldest : Cache db → ℕ → Option Str → Cache db
  drop_oldest c nitems none = c
  drop_oldest c nitems (some fname) =
      if leb c.max_items nitems then tags_cache_remove_rec c fname else c

  -- what the search begins with
  abbrev pub none_yet : Oldest
  none_yet = record { last_referenced = none; atime = out.now +ℤ pos 1; nitems = 0 }

  unfoldable pub tags_cache_gc : Cache db → Option (Cache db)
  tags_cache_gc c = elim (find_oldest none_yet (db.records c.store)) [
    | none ↦ none
    | some o ↦ some (drop_oldest c o.nitems o.last_referenced)
  ]

  unfoldable pub tags_cache_sync : Cache db → Cache db
  tags_cache_sync c =
      if leb db_sync_count (suc c.sync_count)
      then record c { sync_count = 0; syncs = suc c.syncs }
      else record c { sync_count = suc c.sync_count }

  -- what follows the garbage collection; a put that fails is logged
  abbrev pub put_tags : Str → FileTags → Option (Cache db) → Option (Cache db)
  put_tags file tags none = none
  put_tags file tags (some c) =
      let bytes = cache_record_serialize (out.get_mtime file) out.now tags in
      some (tags_cache_sync (record c { store = db.put c.store file bytes }))

  unfoldable pub tags_cache_add : Cache db → Str → FileTags → Option (Cache db)
  tags_cache_add c file tags = put_tags file tags (tags_cache_gc c)

  abbrev pub tags_or_new : Option FileTags → FileTags
  tags_or_new none = tags_new
  tags_or_new (some t) = t

  unfoldable pub read_missing_tags : Str → Option FileTags → ℤ → FileTags
  read_missing_tags file tags tags_sel =
      let t = tags_or_new tags in
      let time = out.audio_get_ftime file in
      if has_flag tags_sel tags_time && not (eqb_ℤ time (negsuc 0))
      then out.read_file_tags file (record t { time = time; filled = set_flag t.filled tags_time })
          (clear_flag tags_sel tags_time)
      else out.read_file_tags file t tags_sel

  -- the tags read and put into the database, beside those that it held
  abbrev pub read_and_add : Cache db → Str → ℤ → Option FileTags → Option (FileTags × Cache db)
  read_and_add c file tags_sel tags =
      let t = read_missing_tags file tags tags_sel in
      elim (tags_cache_add c file t) [ none ↦ none | some c' ↦ some (t, c') ]

  -- the branch of `locked_read_add` for a record that has been read
  abbrev pub use_or_reread : Cache db → Str → ℤ → ℤ → CacheRecord → Option (FileTags × Cache db)
  use_or_reread c file tags_sel client_id rec = elim rec.tags [
    | none ↦ none
    | some t ↦
        if not (eqb_ℤ rec.mod_time (out.get_mtime file))
        then read_and_add c file tags_sel none
        else if has_all t.filled tags_sel && eqb_ℤ client_id (negsuc 0)
        then some (t, c)
        else read_and_add c file tags_sel (some t)
  ]

  -- `locked_read_add`; `none` where a record is read behind its end.
  unfoldable pub locked_read_add : Cache db → Str → ℤ → ℤ → Option (FileTags × Cache db)
  locked_read_add c file tags_sel client_id = elim (db.get c.store file) [
    | found bytes ↦ elim (cache_record_deserialize bytes false) [
      | accepted rec ↦ use_or_reread c file tags_sel client_id rec
      | rejected ↦ read_and_add c file tags_sel none
      | aborted ↦ none
      | overrun ↦ none
    ]
    | not_found ↦ read_and_add c file tags_sel none
    | failed ↦ read_and_add c file tags_sel none
  ]

  -- `tags_cache_read_add`, with the tags that it returns (client -1) or sends to the client
  unfoldable pub tags_cache_read_add : Cache db → Str → ℤ → ℤ → Option (FileTags × Cache db)
  tags_cache_read_add c file tags_sel client_id =
      if c.max_items == 0
      then some (read_missing_tags file none tags_sel, c)
      else locked_read_add c file tags_sel client_id

  -- the tags of a record that is up to date and complete
  abbrev pub answer_from : Str → ℤ → CacheRecord → Option (Option FileTags)
  answer_from file tags_sel rec = elim rec.tags [
    | none ↦ none
    | some t ↦
        if eqb_ℤ rec.mod_time (out.get_mtime file) && has_all t.filled tags_sel
        then some (some t)
        else some none
  ]

  -- `locked_add_request`: the tags sent to the client, or none when it returns NULL
  unfoldable pub locked_add_request : Cache db → Str → ℤ → Option (Option FileTags)
  locked_add_request c file tags_sel = elim (db.get c.store file) [
    | found bytes ↦ elim (cache_record_deserialize bytes false) [
      | accepted rec ↦ answer_from file tags_sel rec
      | rejected ↦ some none
      | aborted ↦ none
      | overrun ↦ none
    ]
    | not_found ↦ some none
    | failed ↦ some none
  ]

  -- the answer of the database, if it is used
  abbrev pub answer : Cache db → Str → ℤ → Option (Option FileTags)
  answer c file tags_sel =
      if c.max_items == 0 then some none else locked_add_request c file tags_sel

  -- `tags_cache_add_request`, with the tags sent at once
  unfoldable pub tags_cache_add_request :
      Cache db → Requests → Str → ℤ → ℕ → Option (Option FileTags × Requests)
  tags_cache_add_request c q file tags_sel client_id = elim (answer c file tags_sel) [
    | none ↦ none
    | some none ↦ some (none, add_request q file tags_sel client_id)
    | some (some t) ↦ some (some t, q)
  ]

  -- The tags of a request, read for its client and sent to it.
  abbrev pub read_request :
      Cache db → (ℕ × Request) × Requests → Option (Option (ℕ × FileTags) × (Cache db × Requests))
  read_request c ((i, r), q) = elim (tags_cache_read_add c r.file r.tags_sel (pos i)) [
    | none ↦ none
    | some (t, c') ↦ some (some (i, t), (c', q))
  ]

  abbrev pub read_taken :
      Cache db
      → Option (ℕ × Request) × Requests
      → Option (Option (ℕ × FileTags) × (Cache db × Requests))
  read_taken c (none, q) = some (none, (c, q))
  read_taken c (some k, q) = read_request c (k, q)

  -- A whole turn of the loop of `reader_thread`, with the tags that are sent.
  unfoldable pub reader_thread_turn :
      Cache db → Requests → Option (Option (ℕ × FileTags) × (Cache db × Requests))
  reader_thread_turn c q = read_taken c (reader_turn q)
