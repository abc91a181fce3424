-- ===== src/TagsCache/Record/RoundTrip.antt =====
-- `cache_record_serialize` and `cache_record_deserialize` of tags_cache.c, one after the other.
use mocp.Prelude.{
  ℕ, ◌+◌, ◌-◌, ◌^◌, ◌≤◌, ◌<◌, ◌≡◌, refl, sym, ap, ◌∙◌, true, false, Option, none, some, List, [],
  ◌++◌, length, take, drop, leb, length-take, length-append, Bool-cases, inl, inr, take-append_self,
  drop-append_self, append-nil, if◌then◌else◌, arith,
}
use mocp.Prelude.Int.{ℤ}
use mocp.Bytes.{
  Str, IsWord, word, le_bytes, time_bytes, bytes_time, bytes_time-time_bytes, length-int_bytes,
  length-time_bytes, length-le_bytes,
}
use mocp.Tags.{FileTags}
use mocp.Protocol.Packet.{or_empty}
use mocp.TagsCache.Record.{
  serialize_str, serialize_tags, cache_record_serialize, extract_record, accepted, overrun,
  ends_with, cache_record_deserialize,
}
use mocp.TagsCache.Record.Cut.{at, Cut-at}
use mocp.TagsCache.Record.Fields.{CanStore, Fits, restored_record, extract_record-Cut}

cut_lem :
    (mod_time atime : ℤ) (t : FileTags) (k : ℕ)
    → IsWord 64 mod_time
    → IsWord 64 atime
    → CanStore t
    → 25 ≤ k
    → k < 2 ^ 64
    → k ≤ length (cache_record_serialize mod_time atime t)
    → Fits (k - 16) t
    → cache_record_deserialize (take k (cache_record_serialize mod_time atime t)) false ≡ (
        if leb (length (cache_record_serialize mod_time atime t)) k
        then accepted (restored_record mod_time atime t)
        else overrun)
unfolding cache_record_deserialize
cut_lem mod_time atime t k wm wa s l b h f =
    ap (λ n. ends_with false (extract_record false (at (take k bytes) n))) {y = k}
      (omega (arith, length-take k bytes))
    ∙ ap (ends_with false) (
        Cut-at (extract_record false) bytes _ 25 (k - 16 + 16) k k
          (extract_record-Cut mod_time atime t (k - 16) wm wa s (omega arith) (omega arith) f)
          (omega arith))
    ∙ elim (Bool-cases (leb (length bytes) k)) [ inl e ↦ rw e refl | inr e ↦ rw e refl ]
  where
    bytes : List ℕ
    bytes = cache_record_serialize mod_time atime t

length-serialize_str : (s : Option Str) → length (serialize_str s) ≡ 8 + length (or_empty s)
length-serialize_str none = omega (arith, length-append (le_bytes 8 0) [], length-le_bytes 8 0)
length-serialize_str (some s) =
    omega (arith, length-append (le_bytes 8 (length s)) s, length-le_bytes 8 (length s))

-- the length of a record: 49 bytes, and the strings
pub length-serialize :
    (mod_time atime : ℤ) (t : FileTags)
    → length (cache_record_serialize mod_time atime t)
      ≡ 49 + length (or_empty t.artist) + length (or_empty t.album) + length (or_empty t.title)
unfolding cache_record_serialize serialize_tags
length-serialize mod_time atime t = omega (
  arith,
  length-append {A = ℕ},
  length-serialize_str t.artist,
  length-serialize_str t.album,
  length-serialize_str t.title,
  length-int_bytes t.track,
  length-int_bytes t.time,
  length-le_bytes 1 (word 8 t.rating),
  length-time_bytes mod_time,
  length-time_bytes atime,
)

-- cache_record_deserialize of the bytes that cache_record_serialize made of a record returns 1
-- with the record: its times, track, time and rating, its strings, an empty one for NULL, and as
-- filled the comments, and the time if it is not negative; the strings are C strings, the numbers
-- fit, and the record is shorter than 2^31 bytes.
pub deserialize-serialize :
    (mod_time atime : ℤ) (t : FileTags)
    → IsWord 64 mod_time
    → IsWord 64 atime
    → CanStore t
    → length (cache_record_serialize mod_time atime t) < 2 ^ 31
    → cache_record_deserialize (cache_record_serialize mod_time atime t) false
      ≡ accepted (restored_record mod_time atime t)
deserialize-serialize mod_time atime t wm wa s b =
    ap (λ l. cache_record_deserialize l false)
      (sym (take-append_self (length bytes) bytes [] refl)
        ∙ ap (take (length bytes)) (append-nil bytes))
    ∙ cut_lem mod_time atime t (length bytes) wm wa s (omega (arith, long)) (omega arith)
        (omega arith)
        (record {
          title = omega (arith, long);
          artist = omega (arith, long);
          album = omega (arith, long);
        })
    ∙ (let whole : leb (length bytes) (length bytes) ≡ true = ground arith in rw whole refl)
  where
    bytes : List ℕ
    bytes = cache_record_serialize mod_time atime t

    long :
        length bytes
        ≡ 49 + length (or_empty t.artist) + length (or_empty t.album) + length (or_empty t.title)
    long = length-serialize mod_time atime t

-- Of a record that is cut off behind its first k bytes cache_record_deserialize does not return 0
-- but reads behind the end, since extract_str does not take the bytes of a string off bytes_left;
-- k is 25 at least, no string is longer than k - 16, and the record is as in the round trip.
pub deserialize_overruns :
    (mod_time atime : ℤ) (t : FileTags) (k : ℕ)
    → IsWord 64 mod_time
    → IsWord 64 atime
    → CanStore t
    → 25 ≤ k
    → k < length (cache_record_serialize mod_time atime t)
    → length (cache_record_serialize mod_time atime t) < 2 ^ 31
    → Fits (k - 16) t
    → cache_record_deserialize (take k (cache_record_serialize mod_time atime t)) false ≡ overrun
deserialize_overruns mod_time atime t k wm wa s l h b f =
    let short : leb (length (cache_record_serialize mod_time atime t)) k ≡ false = ground arith in
    cut_lem mod_time atime t k wm wa s l (omega arith) (omega arith) f ∙ rw short refl

-- where a record holds the time of the last access
pub atime-serialize :
    (mod_time atime : ℤ) (t : FileTags)
    → IsWord 64 atime
    → bytes_time (take 8 (drop 8 (cache_record_serialize mod_time atime t))) ≡ atime
unfolding cache_record_serialize
atime-serialize mod_time atime t w =
    rw
      (
        drop-append_self 8 (time_bytes mod_time) (time_bytes atime ++ serialize_tags t)
            (sym (length-time_bytes mod_time)),
        take-append_self 8 (time_bytes atime) (serialize_tags t) (sym (length-time_bytes atime)),
      )
      (bytes_time-time_bytes atime w)
