-- ===== src/TagsCache/Record/Times.antt =====
-- tags_cache.c: `cache_record_deserialize` when it skips the tags, as `tags_cache_gc` calls it.
use mocp.Prelude.{
  ℕ, ◌-◌, ◌≡◌, refl, true, false, none, List, length, take, drop, length-drop, ltb, Bool-cases, inl,
  inr, if◌then◌else◌, arith,
}
use mocp.Bytes.{bytes_time, sizeof_time}
use mocp.TagsCache.Record.{
  ◌>>=◌, pure, extract_num, extract_rest, extract_record, accepted, aborted, ok, err,
  cache_record_deserialize,
}
use mocp.TagsCache.Record.Cut.{at}

extract_time_short :
    (rest : List ℕ) (n : ℕ) → ltb n 8 ≡ true → extract_num sizeof_time bytes_time (at rest n) ≡ err
unfolding extract_num
extract_time_short rest n e = rw e refl

extract_time_eq :
    (rest : List ℕ) (n : ℕ)
    → ltb n 8 ≡ false
    → n ≡ length rest
    → extract_num sizeof_time bytes_time (at rest n)
      ≡ ok (bytes_time (take 8 rest), at (drop 8 rest) (n - 8))
unfolding extract_num
extract_time_eq rest n e h =
    let enough : ltb (length rest) 8 ≡ false = ground arith in rw (e, enough) refl

-- With skip_tags cache_record_deserialize fails the assertion of tags_free on fewer than 16 bytes,
-- and otherwise returns 1 with the two times that the bytes begin with.
pub deserialize_times :
    (bytes : List ℕ)
    → cache_record_deserialize bytes true ≡ (
        if ltb (length bytes) 16
        then aborted
        else accepted (record {
          mod_time = bytes_time (take 8 bytes);
          atime = bytes_time (take 8 (drop 8 bytes));
          tags = none;
        }))
unfolding cache_record_deserialize extract_record extract_rest ◌>>=◌ pure
deserialize_times bytes = elim (Bool-cases (ltb (length bytes) 8)) [
  | inl e ↦
      let short : ltb (length bytes) 16 ≡ true = ground arith in
      rw
        (cache_record_deserialize, extract_record, short, extract_time_short bytes (length bytes) e)
        refl
  | inr e ↦ elim (Bool-cases (ltb (length bytes - 8) 8)) [
    | inl e' ↦
        let short : ltb (length bytes) 16 ≡ true = ground arith in
        rw
          (
            cache_record_deserialize,
            extract_record,
            short,
            extract_time_eq bytes (length bytes) e refl,
            extract_time_short (drop 8 bytes) (length bytes - 8) e',
          )
          refl
    | inr e' ↦
        let whole : ltb (length bytes) 16 ≡ false = ground arith in
        rw
          (
            cache_record_deserialize,
            extract_record,
            whole,
            extract_time_eq bytes (length bytes) e refl,
            extract_time_eq (drop 8 bytes) (length bytes - 8) e'
                (omega (arith, length-drop 8 bytes)),
          )
          refl
  ]
]
