-- ===== src/TagsCache/Database/Bound.antt =====
-- tags_cache.c: which record `tags_cache_gc` drops, and how many records there are.
use mocp.Prelude.{
  ℕ, suc, ◌+◌, ◌≤◌, ◌<◌, ◌≡◌, refl, sym, ap₂, ◌∙◌, subst, true, false, none, some, List, [], ◌∷◌,
  length, take, drop, ltb, leb, All, arith, inl, inr, ◌⊎◌, Bool-cases,
}
use mathlib.Core.List.{Memᴰ}
use mocp.Prelude.Int.{ℤ, pos, ◌≤ℤ◌, ltb_ℤ, ◌+ℤ◌, int_laws, parts_of_eq}
use mocp.Bytes.{Str, bytes_time, IsWord}
use mocp.Tags.{FileTags}
use mocp.TagsCache.Record.{CacheRecord, accepted, cache_record_serialize, cache_record_deserialize}
use mocp.TagsCache.Record.RoundTrip.{atime-serialize, length-serialize}
use mocp.TagsCache.Record.Times.{deserialize_times}
use mocp.TagsCache.Database.{
  Oldest, look_at, find_oldest, Database, IsMap, Outside, Cache, none_yet, drop_oldest,
  tags_cache_remove_rec, tags_cache_gc, tags_cache_sync, tags_cache_add,
}

-- the time of the last access in a record
abbrev pub atime_of : Str × List ℕ → ℤ
atime_of r = bytes_time (take 8 (drop 8 r.1))

-- The record holds its times.
abbrev pub HasTimes : Str × List ℕ → Type 0
HasTimes r = 16 ≤ length r.1

times_of : List ℕ → CacheRecord
times_of bytes = record {
  mod_time = bytes_time (take 8 bytes);
  atime = bytes_time (take 8 (drop 8 bytes));
  tags = none;
}

deserialize_whole :
    (bytes : List ℕ)
    → 16 ≤ length bytes
    → cache_record_deserialize bytes true ≡ accepted (times_of bytes)
unfolding times_of
deserialize_whole bytes h =
    let whole : ltb (length bytes) 16 ≡ false = ground arith in
    deserialize_times bytes ∙ rw whole refl

-- What the search finds in the records `rs` when it has found `o` before.
pub record Searched (o : Oldest) (rs : List (Str × List ℕ)) (o' : Oldest) : Type 0 where
  pub counted : o'.nitems ≡ o.nitems + length rs
  pub least : All (λ r. o'.atime ≤ℤ atime_of r) rs
  pub below : o'.atime ≤ℤ o.atime
  pub among :
      ((r : Str × List ℕ) × (o'.last_referenced ≡ some r.0) × (o'.atime ≡ atime_of r) × Memᴰ r rs)
      ⊎ ((o'.last_referenced ≡ o.last_referenced) × (o'.atime ≡ o.atime))

module _ (o o' : Oldest) (r : Str × List ℕ) (rs : List (Str × List ℕ)) where
  older :
      ltb_ℤ (atime_of r) o.atime ≡ true
      → Searched
          (record { last_referenced = some r.0; atime = atime_of r; nitems = suc o.nitems })
          rs
          o'
      → Searched o (r ∷ rs) o'
  older e s = record {
    counted = omega (arith, s.counted);
    least = (s.below, s.least);
    below = ground (arith, s.below);
    among = elim s.among [
      | inl (t, l, a, m) ↦ inl (t, l, a, Memᴰ.tail m)
      | inr (l, a) ↦ inl (r, l, a, Memᴰ.head refl)
    ];
  }

  newer :
      ltb_ℤ (atime_of r) o.atime ≡ false
      → Searched (record o { nitems = suc o.nitems }) rs o'
      → Searched o (r ∷ rs) o'
  newer e s = record {
    counted = omega (arith, s.counted);
    least = (ground (arith, s.below), s.least);
    below = s.below;
    among = elim s.among [
      | inl (t, l, a, m) ↦ inl (t, l, a, Memᴰ.tail m)
      | inr (l, a) ↦ inr (l, a)
    ];
  }

  look_at-Searched : Searched (look_at o r.0 (times_of r.1)) rs o' → Searched o (r ∷ rs) o'
  unfolding times_of
  look_at-Searched s = elim (Bool-cases (ltb_ℤ (atime_of r) o.atime)) [
    | inl e ↦ older e (subst (λ p. Searched p rs o') (rw e refl) s)
    | inr e ↦ newer e (subst (λ p. Searched p rs o') (rw e refl) s)
  ]

find_oldest-Searched :
    (o : Oldest) (rs : List (Str × List ℕ))
    → All HasTimes rs
    → (o' : Oldest) × (find_oldest o rs ≡ some o') × Searched o rs o'
unfolding find_oldest
find_oldest-Searched o [] h = (
  o,
  refl,
  record { counted = omega arith; least = tt; below = omega arith; among = inr (refl, refl) },
)
find_oldest-Searched o (r ∷ rs) (h, hs) =
    let (o', e, s) = find_oldest-Searched (look_at o r.0 (times_of r.1)) rs hs in
    (o', rw (find_oldest, deserialize_whole r.1 h) e, look_at-Searched o o' r rs s)

module _ (db : Database) (out : Outside) where
  -- The records hold their times, none of them later than now, and there are no more than the limit.
  pub record IsBounded (c : Cache db) : Type 0 where
    pub times : All HasTimes (db.records c.store)
    pub past : All (λ r. atime_of r ≤ℤ out.now) (db.records c.store)
    pub limited : length (db.records c.store) ≤ c.max_items
    pub positive : 0 < c.max_items

  -- There is room for another record.
  record HasRoom (c c' : Cache db) : Type 0 where
    times : All HasTimes (db.records c'.store)
    past : All (λ r. atime_of r ≤ℤ out.now) (db.records c'.store)
    room : suc (length (db.records c'.store)) ≤ c.max_items
    same_limit : c'.max_items ≡ c.max_items

  empty_of_none :
      (rs : List (Str × List ℕ)) (a : ℤ)
      → a ≡ out.now +ℤ pos 1
      → All (λ r. a ≤ℤ atime_of r) rs
      → All (λ r. atime_of r ≤ℤ out.now) rs
      → length rs ≡ 0
  empty_of_none [] a e l p = refl
  empty_of_none (r ∷ rs) a e (l, ls) (p, ps) = absurd (omega (int_laws, parts_of_eq e))

  drop_oldest-HasRoom :
      (c : Cache db) (r : Str × List ℕ)
      → IsMap db
      → IsBounded c
      → Memᴰ r (db.records c.store)
      → HasRoom c (drop_oldest db out c (length (db.records c.store)) (some r.0))
  unfolding tags_cache_remove_rec
  drop_oldest-HasRoom c r m b i =
      let n = length (db.records c.store) in
      elim (Bool-cases (leb c.max_items n)) [
        | inl e ↦ rw e (record {
          times = m.del_all HasTimes c.store r.0 b.times;
          past = m.del_all (λ r. atime_of r ≤ℤ out.now) c.store r.0 b.past;
          room = omega (arith, m.del_fewer c.store r.0 r.1 i, b.limited);
          same_limit = refl;
        })
        | inr e ↦
            rw e (record { times = b.times; past = b.past; room = ground arith; same_limit = refl })
      ]

  gc-HasRoom :
      (c : Cache db)
      → IsMap db
      → IsBounded c
      → (c' : Cache db) × (tags_cache_gc db out c ≡ some c') × HasRoom c c'
  unfolding tags_cache_gc
  gc-HasRoom c m b =
      let (o, e, s) = find_oldest-Searched (none_yet db out) (db.records c.store) b.times in
      let n = length (db.records c.store) in
      let count : o.nitems ≡ n = omega (arith, s.counted) in
      elim s.among [
        | inl (r, l, a, i) ↦ (
          drop_oldest db out c n (some r.0),
          rw (tags_cache_gc, e) (ap₂ (λ k f. some (drop_oldest db out c k f)) count l),
          drop_oldest-HasRoom c r m b i,
        )
        | inr (l, a) ↦ (
          c,
          rw (tags_cache_gc, e) (ap₂ (λ k f. some (drop_oldest db out c k f)) count l),
          record {
            times = b.times;
            past = b.past;
            room =
                omega
                  (arith, empty_of_none (db.records c.store) o.atime a s.least b.past, b.positive);
            same_limit = refl;
          },
        )
      ]

  sync-IsBounded : (c : Cache db) → IsBounded c → IsBounded (tags_cache_sync db out c)
  unfolding tags_cache_sync
  sync-IsBounded c b = elim (Bool-cases (leb 5 (suc c.sync_count))) [
    | inl e ↦
        rw e (record { times = b.times; past = b.past; limited = b.limited; positive = b.positive })
    | inr e ↦
        rw e (record { times = b.times; past = b.past; limited = b.limited; positive = b.positive })
  ]

  -- Where Berkeley DB keeps its records by key, every record holds its two times, none was used
  -- later than now, and there are no more than max_items, which is not 0: tags_cache_add passes
  -- the assertions of cache_record_deserialize, and leaves a database of which the same is true.
  pub tags_cache_add-IsBounded :
      (c : Cache db) (file : Str) (t : FileTags)
      → IsMap db
      → IsWord 64 out.now
      → IsBounded c
      → (c' : Cache db) × (tags_cache_add db out c file t ≡ some c') × IsBounded c'
  unfolding tags_cache_add
  tags_cache_add-IsBounded c file t m w b =
      let (c', e, r) = gc-HasRoom c m b in
      let bytes = cache_record_serialize (out.get_mtime file) out.now t in
      let at_now = atime-serialize (out.get_mtime file) out.now t w in
      (
        tags_cache_sync db out (record c' { store = db.put c'.store file bytes }),
        rw (tags_cache_add, e) refl,
        sync-IsBounded _ (record {
          times =
              m.put_all HasTimes c'.store file bytes r.times
                (omega (arith, length-serialize (out.get_mtime file) out.now t));
          past =
              m.put_all (λ r. atime_of r ≤ℤ out.now) c'.store file bytes r.past
                (subst (λ a. a ≤ℤ out.now) (sym at_now) (omega arith));
          limited = omega (arith, m.put_more c'.store file bytes, r.room, r.same_limit);
          positive = omega (arith, b.positive, r.same_limit);
        }),
      )
