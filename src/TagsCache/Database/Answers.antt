-- ===== src/TagsCache/Database/Answers.antt =====
-- tags_cache.c: a request for the tags of a file that have been put into the database.
use mocp.Prelude.{
  some_inj, ℕ, suc, ◌^◌, ◌<◌, ◌≡◌, refl, ap, ◌∙◌, subst, true, false, Option, none, some, List,
  length, leb, ◌==◌, arith, inl, inr, Bool-cases,
}
use mocp.Prelude.Int.{ℤ, pos, negsuc, eqb_ℤ}
use mocp.Bytes.{Str, IsWord}
use mocp.Tags.{FileTags}
use mocp.TagsCache.Requests.{Requests}
use mocp.TagsCache.Record.{accepted, cache_record_serialize, cache_record_deserialize}
use mocp.TagsCache.Record.RoundTrip.{deserialize-serialize}
use mocp.TagsCache.Record.Fields.{CanStore, restored, restored_record}
use mocp.TagsCache.Database.{
  found, Database, IsMap, Outside, has_all, Cache, tags_cache_gc, tags_cache_sync, put_tags,
  tags_cache_add, locked_add_request, tags_cache_add_request,
}

eqb_self : (a : ℤ) → eqb_ℤ a a ≡ true
eqb_self (pos n) = ground arith
eqb_self (negsuc n) = ground arith

module _ (db : Database) (out : Outside) where
  sync-store : (c : Cache db) → (tags_cache_sync db out c).store ≡ c.store
  unfolding tags_cache_sync
  sync-store c = elim (Bool-cases (leb 5 (suc c.sync_count))) [
    | inl e ↦ rw e refl
    | inr e ↦ rw e refl
  ]

  -- the record that `tags_cache_add` writes
  abbrev written : Str → FileTags → List ℕ
  written file t = cache_record_serialize (out.get_mtime file) out.now t

  get-put_tags :
      (o : Option (Cache db)) (c' : Cache db) (file : Str) (t : FileTags)
      → IsMap db
      → put_tags db out file t o ≡ some c'
      → db.get c'.store file ≡ found (written file t)
  get-put_tags none c' file t m e = cc
  get-put_tags (some c) c' file t m e =
      subst (λ s. db.get s.store file ≡ found (written file t)) (some_inj e)
        (ap (λ s. db.get s file)
            (sync-store (record c { store = db.put c.store file (written file t) }))
          ∙ m.get-put c.store file (written file t))

  -- the answer to a request when the record is there
  answer_found :
      (c : Cache db) (file : Str) (t : FileTags) (tags_sel : ℤ)
      → db.get c.store file ≡ found (written file t)
      → cache_record_deserialize (written file t) false
        ≡ accepted (restored_record (out.get_mtime file) out.now t)
      → has_all (restored t).filled tags_sel ≡ true
      → locked_add_request db out c file tags_sel ≡ some (some (restored t))
  unfolding locked_add_request
  answer_found c file t tags_sel e e' h =
      rw (locked_add_request, e, e', eqb_self (out.get_mtime file), h) refl

  -- After tags_cache_add of the tags of a file, while the file keeps its time of modification,
  -- tags_cache_add_request for tags that the record has filled sends them at once, as they come
  -- out of the record, and queues nothing; the cache is used, the strings are C strings, the
  -- numbers fit, and the record is shorter than 2^31 bytes.
  pub request_after_add :
      (c c' : Cache db) (q : Requests) (file : Str) (t : FileTags) (tags_sel : ℤ) (client_id : ℕ)
      → IsMap db
      → IsWord 64 (out.get_mtime file)
      → IsWord 64 out.now
      → CanStore t
      → length (cache_record_serialize (out.get_mtime file) out.now t) < 2 ^ 31
      → tags_cache_add db out c file t ≡ some c'
      → 0 < c'.max_items
      → has_all (restored t).filled tags_sel ≡ true
      → tags_cache_add_request db out c' q file tags_sel client_id ≡ some (some (restored t), q)
  unfolding tags_cache_add_request tags_cache_add
  request_after_add c c' q file t tags_sel client_id m wm wa s l e p h =
      let kept = get-put_tags (tags_cache_gc db out c) c' file t m e in
      let read = deserialize-serialize (out.get_mtime file) out.now t wm wa s l in
      let used : (c'.max_items == 0) ≡ false = ground arith in
      rw (tags_cache_add_request, used, answer_found c' file t tags_sel kept read h) refl
