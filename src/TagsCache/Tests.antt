-- ===== src/TagsCache/Tests.antt =====
-- The queues, the reader and the tags database of tags_cache.c at work on small examples.
use mocp.Prelude.{
  ℕ, suc, ◌≤◌, ◌≡◌, refl, sym, ap, ◌∙◌, subst, true, false, none, some, List, [], ◌∷◌, ◌++◌, length,
  take, All, if◌then◌else◌, arith, inl, inr, Bool-cases,
}
use mathlib.Core.List.{Memᴰ, Mem}
use mocp.Prelude.Int.{pos, negsuc, ◌≤ℤ◌, ◌+ℤ◌}
use mocp.Bytes.{Str}
use mocp.Tags.{FileTags, tags_new, set_flag, has_flag}
use mocp.TagsCache.Requests.{
  same_str, Request, Requests, queue_at, tags_cache_new, add_request, request_queue_add,
}
use mocp.TagsCache.Reach.{pending-Mem}
use mocp.TagsCache.Actions.{Action, adds, clears, reads, served, after, Keeps}
use mocp.TagsCache.Order.{of_client, served-in_order}
use mocp.TagsCache.Record.{
  cache_record_serialize, cache_record_deserialize, accepted, aborted, overrun, fill_comments,
  fill_time,
}
use mocp.TagsCache.Record.RoundTrip.{
  length-serialize, deserialize-serialize, deserialize_overruns, atime-serialize,
}
use mocp.TagsCache.Record.Times.{deserialize_times}
use mocp.TagsCache.Record.Fields.{CanStore, restored, restored_record}
use mocp.TagsCache.Database.{
  Found, found, not_found, Database, IsMap, Outside, Cache, find_oldest, tags_cache_gc,
  tags_cache_sync, tags_cache_add, tags_cache_add_request,
}
use mocp.TagsCache.Database.Answers.{request_after_add}
use mocp.TagsCache.Database.Bound.{IsBounded, tags_cache_add-IsBounded}

abbrev lookup : List (Str × List ℕ) → Str → Found
lookup [] k = not_found
lookup ((k', b) ∷ s) k = let rest = lookup s k in if same_str k' k then found b else rest

abbrev put : List (Str × List ℕ) → Str → List ℕ → List (Str × List ℕ)
put [] k b = (k, b) ∷ []
put ((k', b') ∷ s) k b =
    let rest = put s k b in if same_str k' k then (k, b) ∷ s else (k', b') ∷ rest

abbrev delete : List (Str × List ℕ) → Str → List (Str × List ℕ)
delete [] k = []
delete ((k', b) ∷ s) k = let rest = delete s k in if same_str k' k then rest else (k', b) ∷ rest

-- a database as an association list
abbrev association : Database
association = record {
  State = List (Str × List ℕ);
  records = λ s. s;
  get = lookup;
  put = put;
  del = delete;
}

same_str_refl : (k : Str) → same_str k k ≡ true
same_str_refl [] = refl
same_str_refl (c ∷ k) = ground (arith, same_str_refl k)

lookup-put : (s : List (Str × List ℕ)) (k : Str) (b : List ℕ) → lookup (put s k b) k ≡ found b
lookup-put [] k b = rw (same_str_refl k) refl
lookup-put ((k', b') ∷ s) k b = elim (Bool-cases (same_str k' k)) [
  | inl e ↦ rw (e, same_str_refl k) refl
  | inr e ↦ rw e (rw e (lookup-put s k b))
]

put_more : (s : List (Str × List ℕ)) (k : Str) (b : List ℕ) → length (put s k b) ≤ suc (length s)
put_more [] k b = omega arith
put_more ((k', b') ∷ s) k b = elim (Bool-cases (same_str k' k)) [
  | inl e ↦ rw e (omega arith)
  | inr e ↦ rw e (omega (arith, put_more s k b))
]

delete_le : (s : List (Str × List ℕ)) (k : Str) → length (delete s k) ≤ length s
delete_le [] k = omega arith
delete_le ((k', b') ∷ s) k = elim (Bool-cases (same_str k' k)) [
  | inl e ↦ rw e (omega (arith, delete_le s k))
  | inr e ↦ rw e (omega (arith, delete_le s k))
]

delete_fewer :
    (s : List (Str × List ℕ)) (k : Str) (b : List ℕ)
    → Memᴰ (k, b) s
    → suc (length (delete s k)) ≤ length s
delete_fewer [] k b m = elim m [ ]
delete_fewer ((k', b') ∷ s) k b (Memᴰ.head e) =
    let same : same_str k' k ≡ true = ap (λ r. same_str (r.0) k) (sym e) ∙ same_str_refl k in
    rw same (omega (arith, delete_le s k))
delete_fewer ((k', b') ∷ s) k b (Memᴰ.tail m) = elim (Bool-cases (same_str k' k)) [
  | inl e ↦ rw e (omega (arith, delete_le s k))
  | inr e ↦ rw e (omega (arith, delete_fewer s k b m))
]

put_all :
    (P : Str × List ℕ → Type 0) (s : List (Str × List ℕ)) (k : Str) (b : List ℕ)
    → All P s
    → P (k, b)
    → All P (put s k b)
put_all P [] k b h p = (p, tt)
put_all P ((k', b') ∷ s) k b (h, hs) p = elim (Bool-cases (same_str k' k)) [
  | inl e ↦ rw e (p, hs)
  | inr e ↦ rw e (h, put_all P s k b hs p)
]

delete_all :
    (P : Str × List ℕ → Type 0) (s : List (Str × List ℕ)) (k : Str) → All P s → All P (delete s k)
delete_all P [] k h = tt
delete_all P ((k', b') ∷ s) k (h, hs) = elim (Bool-cases (same_str k' k)) [
  | inl e ↦ rw e (delete_all P s k hs)
  | inr e ↦ rw e (h, delete_all P s k hs)
]

association-IsMap : IsMap association
association-IsMap = record {
  get-put = lookup-put;
  put_more = put_more;
  del_fewer = delete_fewer;
  put_all = put_all;
  del_all = delete_all;
}

abbrev one_request : Request
one_request = record { file = 47 ∷ 98 ∷ []; tags_sel = pos 3 }

abbrev other_request : Request
other_request = record { file = 47 ∷ 97 ∷ []; tags_sel = pos 1 }

-- client 3 waits, and so does client 0
abbrev two_wait : Requests
two_wait = record {
  queues =
      (other_request ∷ [])
      ∷ []
      ∷ []
      ∷ (one_request ∷ other_request ∷ [])
      ∷ []
      ∷ []
      ∷ []
      ∷ []
      ∷ []
      ∷ []
      ∷ [];
  curr_queue = 4;
}

-- ten turns, with a request of client 4 and the end of client 0 between them
abbrev ten_turns : List Action
ten_turns =
    reads
    ∷ adds (47 ∷ []) (pos 1) 4
    ∷ reads
    ∷ clears 0
    ∷ reads
    ∷ reads
    ∷ reads
    ∷ reads
    ∷ reads
    ∷ reads
    ∷ reads
    ∷ reads
    ∷ []

ten_turns-Keeps : All (Keeps 3) ten_turns
ten_turns-Keeps =
    (tt, (tt, (tt, ((λ e. omega arith), (tt, (tt, (tt, (tt, (tt, (tt, (tt, (tt, tt))))))))))))

-- client 0 asks for one file, and client 3 for two
abbrev three_asked : List Action
three_asked =
    adds (47 ∷ 97 ∷ []) (pos 1) 0
    ∷ adds (47 ∷ 98 ∷ []) (pos 3) 3
    ∷ adds (47 ∷ 97 ∷ []) (pos 1) 3
    ∷ []

pending-Mem_example : Mem (3, one_request) (served ten_turns (after three_asked tags_cache_new))
unfolding add_request request_queue_add
pending-Mem_example =
    pending-Mem three_asked ten_turns 3 one_request (other_request ∷ []) (omega arith) refl
      ten_turns-Keeps (omega arith)

served-in_order_example :
    of_client 3 (served ten_turns two_wait) ++ queue_at (after ten_turns two_wait).queues 3
    ≡ one_request ∷ other_request ∷ []
served-in_order_example = served-in_order ten_turns two_wait 3 (omega arith) ten_turns-Keeps

abbrev some_tags : FileTags
some_tags = record {
  title = some (97 ∷ 98 ∷ []);
  artist = none;
  album = some (99 ∷ []);
  track = pos 7;
  time = pos 200;
  rating = negsuc 0;
  filled = pos 3;
}

some_tags-CanStore : CanStore some_tags
some_tags-CanStore = record {
  title = ((λ e. omega arith), ((λ e. omega arith), tt));
  artist = tt;
  album = ((λ e. omega arith), tt);
  track = omega arith;
  time = omega arith;
  rating = omega arith;
}

deserialize-serialize_example :
    cache_record_deserialize (cache_record_serialize (pos 5) (pos 9) some_tags) false
    ≡ accepted (restored_record (pos 5) (pos 9) some_tags)
deserialize-serialize_example =
    deserialize-serialize (pos 5) (pos 9) some_tags (omega arith) (omega arith) some_tags-CanStore
      (omega (arith, length-serialize (pos 5) (pos 9) some_tags))

deserialize_overruns_example :
    cache_record_deserialize (take 30 (cache_record_serialize (pos 5) (pos 9) some_tags)) false
    ≡ overrun
deserialize_overruns_example =
    deserialize_overruns (pos 5) (pos 9) some_tags 30 (omega arith) (omega arith) some_tags-CanStore
      (omega arith) (omega (arith, length-serialize (pos 5) (pos 9) some_tags))
      (omega (arith, length-serialize (pos 5) (pos 9) some_tags))
      (record { title = omega arith; artist = omega arith; album = omega arith })

deserialize_times_example : cache_record_deserialize (1 ∷ 2 ∷ 3 ∷ []) true ≡ aborted
deserialize_times_example = deserialize_times (1 ∷ 2 ∷ 3 ∷ [])

abbrev outside : Outside
outside = record {
  now = pos 9;
  get_mtime = λ file. pos 5;
  audio_get_ftime = λ file. negsuc 0;
  read_file_tags = λ file t sel. t;
}

-- an empty database, for one record
abbrev empty : Cache association
empty = record { store = []; max_items = 1; sync_count = 4; syncs = 0 }

abbrev filled_once : Cache association
filled_once = record {
  store = (47 ∷ [], cache_record_serialize (pos 5) (pos 9) some_tags) ∷ [];
  max_items = 1;
  sync_count = 0;
  syncs = 1;
}

filled_by_add : tags_cache_add association outside empty (47 ∷ []) some_tags ≡ some filled_once
unfolding tags_cache_add tags_cache_gc find_oldest tags_cache_sync
filled_by_add = refl

request_after_add_example :
    tags_cache_add_request association outside filled_once two_wait (47 ∷ []) (pos 3) 2
    ≡ some (some (restored some_tags), two_wait)
unfolding fill_comments fill_time set_flag has_flag tags_new ◌+ℤ◌
request_after_add_example =
    request_after_add association outside empty filled_once two_wait (47 ∷ []) some_tags (pos 3) 2
      association-IsMap (omega arith) (omega arith) some_tags-CanStore
      (omega (arith, length-serialize (pos 5) (pos 9) some_tags)) filled_by_add (omega arith) refl

tags_cache_add-IsBounded_example :
    (c : Cache association) × (tags_cache_add association outside filled_once (48 ∷ []) some_tags
      ≡ some c)
    × IsBounded association outside c
tags_cache_add-IsBounded_example =
    tags_cache_add-IsBounded association outside filled_once (48 ∷ []) some_tags association-IsMap
      (omega arith)
      (record {
        times = (omega (arith, length-serialize (pos 5) (pos 9) some_tags), tt);
        past = (
          subst (λ a. a ≤ℤ pos 9) (sym (atime-serialize (pos 5) (pos 9) some_tags (omega arith)))
              (omega arith),
          tt,
        );
        limited = omega arith;
        positive = omega arith;
      })
