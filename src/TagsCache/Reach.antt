-- ===== src/TagsCache/Reach.antt =====
-- tags_cache.c: the queues that `tags_cache_new` has set up, after whatever the clients and the reader do.
use mocp.Prelude.{
  ℕ, ◌≤◌, ◌<◌, ◌≡◌, refl, ◌∙◌, Option, none, some, List, [], ◌∷◌, All, length-set, arith,
}
use mathlib.Core.List.{Mem}
use mocp.TagsCache.Requests.{
  clients_max, Request, RequestQueue, Requests, tags_cache_new, queue_at, request_queue_pop,
  next_queue, reader_turn, taken, add_request, tags_cache_clear_queue, tags_cache_clear_up_to,
}
use mocp.TagsCache.Choice.{IsValid}
use mocp.TagsCache.Actions.{
  Action, adds, clears, clears_up_to, reads, act, served, after, turns, Keeps,
}
use mocp.TagsCache.Fairness.{served-Mem}

taken-IsValid :
    (c : Requests) (j : ℕ) (q : RequestQueue)
    → IsValid c
    → IsValid (taken c j (request_queue_pop q)).1
unfolding taken
taken-IsValid c j [] v = v
taken-IsValid c j (r ∷ q) v = record {
  storage = length-set c.queues j q ∙ v.storage;
  inside = omega arith;
}

reader_turn-IsValid : (c : Requests) → IsValid c → IsValid (reader_turn c).1
unfolding reader_turn
reader_turn-IsValid c v = go (next_queue c)
  where
    go :
        (o : Option ℕ)
        → let p : Option (ℕ × Request) × Requests = elim o [
          | none ↦ (none, c)
          | some j ↦ taken c j (request_queue_pop (queue_at c.queues j))
        ] in
          IsValid p.1
    go none = v
    go (some j) = taken-IsValid c j (queue_at c.queues j) v

act-IsValid : (a : Action) (c : Requests) → IsValid c → IsValid (act a c).1
unfolding add_request tags_cache_clear_queue tags_cache_clear_up_to
act-IsValid (adds file sel i) c v = record {
  storage = length-set c.queues i _ ∙ v.storage;
  inside = v.inside;
}
act-IsValid (clears i) c v = record {
  storage = length-set c.queues i _ ∙ v.storage;
  inside = v.inside;
}
act-IsValid (clears_up_to file i) c v = record {
  storage = length-set c.queues i _ ∙ v.storage;
  inside = v.inside;
}
act-IsValid reads c v = reader_turn-IsValid c v

after-IsValid : (h : List Action) (c : Requests) → IsValid c → IsValid (after h c)
after-IsValid [] c v = v
after-IsValid (a ∷ h) c v = after-IsValid h (act a c).1 (act-IsValid a c v)

new-IsValid : IsValid tags_cache_new
new-IsValid = record { storage = refl; inside = omega arith }

-- From tags_cache_new on, whatever requests were added, dropped and served before: a request at
-- the head of a client's queue is served within CLIENTS_MAX turns of reader_thread, whatever
-- requests are added meanwhile and whatever the other clients drop, as long as its own client
-- drops none.
pub pending-Mem :
    (before h : List Action) (i : ℕ) (r : Request) (q : RequestQueue)
    → i < clients_max
    → queue_at (after before tags_cache_new).queues i ≡ r ∷ q
    → All (Keeps i) h
    → clients_max ≤ turns h
    → Mem (i, r) (served h (after before tags_cache_new))
pending-Mem before h i r q l e k t =
    served-Mem h (after before tags_cache_new) i r q
      (after-IsValid before tags_cache_new new-IsValid) l e k t
