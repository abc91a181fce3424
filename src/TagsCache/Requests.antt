-- ===== src/TagsCache/Requests.antt =====
-- tags_cache.c: the queues of requests, one for each client, and the choice that `reader_thread` makes
-- between them. A queue is the list of its nodes from the head on; `tail` is the last of them.
use mocp.Prelude.{
  ℕ, zero, suc, ◌+◌, ◌-◌, ◌%◌, Bool, true, false, Option, none, some, List, [], ◌∷◌, ◌++◌, get_or,
  set, ◌==◌, if◌then◌else◌, replicate,
}
use mocp.Prelude.Int.{ℤ}
use mocp.Bytes.{Str}

-- `CLIENTS_MAX` of server.h
abbrev pub clients_max : ℕ
clients_max = 10

-- `struct request_queue_node`
pub record Request : Type 0 where
  pub file : Str
  pub tags_sel : ℤ

-- `struct request_queue`
abbrev pub RequestQueue : Type 0
RequestQueue = List Request

-- `!strcmp (a, b)`
abbrev pub same_str : Str → Str → Bool
same_str [] [] = true
same_str [] (y ∷ ys) = false
same_str (x ∷ xs) [] = false
same_str (x ∷ xs) (y ∷ ys) = if x == y then same_str xs ys else false

abbrev pub request_queue_init : RequestQueue
request_queue_init = []

unfoldable pub request_queue_clear : RequestQueue → RequestQueue
request_queue_clear [] = []
request_queue_clear (o ∷ q) = request_queue_clear q

unfoldable pub request_queue_clear_up_to : RequestQueue → Str → RequestQueue
request_queue_clear_up_to [] file = []
request_queue_clear_up_to (o ∷ q) file =
    let rest = request_queue_clear_up_to q file in if same_str o.file file then q else rest

unfoldable pub request_queue_add : RequestQueue → Str → ℤ → RequestQueue
request_queue_add q file tags_sel = q ++ (record { file = file; tags_sel = tags_sel } ∷ [])

abbrev pub request_queue_empty : RequestQueue → Bool
request_queue_empty [] = true
request_queue_empty (o ∷ q) = false

-- The file and its tags are `none` where the function returns NULL.
abbrev pub request_queue_pop : RequestQueue → Option Request × RequestQueue
request_queue_pop [] = (none, [])
request_queue_pop (o ∷ q) = (some o, q)

-- the part of `struct tags_cache` that the mutex guards, with `curr_queue` of the reader
pub record Requests : Type 0 where
  pub queues : List RequestQueue
  pub curr_queue : ℕ

-- `tags_cache_new`
abbrev pub tags_cache_new : Requests
tags_cache_new = record { queues = replicate clients_max request_queue_init; curr_queue = 0 }

-- `c->queues[i]`
abbrev pub queue_at : List RequestQueue → ℕ → RequestQueue
queue_at qs i = get_or qs i []

-- `while (i < limit && request_queue_empty (&c->queues[i])) i++;` for the n queues up to the limit
unfoldable pub skip_empty : List RequestQueue → ℕ → ℕ → ℕ
skip_empty qs zero i = i
skip_empty qs (suc n) i =
    let rest = skip_empty qs n (suc i) in if request_queue_empty (queue_at qs i) then rest else i

-- The queue to serve: the search begins at `curr_queue` and goes round; `none` when all are empty.
unfoldable pub next_queue : Requests → Option ℕ
next_queue c =
    let i = skip_empty c.queues (clients_max - c.curr_queue) c.curr_queue in
    let j = skip_empty c.queues c.curr_queue 0 in
    if i == clients_max then (if j == c.curr_queue then none else some j) else some i

-- the request taken off queue i, if any, with its client, and the state behind it
unfoldable pub taken :
    Requests → ℕ → Option Request × RequestQueue → Option (ℕ × Request) × Requests
taken c i (none, q) = (none, c)
taken c i (some r, q) =
    (some (i, r), record { queues = set c.queues i q; curr_queue = (i + 1) % clients_max })

-- The requests in a turn of the loop of `reader_thread`, which waits when all queues are empty. What is
-- done with the request that is taken is in Database.
unfoldable pub reader_turn : Requests → Option (ℕ × Request) × Requests
reader_turn c = elim (next_queue c) [
  | none ↦ (none, c)
  | some i ↦ taken c i (request_queue_pop (queue_at c.queues i))
]

-- the end of `tags_cache_add_request`, for tags that the database does not hold
unfoldable pub add_request : Requests → Str → ℤ → ℕ → Requests
add_request c file tags_sel client_id = record c {
  queues = set c.queues client_id (request_queue_add (queue_at c.queues client_id) file tags_sel);
}

unfoldable pub tags_cache_clear_queue : Requests → ℕ → Requests
tags_cache_clear_queue c client_id = record c {
  queues = set c.queues client_id (request_queue_clear (queue_at c.queues client_id));
}

unfoldable pub tags_cache_clear_up_to : Requests → Str → ℕ → Requests
tags_cache_clear_up_to c file client_id = record c {
  queues = set c.queues client_id (request_queue_clear_up_to (queue_at c.queues client_id) file);
}
