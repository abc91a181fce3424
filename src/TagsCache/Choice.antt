-- ===== src/TagsCache/Choice.antt =====
-- tags_cache.c: the queue that `reader_thread` chooses.
use mocp.Prelude.{
  ℕ, zero, suc, ◌+◌, ◌-◌, ◌%◌, ◌≤◌, ◌<◌, ◌≡◌, refl, false, some, List, ◌∷◌, length, set, ◌==◌,
  if◌then◌else◌, leb, arith, ◌⊎◌, inl, inr, Bool-cases,
}
use mocp.TagsCache.Requests.{
  clients_max, Request, RequestQueue, Requests, queue_at, request_queue_empty, skip_empty,
  next_queue, reader_turn, taken,
}

-- The scan stops at the first queue with a request.
skip_empty_bounds :
    (qs : List RequestQueue) (n a : ℕ) → (a ≤ skip_empty qs n a) × (skip_empty qs n a ≤ a + n)
unfolding skip_empty
skip_empty_bounds qs zero a = omega arith
skip_empty_bounds qs (suc n) a = ground (arith, skip_empty_bounds qs n (suc a))

skip_empty_le :
    (qs : List RequestQueue) (n a i : ℕ)
    → request_queue_empty (queue_at qs i) ≡ false
    → a ≤ i
    → i < a + n
    → skip_empty qs n a ≤ i
unfolding skip_empty
skip_empty_le qs zero a i w h k = absurd (omega arith)
skip_empty_le qs (suc n) a i w h k = ground (arith, skip_empty_le qs n (suc a) i w)

skip_empty_waits :
    (qs : List RequestQueue) (n a : ℕ)
    → skip_empty qs n a < a + n
    → request_queue_empty (queue_at qs (skip_empty qs n a)) ≡ false
unfolding skip_empty
skip_empty_waits qs zero a h = absurd (omega arith)
skip_empty_waits qs (suc n) a h = ground (arith, skip_empty_waits qs n (suc a))

-- There is a queue for each client, and the reader stands at one of them.
pub record IsValid (c : Requests) : Type 0 where
  pub storage : length c.queues ≡ clients_max
  pub inside : c.curr_queue < clients_max

-- the turns from queue `at` to queue i, going round
abbrev pub distance : ℕ → ℕ → ℕ
distance i at = if leb at i then i - at else i + clients_max - at

-- The queue chosen is not behind a queue that waits.
pub next_queue-between :
    (c : Requests) (i : ℕ)
    → IsValid c
    → i < clients_max
    → request_queue_empty (queue_at c.queues i) ≡ false
    → (j : ℕ) × (next_queue c ≡ some j)
      × (j < clients_max)
      × (request_queue_empty (queue_at c.queues j) ≡ false)
      × ((j ≡ i) ⊎ (distance i ((j + 1) % clients_max) < distance i c.curr_queue))
unfolding next_queue
next_queue-between c i v h w = elim (Bool-cases (first == clients_max)) [
  | inl e ↦ elim (Bool-cases (second == c.curr_queue)) [
    | inl e' ↦ absurd (ground (arith, around, back, v.inside, reach, reach_back, waits, waits_back))
    | inr e' ↦ (
      second,
      rw (e, e') refl,
      ground (arith, around, back, v.inside),
      ground (arith, around, back, v.inside, reach, reach_back, waits, waits_back),
      ground (arith, around, back, v.inside, reach, reach_back, waits, waits_back),
    )
  ]
  | inr e ↦ (
    first,
    rw e refl,
    ground (arith, around, v.inside),
    ground (arith, around, back, v.inside, reach, reach_back, waits, waits_back),
    ground (arith, around, back, v.inside, reach, reach_back, waits, waits_back),
  )
]
  where
    first : ℕ
    first = skip_empty c.queues (clients_max - c.curr_queue) c.curr_queue

    second : ℕ
    second = skip_empty c.queues c.curr_queue 0

    around : (c.curr_queue ≤ first) × (first ≤ c.curr_queue + (clients_max - c.curr_queue))
    around = skip_empty_bounds c.queues (clients_max - c.curr_queue) c.curr_queue

    back : (0 ≤ second) × (second ≤ 0 + c.curr_queue)
    back = skip_empty_bounds c.queues c.curr_queue 0

    reach : c.curr_queue ≤ i → i < c.curr_queue + (clients_max - c.curr_queue) → first ≤ i
    reach = skip_empty_le c.queues (clients_max - c.curr_queue) c.curr_queue i w

    reach_back : 0 ≤ i → i < 0 + c.curr_queue → second ≤ i
    reach_back = skip_empty_le c.queues c.curr_queue 0 i w

    waits :
        first < c.curr_queue + (clients_max - c.curr_queue)
        → request_queue_empty (queue_at c.queues first) ≡ false
    waits = skip_empty_waits c.queues (clients_max - c.curr_queue) c.curr_queue

    waits_back : second < 0 + c.curr_queue → request_queue_empty (queue_at c.queues second) ≡ false
    waits_back = skip_empty_waits c.queues c.curr_queue 0

-- A turn serves the head of a queue, unless every queue is empty.
pub reader_turn-serves :
    (c : Requests) (i : ℕ) (r : Request) (q : RequestQueue)
    → next_queue c ≡ some i
    → queue_at c.queues i ≡ r ∷ q
    → reader_turn c
      ≡ (some (i, r), record { queues = set c.queues i q; curr_queue = (i + 1) % clients_max })
unfolding reader_turn taken
reader_turn-serves c i r q e w = rw (reader_turn, e, w) refl
