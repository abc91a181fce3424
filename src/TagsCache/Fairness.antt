-- ===== src/TagsCache/Fairness.antt =====
-- tags_cache.c: which requests `reader_thread` serves while the clients add requests and drop them.
use mocp.Prelude.{
  get_or-set_self, get_or-set_ne, ℕ, ◌+◌, ◌%◌, ◌≤◌, ◌<◌, ◌≡◌, ◌≢◌, refl, sym, subst, ap, ap₂, ◌∙◌,
  false, Option, none, some, List, [], ◌∷◌, ◌++◌, set, ◌==◌, All, arith, length-set, ◌⊎◌, inl, inr,
  Bool-cases,
}
use mathlib.Core.List.{Mem, mem-cons_self, mem-cons_of_mem}
use mocp.Prelude.Int.{ℤ}
use mocp.Bytes.{Str}
use mocp.TagsCache.Requests.{
  clients_max, Request, RequestQueue, Requests, queue_at, request_queue_empty, reader_turn,
  request_queue_add, add_request, tags_cache_clear_queue, tags_cache_clear_up_to,
}
use mocp.TagsCache.Choice.{IsValid, distance, next_queue-between, reader_turn-serves}
use mocp.TagsCache.Actions.{Action, adds, clears, clears_up_to, reads, served, turns, Keeps}

-- what an action that does not serve it leaves of a pending request
record Waits (i : ℕ) (r : Request) (n : ℕ) (c : Requests) : Type 0 where
  valid : IsValid c
  near : distance i c.curr_queue ≤ n
  behind : RequestQueue
  first : queue_at c.queues i ≡ r ∷ behind

set-Waits :
    (c : Requests) (i j : ℕ) (r : Request) (n : ℕ) (q : RequestQueue)
    → i ≢ j
    → Waits i r n c
    → Waits i r n (record c { queues = set c.queues j q })
set-Waits c i j r n q h w = record {
  valid = record { storage = length-set c.queues j q ∙ w.valid.storage; inside = w.valid.inside };
  near = w.near;
  behind = w.behind;
  first = get_or-set_ne c.queues j i q [] (λ e. h (sym e)) ∙ w.first;
}

add_request-Waits :
    (c : Requests) (file : Str) (sel : ℤ) (i j : ℕ) (r : Request) (n : ℕ)
    → i < clients_max
    → Waits i r n c
    → Waits i r n (add_request c file sel j)
unfolding add_request request_queue_add
add_request-Waits c file sel i j r n l w = elim (Bool-cases (i == j)) [
  | inl e ↦ subst (λ j. Waits i r n (add_request c file sel j)) {x = i} (ground arith) here
  | inr e ↦ set-Waits c i j r n _ (ground arith) w
]
  where
    here : Waits i r n (add_request c file sel i)
    here = record {
      valid = record {
        storage = length-set c.queues i _ ∙ w.valid.storage;
        inside = w.valid.inside;
      };
      near = w.near;
      behind = w.behind ++ (record { file = file; tags_sel = sel } ∷ []);
      first =
          get_or-set_self c.queues i _ [] (omega (arith, w.valid.storage))
          ∙ ap (λ q. q ++ (record { file = file; tags_sel = sel } ∷ [])) w.first;
    }

-- A turn serves the request, or another one and comes nearer.
data Turned (i : ℕ) (r : Request) (n : ℕ) : Option (ℕ × Request) × Requests → Type 0 where
  its_turn : {c : Requests} → Turned i r n (some (i, r), c)
  other :
      {k : ℕ × Request} {c : Requests} (m : ℕ) → m < n → Waits i r m c → Turned i r n (some k, c)

clear-Waits :
    (c : Requests) (i j : ℕ) (r : Request) (n : ℕ)
    → i ≢ j
    → Waits i r n c
    → Waits i r n (tags_cache_clear_queue c j)
unfolding tags_cache_clear_queue
clear-Waits c i j r n h w = set-Waits c i j r n _ h w

clear_up_to-Waits :
    (c : Requests) (file : Str) (i j : ℕ) (r : Request) (n : ℕ)
    → i ≢ j
    → Waits i r n c
    → Waits i r n (tags_cache_clear_up_to c file j)
unfolding tags_cache_clear_up_to
clear_up_to-Waits c file i j r n h w = set-Waits c i j r n _ h w

cc_head : {r s : Request} {q t : RequestQueue} → r ∷ q ≡ s ∷ t → r ≡ s
cc_head e = cc

cons_of_waiting :
    (q : RequestQueue)
    → request_queue_empty q ≡ false
    → (r : Request) × (rest : RequestQueue) × (q ≡ r ∷ rest)
cons_of_waiting [] e = cc
cons_of_waiting (r ∷ q) e = (r, q, refl)

served-Turned :
    (c : Requests) (i j : ℕ) (r s : Request) (n : ℕ) (rest : RequestQueue)
    → i < clients_max
    → Waits i r n c
    → j < clients_max
    → queue_at c.queues j ≡ s ∷ rest
    → (j ≡ i) ⊎ (distance i ((j + 1) % clients_max) < distance i c.curr_queue)
    → Turned i r n
        (some (j, s), record { queues = set c.queues j rest; curr_queue = (j + 1) % clients_max })
served-Turned c i j r s n rest l w b g (inl k) =
    subst (λ a. Turned i r n (some a, state)) {x = (i, r)} (ap₂ (λ a t. (a, t)) (sym k) same)
      its_turn
  where
    state : Requests
    state = record { queues = set c.queues j rest; curr_queue = (j + 1) % clients_max }

    same : r ≡ s
    same = cc_head (sym w.first ∙ ap (queue_at c.queues) (sym k) ∙ g)
served-Turned c i j r s n rest l w b g (inr k) =
    other (distance i ((j + 1) % clients_max)) (omega (arith, w.near)) (record {
      valid = record {
        storage = length-set c.queues j rest ∙ w.valid.storage;
        inside = omega arith;
      };
      near = omega arith;
      behind = w.behind;
      first = get_or-set_ne c.queues j i rest [] (λ e. ground (arith, w.valid.inside)) ∙ w.first;
    })

reader_turn-Turned :
    (c : Requests) (i : ℕ) (r : Request) (n : ℕ)
    → i < clients_max
    → Waits i r n c
    → Turned i r n (reader_turn c)
reader_turn-Turned c i r n l w =
    let (j, e, b, f, p) = next_queue-between c i w.valid l (ap request_queue_empty w.first) in
    let (s, rest, g) = cons_of_waiting (queue_at c.queues j) f in
    subst (Turned i r n) (sym (reader_turn-serves c j s rest e g))
      (served-Turned c i j r s n rest l w b g p)

then_served :
    (h : List Action) (i : ℕ) (r : Request) (n : ℕ) (p : Option (ℕ × Request) × Requests)
    → Turned i r n p
    → ((m : ℕ) (c : Requests) → m < n → Waits i r m c → Mem (i, r) (served h c))
    → Mem (i, r) (elim p.0 [ none ↦ served h p.1 | some k ↦ k ∷ served h p.1 ])
then_served h i r n _ its_turn f = mem-cons_self
then_served h i r n _ (other m b w) f = mem-cons_of_mem _ (f m _ b w)

pending_served :
    (h : List Action) (c : Requests) (i : ℕ) (r : Request) (n : ℕ)
    → i < clients_max
    → Waits i r n c
    → All (Keeps i) h
    → n < turns h
    → Mem (i, r) (served h c)
pending_served [] c i r n l w k t = absurd (omega arith)
pending_served (adds file sel j ∷ h) c i r n l w k t =
    pending_served h (add_request c file sel j) i r n l (add_request-Waits c file sel i j r n l w)
      k.1 t
pending_served (clears j ∷ h) c i r n l w k t =
    pending_served h (tags_cache_clear_queue c j) i r n l (clear-Waits c i j r n k.0 w) k.1 t
pending_served (clears_up_to file j ∷ h) c i r n l w k t =
    pending_served h (tags_cache_clear_up_to c file j) i r n l
      (clear_up_to-Waits c file i j r n k.0 w) k.1 t
pending_served (reads ∷ h) c i r n l w k t =
    then_served h i r n (reader_turn c) (reader_turn-Turned c i r n l w)
      λ m c' b w'. pending_served h c' i r m l w' k.1 (omega arith)

-- A request at the head of a queue is served within CLIENTS_MAX turns.
pub served-Mem :
    (h : List Action) (c : Requests) (i : ℕ) (r : Request) (q : RequestQueue)
    → IsValid c
    → i < clients_max
    → queue_at c.queues i ≡ r ∷ q
    → All (Keeps i) h
    → clients_max ≤ turns h
    → Mem (i, r) (served h c)
served-Mem h c i r q v l e k t =
    pending_served h c i r 9 l
      (record { valid = v; near = ground (arith, v.inside); behind = q; first = e }) k (omega arith)
