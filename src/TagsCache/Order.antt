-- ===== src/TagsCache/Order.antt =====
-- tags_cache.c: the order in which the requests of one client are served.
use mocp.Prelude.{
  get_or-set_self, get_or-set_ne, ℕ, zero, suc, ◌<◌, ◌≡◌, refl, sym, ap, ◌∙◌, true, Option, none,
  some, List, [], ◌∷◌, ◌++◌, length, set, ◌==◌, if◌then◌else◌, All, arith, length-set, inl, inr,
  Bool-cases, append_assoc, append-nil, subst,
}
use mocp.TagsCache.Requests.{
  Request, RequestQueue, Requests, queue_at, request_queue_pop, next_queue, reader_turn, taken,
  request_queue_add, add_request, tags_cache_clear_queue, tags_cache_clear_up_to,
}
use mocp.TagsCache.Actions.{Action, adds, clears, clears_up_to, reads, act, served, after, Keeps}

-- the request of client i in what a turn serves
abbrev one_of : ℕ → Option (ℕ × Request) → List Request
one_of i none = []
one_of i (some (j, r)) = if j == i then r ∷ [] else []

-- the requests of client i among those served
abbrev pub of_client : ℕ → List (ℕ × Request) → List Request
of_client i [] = []
of_client i ((j, r) ∷ rs) = let rest = of_client i rs in if j == i then r ∷ rest else rest

-- the requests that client i adds
abbrev pub added : ℕ → List Action → List Request
added i [] = []
added i (adds file sel j ∷ h) =
    let rest = added i h in if j == i then record { file = file; tags_sel = sel } ∷ rest else rest
added i (clears j ∷ h) = added i h
added i (clears_up_to file j ∷ h) = added i h
added i (reads ∷ h) = added i h

-- A turn moves the head of a queue to its client.
record Moved (i : ℕ) (c : Requests) (p : Option (ℕ × Request) × Requests) : Type 0 where
  storage : length p.1.queues ≡ length c.queues
  moves : one_of i p.0 ++ queue_at p.1.queues i ≡ queue_at c.queues i

lt_of_queue :
    (qs : List RequestQueue) (j : ℕ) (r : Request) (q : RequestQueue)
    → queue_at qs j ≡ r ∷ q
    → j < length qs
lt_of_queue [] j r q e = cc
lt_of_queue (x ∷ qs) zero r q e = omega arith
lt_of_queue (x ∷ qs) (suc j) r q e = omega (arith, lt_of_queue qs j r q e)

taken-Moved :
    (i : ℕ) (c : Requests) (j : ℕ) (q : RequestQueue)
    → queue_at c.queues j ≡ q
    → Moved i c (taken c j (request_queue_pop q))
unfolding taken
taken-Moved i c j [] e = record { storage = refl; moves = refl }
taken-Moved i c j (r ∷ q) e = elim (Bool-cases (j == i)) [
  | inl k ↦ record {
    storage = length-set c.queues j q;
    moves = rw k (
        ap (λ t. r ∷ t)
          (ap (queue_at (set c.queues j q)) {x = i} {y = j} (ground arith)
            ∙ get_or-set_self c.queues j q [] (lt_of_queue c.queues j r q e))
        ∙ sym e
        ∙ ap (queue_at c.queues) (ground arith));
  }
  | inr k ↦ record {
    storage = length-set c.queues j q;
    moves = rw k (get_or-set_ne c.queues j i q [] (ground arith));
  }
]

reader_turn-Moved : (i : ℕ) (c : Requests) → Moved i c (reader_turn c)
unfolding reader_turn
reader_turn-Moved i c = go (next_queue c)
  where
    go :
        (o : Option ℕ)
        → Moved i c (elim o [
          | none ↦ (none, c)
          | some j ↦ taken c j (request_queue_pop (queue_at c.queues j))
        ])
    go none = record { storage = refl; moves = refl }
    go (some j) = taken-Moved i c j (queue_at c.queues j) refl

added-cons :
    (i : ℕ) (a : Action) (h : List Action) → added i (a ∷ h) ≡ added i (a ∷ []) ++ added i h
added-cons i (adds file sel j) h = elim (Bool-cases (j == i)) [
  | inl e ↦ rw e refl
  | inr e ↦ rw e refl
]
added-cons i (clears j) h = refl
added-cons i (clears_up_to file j) h = refl
added-cons i reads h = refl

of_client-served :
    (i : ℕ) (p : Option (ℕ × Request) × Requests) (h : List Action)
    → of_client i (elim p.0 [ none ↦ served h p.1 | some k ↦ k ∷ served h p.1 ])
      ≡ one_of i p.0 ++ of_client i (served h p.1)
of_client-served i (none, c) h = refl
of_client-served i (some (j, r), c) h = elim (Bool-cases (j == i)) [
  | inl e ↦ rw e refl
  | inr e ↦ rw e refl
]

-- An action moves the head of a queue to its client and adds what is asked for.
record Acted (i : ℕ) (a : Action) (c : Requests) : Type 0 where
  storage : length (act a c).1.queues ≡ length c.queues
  moves :
      one_of i (act a c).0 ++ queue_at (act a c).1.queues i
      ≡ queue_at c.queues i ++ added i (a ∷ [])

act-Acted : (i : ℕ) (a : Action) (c : Requests) → i < length c.queues → Keeps i a → Acted i a c
unfolding add_request request_queue_add tags_cache_clear_queue tags_cache_clear_up_to
act-Acted i (adds file sel j) c l k = elim (Bool-cases (j == i)) [
  | inl e ↦
      subst (λ j. Acted i (adds file sel j) c) {x = i} (ground arith)
        record {
          storage = length-set c.queues i _;
          moves =
              let same : (i == i) ≡ true = ground arith in
              rw same (get_or-set_self c.queues i _ [] l);
        }
  | inr e ↦ record {
    storage = length-set c.queues j _;
    moves = rw e (get_or-set_ne c.queues j i _ [] (ground arith) ∙ sym (append-nil _));
  }
]
act-Acted i (clears j) c l k = record {
  storage = length-set c.queues j _;
  moves = get_or-set_ne c.queues j i _ [] (λ e. k (sym e)) ∙ sym (append-nil _);
}
act-Acted i (clears_up_to file j) c l k = record {
  storage = length-set c.queues j _;
  moves = get_or-set_ne c.queues j i _ [] (λ e. k (sym e)) ∙ sym (append-nil _);
}
act-Acted i reads c l k =
    let m = reader_turn-Moved i c in
    record { storage = m.storage; moves = m.moves ∙ sym (append-nil _) }

-- While a client drops no request, the requests of it that reader_thread serves, followed by those
-- that still wait, are those that waited before, followed by those that it added, in this order;
-- whatever the other clients do.
pub served-in_order :
    (h : List Action) (c : Requests) (i : ℕ)
    → i < length c.queues
    → All (Keeps i) h
    → of_client i (served h c) ++ queue_at (after h c).queues i ≡ queue_at c.queues i ++ added i h
served-in_order [] c i l k = sym (append-nil _)
served-in_order (a ∷ h) c i l (k, ks) =
    let s = act-Acted i a c l k in
    ap (λ t. t ++ queue_at (after h (act a c).1).queues i) (of_client-served i (act a c) h)
    ∙ append_assoc (one_of i (act a c).0) _ _
    ∙ ap (λ t. one_of i (act a c).0 ++ t)
        (served-in_order h (act a c).1 i (omega (arith, s.storage)) ks)
    ∙ sym (append_assoc (one_of i (act a c).0) _ _)
    ∙ ap (λ t. t ++ added i h) s.moves
    ∙ append_assoc (queue_at c.queues i) _ _
    ∙ ap (λ t. queue_at c.queues i ++ t) (sym (added-cons i a h))
