-- ===== src/Protocol/Events/Holds.antt =====
-- `event_push` and `event_pop` of protocol.c, and what list of events a queue in memory holds.
use mocp.Prelude.{
  ℕ, zero, suc, ◌≤◌, ◌<◌, ◌≡◌, refl, ap, ◌∙◌, sym, false, Option, none, some, List, [], ◌∷◌, ◌++◌,
  length, get_elem?, set, ◌==◌, ==_refl, length-set, get_elem?-set_self, get_elem?-set_ne,
  get_elem?-append_left, get_elem?-append_last, arith,
}
use mocp.Prelude.Int.{ℤ}
use mocp.Protocol.Events.{
  Event, EventQueue, Heap, load, opened, new_event, event_push, event_pop, event_get_first,
  event_queue_empty,
}

module _ {D : Type 0} where
  -- Linked cells from the first address to the last, with the events in them; cells were got from malloc in the
  -- order of the links.
  pub data Chain (heap : Heap D) : ℕ → ℕ → List (ℤ × D) → Type 0 where
    last :
        {a : ℕ} {kind : ℤ} {payload : D}
        → load heap a ≡ some (new_event kind payload)
        → Chain heap a a ((kind, payload) ∷ [])
    link :
        {a b t : ℕ} {kind : ℤ} {payload : D} {events : List (ℤ × D)}
        → load heap a ≡ some (record { kind = kind; payload = payload; next = some b })
        → a < b
        → Chain heap b t events
        → Chain heap a t ((kind, payload) ∷ events)

  pub data Holds (heap : Heap D) : EventQueue → List (ℤ × D) → Type 0 where
    no_event : Holds heap (record { head = none; tail = none }) []
    events :
        {a t : ℕ} {xs : List (ℤ × D)}
        → Chain heap a t xs
        → Holds heap (record { head = some a; tail = some t }) xs

  load-below : (heap : Heap D) (a : ℕ) (e : Event D) → load heap a ≡ some e → a < length heap
  load-below [] a e h = cc
  load-below (x ∷ heap) zero e h = omega arith
  load-below (x ∷ heap) (suc a) e h = omega (arith, load-below heap a e h)

  Chain-order : {heap : Heap D} {a t : ℕ} {xs : List (ℤ × D)} → Chain heap a t xs → a ≤ t
  Chain-order (last h) = omega arith
  Chain-order (link h l c) = omega (arith, Chain-order c)

  Chain-last :
      {heap : Heap D} {a t : ℕ} {xs : List (ℤ × D)}
      → Chain heap a t xs
      → (kind : ℤ) × (payload : D) × (load heap t ≡ some (new_event kind payload))
  Chain-last (last {kind = kind} {payload = payload} h) = (kind, payload, h)
  Chain-last (link h l c) = Chain-last c

  Chain-agree :
      (heap other : Heap D) {a t : ℕ} {xs : List (ℤ × D)}
      → ((i : ℕ) → a ≤ i → load other i ≡ load heap i)
      → Chain heap a t xs
      → Chain other a t xs
  Chain-agree heap other same (last {a} h) = last (same a (omega arith) ∙ h)
  Chain-agree heap other same (link {a} h l c) =
      link (same a (omega arith) ∙ h) l (Chain-agree heap other (λ i g. same i (omega arith)) c)

  -- A cell below the first of a chain may be freed.
  Chain-free :
      (heap : Heap D) (f : ℕ) {a t : ℕ} {xs : List (ℤ × D)}
      → f < a
      → Chain heap a t xs
      → Chain (set heap f none) a t xs
  Chain-free heap f l c =
      Chain-agree heap (set heap f none)
        (λ i g. ap opened (get_elem?-set_ne heap none (λ e. absurd (omega (arith, e, g))))) c

  -- memory after a push behind the last cell, at `t`
  record Pushed (heap other : Heap D) (t : ℕ) (kind : ℤ) (payload : D) (x : ℤ) (d : D)
      : Type 0 where
    before : (i : ℕ) → i < t → load other i ≡ load heap i
    linked :
        load other t ≡ some (record { kind = kind; payload = payload; next = some (length heap) })
    added : load other (length heap) ≡ some (new_event x d)

  Chain-push :
      (heap other : Heap D) (kind : ℤ) (payload : D) (x : ℤ) (d : D) {a t : ℕ} {xs : List (ℤ × D)}
      → load heap t ≡ some (new_event kind payload)
      → Pushed heap other t kind payload x d
      → Chain heap a t xs
      → Chain other a (length heap) (xs ++ ((x, d) ∷ []))
  Chain-push heap other kind payload x d {t = t} e p (last {a} {kind = k} {payload = q} h) =
      let same : some (new_event k q) ≡ some (new_event kind payload) = sym h ∙ e in
      link (p.linked ∙ ap relink (sym same)) (load-below heap a (new_event k q) h) (last p.added)
    where
      relink : Option (Event D) → Option (Event D)
      relink none = none
      relink (some f) = some (record f { next = some (length heap) })
  Chain-push heap other kind payload x d e p (link {a} h l c) =
      link (p.before a (omega (arith, Chain-order c)) ∙ h) l
        (Chain-push heap other kind payload x d e p c)

  push_behind-Pushed :
      (heap : Heap D) (t : ℕ) (kind : ℤ) (payload : D) (x : ℤ) (d : D)
      → load heap t ≡ some (new_event kind payload)
      → Pushed heap
          (set heap t (some (record { kind = kind; payload = payload; next = some (length heap) }))
            ++ (some (new_event x d) ∷ []))
          t
          kind
          payload
          x
          d
  push_behind-Pushed heap t kind payload x d e =
      let below = load-below heap t (new_event kind payload) e in
      let cell : Option (Event D) =
        some (record { kind = kind; payload = payload; next = some (length heap) }) in
      let new : Option (Event D) = some (new_event x d) in
      let size = length-set heap t cell in
      record {
        before = λ i l. ap opened (
            get_elem?-append_left (set heap t cell) (new ∷ []) i (omega (arith, size, below))
            ∙ get_elem?-set_ne heap cell (λ q. absurd (omega (arith, q, l))));
        linked = ap opened (
            get_elem?-append_left (set heap t cell) (new ∷ []) t (omega (arith, size, below))
            ∙ get_elem?-set_self heap t cell below);
        added = ap opened (
            ap (get_elem? (set heap t cell ++ (new ∷ []))) (sym size)
            ∙ get_elem?-append_last (set heap t cell) new);
      }

  -- On memory and a queue that hold the events `xs`, `event_push` passes its assertions, follows no dead
  -- pointer and leaves memory and a queue that hold `xs` and behind them the new event.
  pub event_push-Holds :
      (heap : Heap D) (q : EventQueue) (xs : List (ℤ × D)) (x : ℤ) (d : D)
      → Holds heap q xs
      → (other : Heap D) × (r : EventQueue) × (event_push heap q x d ≡ some (other, r))
        × Holds other r (xs ++ ((x, d) ∷ []))
  unfolding event_push
  event_push-Holds heap q xs x d no_event =
      (_, _, refl, events (last (ap opened (get_elem?-append_last heap (some (new_event x d))))))
  event_push-Holds heap q xs x d (events {a} {t} c) =
      let (kind, payload, e) = Chain-last c in
      (
        _,
        _,
        rw (e, event_push) refl,
        events
            (Chain-push heap _ kind payload x d e (push_behind-Pushed heap t kind payload x d e) c),
      )

  -- On memory and a queue that hold an event and behind it `xs`, `event_get_first` returns the address of that
  -- event, the queue is not empty, and `event_pop` passes its assertions, follows no dead pointer and leaves
  -- memory and a queue that hold `xs`.
  pub event_pop-Holds :
      (heap : Heap D) (q : EventQueue) (xs : List (ℤ × D)) (x : ℤ) (d : D)
      → Holds heap q ((x, d) ∷ xs)
      → (a : ℕ) × (next : Option ℕ) × (other : Heap D) × (r : EventQueue) × (event_get_first q
          ≡ some a)
        × (load heap a ≡ some (record { kind = x; payload = d; next = next }))
        × (event_queue_empty q ≡ false)
        × (event_pop heap q ≡ some (other, r))
        × Holds other r xs
  unfolding event_pop event_get_first event_queue_empty
  event_pop-Holds heap q xs x d (events (last {a} h)) = (
    a,
    none,
    set heap a none,
    record { head = none; tail = none },
    refl,
    h,
    refl,
    rw (h, ==_refl a, event_pop) refl,
    no_event,
  )
  event_pop-Holds heap q xs x d (events (link {a} {b} {t} h l c)) =
      let apart : (t == a) ≡ false = ground (arith, Chain-order c) in
      (
        a,
        some b,
        set heap a none,
        record { head = some b; tail = some t },
        refl,
        h,
        refl,
        rw (h, apart, event_pop) refl,
        events (Chain-free heap a l c),
      )
