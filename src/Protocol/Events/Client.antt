-- ===== src/Protocol/Events/Client.antt =====
-- Any use of the event queue by event_push and, as interface.c does it, event_get_first and event_pop.
use mocp.Prelude.{◌≡◌, refl, ap, Option, none, some, List, [], ◌∷◌, ◌++◌}
use mocp.Prelude.Int.{ℤ}
use mocp.Protocol.Events.{
  EventQueue, Heap, load, event_queue_init, event_push, event_pop, event_get_first,
}
use mocp.Protocol.Events.Holds.{Holds, no_event, events, event_push-Holds, event_pop-Holds}

pub data Op (D : Type 0) : Type 0 where
  push : ℤ → D → Op D
  -- the first event, if there is one, is read and popped
  take_first : Op D

module _ {D : Type 0} where
  abbrev prepend : ℤ × D → Option (List (ℤ × D)) → Option (List (ℤ × D))
  prepend x none = none
  prepend x (some xs) = some (x ∷ xs)

  -- the events that are read; `none` if an assertion fails or a dead pointer is followed
  unfoldable pub run : Heap D → EventQueue → List (Op D) → Option (List (ℤ × D))
  run heap q [] = some []
  run heap q (push x d ∷ ops) = elim (event_push heap q x d) [
    | none ↦ none
    | some (other, r) ↦ run other r ops
  ]
  run heap q (take_first ∷ ops) = elim (event_get_first q) [
    | none ↦ run heap q ops
    | some a ↦ elim (load heap a) [
      | none ↦ none
      | some e ↦ elim (event_pop heap q) [
        | none ↦ none
        | some (other, r) ↦ prepend (e.kind, e.payload) (run other r ops)
      ]
    ]
  ]

  -- what a queue that is a list gives
  unfoldable pub fifo : List (ℤ × D) → List (Op D) → List (ℤ × D)
  fifo xs [] = []
  fifo xs (push x d ∷ ops) = fifo (xs ++ ((x, d) ∷ [])) ops
  fifo [] (take_first ∷ ops) = fifo [] ops
  fifo (x ∷ xs) (take_first ∷ ops) = x ∷ fifo xs ops

  run-fifo :
      (heap : Heap D) (q : EventQueue) (xs : List (ℤ × D)) (ops : List (Op D))
      → Holds heap q xs
      → run heap q ops ≡ some (fifo xs ops)
  unfolding run fifo event_get_first
  run-fifo heap q xs [] h = refl
  run-fifo heap q xs (push x d ∷ ops) h =
      let (other, r, e, k) = event_push-Holds heap q xs x d h in
      rw (e, run) (run-fifo other r (xs ++ ((x, d) ∷ [])) ops k)
  run-fifo heap q [] (take_first ∷ ops) no_event = run-fifo heap q [] ops no_event
  run-fifo heap q [] (take_first ∷ ops) (events c) = elim c [ ]
  run-fifo heap q ((x, d) ∷ xs) (take_first ∷ ops) h =
      let (a, next, other, r, first, cell, some_event, popped, k) =
        event_pop-Holds heap q xs x d h in
      rw (first, cell, popped, run) (ap (prepend (x, d)) (run-fifo other r xs ops k))

  -- A queue that event_queue_init has set up, in any memory, behaves as a first-in first-out list:
  -- whatever events are pushed and taken in whatever order, the same events come out, one that is
  -- pushed again while it is on the queue as often as it was pushed, no assertion fails and no
  -- dead pointer is followed.
  pub run-queue_init :
      (heap : Heap D) (ops : List (Op D)) → run heap event_queue_init ops ≡ some (fifo [] ops)
  unfolding event_queue_init
  run-queue_init heap ops = run-fifo heap event_queue_init [] ops no_event
