-- ===== src/Protocol/Events.antt =====
-- protocol.c: the queue of events that wait to be sent to a client, a linked list with two pointers.
-- Memory is the list of the cells that malloc has returned, by address; a cell that has been freed is
-- `none`. A function returns `none` where an assertion fails or where it uses a pointer that is NULL or a
-- cell that has been freed.
pub mod Holds
pub mod Client
mod Tests
use mocp.Prelude.{
  ℕ, ◌≡◌, Bool, true, false, Option, none, some, List, [], ◌∷◌, ◌++◌, length, get_elem?, set, ◌==◌,
  if◌then◌else◌,
}
use mocp.Prelude.Int.{ℤ}

-- `struct event`; a payload is what `data` points to.
pub record Event (D : Type 0) : Type 0 where
  pub kind : ℤ
  pub payload : D
  pub next : Option ℕ

-- `struct event_queue`
pub record EventQueue : Type 0 where
  pub head : Option ℕ
  pub tail : Option ℕ

abbrev pub Heap : Type 0 → Type 0
Heap D = List (Option (Event D))

abbrev pub is_null : Option ℕ → Bool
is_null none = true
is_null (some a) = false

unfoldable pub event_queue_init : EventQueue
event_queue_init = record { head = none; tail = none }

-- the pointer that is returned, which is the head
unfoldable pub event_get_first : EventQueue → Option ℕ
event_get_first q = q.head

unfoldable pub event_queue_empty : EventQueue → Bool
event_queue_empty q = is_null q.head

module _ {D : Type 0} where
  abbrev pub opened : Option (Option (Event D)) → Option (Event D)
  opened none = none
  opened (some cell) = cell

  -- the cell at an address that is not NULL
  abbrev pub load : Heap D → ℕ → Option (Event D)
  load heap a = opened (get_elem? heap a)

  abbrev pub new_event : ℤ → D → Event D
  new_event event payload = record { kind = event; payload = payload; next = none }

  -- the branch for a queue that is not empty, with the last event
  abbrev pub push_behind : Heap D → EventQueue → ℕ → Event D → ℤ → D → Option (Heap D × EventQueue)
  push_behind heap q t last event payload =
      if is_null last.next
      then some (
        set heap t (some (record last { next = some (length heap) }))
            ++ (some (new_event event payload) ∷ []),
        record { head = q.head; tail = some (length heap) },
      )
      else none

  unfoldable pub event_push : Heap D → EventQueue → ℤ → D → Option (Heap D × EventQueue)
  event_push heap q event payload = elim q.head [
    | none ↦ some (
      heap ++ (some (new_event event payload) ∷ []),
      record { head = some (length heap); tail = some (length heap) },
    )
    | some a ↦ elim q.tail [
      | none ↦ none
      | some t ↦ elim (load heap t) [
        | none ↦ none
        | some last ↦ push_behind heap q t last event payload
      ]
    ]
  ]

  unfoldable pub event_pop : Heap D → EventQueue → Option (Heap D × EventQueue)
  event_pop heap q = elim q.head [
    | none ↦ none
    | some a ↦ elim q.tail [
      | none ↦ none
      | some t ↦ elim (load heap a) [
        | none ↦ none
        | some e ↦
            some (set heap a none, record { head = e.next; tail = if t == a then none else some t })
      ]
    ]
  ]
