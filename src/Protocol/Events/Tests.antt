-- ===== src/Protocol/Events/Tests.antt =====
-- A run of pushes and takes on the event queue of protocol.c.
use mocp.Prelude.{List, ℕ, ◌≡◌, [], ◌∷◌, some}
use mocp.Prelude.Int.{pos}
use mocp.Protocol.Events.{event_queue_init}
use mocp.Protocol.Events.Client.{Op, push, take_first, run, fifo, run-queue_init}

abbrev ops : List (Op ℕ)
ops =
    take_first
    ∷ push (pos 1) 10
    ∷ push (pos 2) 20
    ∷ take_first
    ∷ push (pos 3) 30
    ∷ take_first
    ∷ take_first
    ∷ take_first
    ∷ []

run-queue_init_example : run [] event_queue_init ops ≡ some (fifo [] ops)
run-queue_init_example = run-queue_init [] ops
