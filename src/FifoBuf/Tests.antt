-- ===== src/FifoBuf/Tests.antt =====
-- The ring buffer at concrete inputs: a buffer whose content goes round the end of the array.
use mocp.Prelude.{◌≡◌, List, [], ◌∷◌, arith}
use mocp.Queue
use mocp.Queue.{Op, put, get, peek, clear}
use mocp.FifoBuf.{FifoBuf}
use mocp.FifoBuf.Inv.{IsValid}
use mocp.FifoBuf.Refine.{contents}
use mocp.FifoBuf.Client.{run, run_refines}

abbrev wrapped : FifoBuf
wrapped = record { size = 4; pos = 3; fill = 2; buf = 8 ∷ 0 ∷ 0 ∷ 7 ∷ [] }

abbrev script : List Op
script = put (1 ∷ 2 ∷ 3 ∷ []) ∷ peek 9 ∷ get 3 ∷ clear ∷ put (5 ∷ []) ∷ get 1 ∷ []

wrapped-IsValid : IsValid wrapped
wrapped-IsValid = omega arith

run_refines_example : run wrapped script ≡ Queue.run 4 (contents wrapped) script
run_refines_example = run_refines wrapped script wrapped-IsValid
