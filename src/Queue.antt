-- ===== src/Queue.antt =====
-- The bounded byte queue that fifo_buf.h promises: its operations, oldest byte first.
use mocp.Prelude.{ℕ, ◌-◌, List, [], ◌∷◌, ◌++◌, length, take, drop}

-- a client's calls
pub data Op : Type 0 where
  put : List ℕ → Op
  get : ℕ → Op
  peek : ℕ → Op
  clear : Op

module _ (size : ℕ) where
  -- what a call returns, and the queue after it
  unfoldable pub step : List ℕ → Op → List ℕ × List ℕ
  step q (put bytes) = (take (size - length q) bytes, q ++ take (size - length q) bytes)
  step q (get n) = (take n q, drop n q)
  step q (peek n) = (take n q, q)
  step q clear = ([], [])

  unfoldable pub run : List ℕ → List Op → List (List ℕ)
  run q [] = []
  run q (o ∷ os) = let (r, q') = step q o in r ∷ run q' os
