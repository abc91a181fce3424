-- ===== src/Menu/Moves.antt =====
-- `get_item_relative` of menu.c: how far the loops go.
use mocp.Prelude.{ℕ, zero, suc, ◌+◌, ◌-◌, ◌<◌, min, ◌≡◌, arith}
use mocp.Word.{neg_of}
use mocp.Menu.{move_next, move_prev, get_item_relative}

pub move_next-eq : (n i k : ℕ) → i < n → move_next n i k ≡ min (i + k) (n - 1)
unfolding move_next
move_next-eq n i zero h = omega arith
move_next-eq n i (suc k) h = ground (arith, move_next-eq n (suc i) k)

pub move_prev-eq : (i k : ℕ) → move_prev i k ≡ i - k
unfolding move_prev
move_prev-eq i zero = omega arith
move_prev-eq zero (suc k) = omega arith
move_prev-eq (suc i) (suc k) = omega (arith, move_prev-eq i k)

pub move_up : (n i k : ℕ) → get_item_relative n i (neg_of k) ≡ i - k
unfolding move_next
move_up n i zero = omega arith
move_up n i (suc k) = move_prev-eq i (suc k)
