-- ===== src/FifoBuf/Inv.antt =====
-- The representation invariant of `struct fifo_buf`.
use mocp.Prelude.{ℕ, ◌+◌, ◌^◌, ◌≤◌, ◌<◌, ◌≡◌, List, length, take, drop, length-blit, arith}
use mocp.FifoBuf.{FifoBuf, new, write_from, to_write, put_chunk, clear}

-- The size is at most 2^30, so `pos + fill` fits an `int`.
pub record IsValid (b : FifoBuf) : Type 0 where
  pub storage : length b.buf ≡ b.size
  pub small : b.size ≤ 2 ^ 30
  pub pos_in : b.pos < b.size
  pub fill_in : b.fill ≤ b.size

pub new-IsValid :
    (size : ℕ) (garbage : List ℕ)
    → 0 < size
    → size ≤ 2 ^ 30
    → length garbage ≡ size
    → IsValid (new size garbage)
unfolding new
new-IsValid size garbage h s l = omega arith

pub clear-IsValid : {b : FifoBuf} → IsValid b → IsValid (clear b)
unfolding clear
clear-IsValid v = omega arith

-- The chunk that a round of `fifo_buf_put` writes lies inside the array, and is not empty.
pub chunk_bounds :
    {b : FifoBuf}
    → IsValid b
    → b.fill < b.size
    → (write_from b + to_write b ≤ length b.buf) × (0 < to_write b) × (b.fill + to_write b ≤ b.size)
chunk_bounds v h = ground arith

pub put_chunk-IsValid :
    {b : FifoBuf} (bytes : List ℕ) (written n : ℕ)
    → IsValid b
    → b.fill < b.size
    → n ≤ to_write b
    → IsValid (put_chunk b bytes written n)
unfolding put_chunk
put_chunk-IsValid {b} bytes written n v f h =
    ground (arith, length-blit b.buf (write_from b) (take n (drop written bytes)))
