-- ===== src/FifoBuf.antt =====
-- fifo_buf.c: the ring buffer between the decoder and the output.
-- A function that changes `*b` returns the new buffer beside its result. The `int` fields are plain
-- numbers: `FifoBuf.Inv` shows that no sum of them leaves the range of an `int`.
pub mod Inv
pub mod Refine
pub mod Read
pub mod Client
mod Tests
use mocp.Prelude.{
  ℕ, zero, suc, ◌+◌, ◌-◌, ◌≤◌, ◌<◌, List, [], ◌++◌, Bool, ◌&&◌, ltb, leb, ◌==◌, not, if◌then◌else◌,
  length, drop, take, replicate, slice, blit,
}

-- `struct fifo_buf`
pub record FifoBuf : Type 0 where
  pub size : ℕ
  pub pos : ℕ
  pub fill : ℕ
  pub buf : List ℕ

-- `fifo_buf_new`. What xmalloc leaves in the array is not known: `garbage` is its content.
unfoldable pub new : ℕ → List ℕ → FifoBuf
new size garbage = record { size = size; pos = 0; fill = 0; buf = garbage }

-- where the next chunk is written, and how much room there is up to the end of the gap
abbrev pub write_from : FifoBuf → ℕ
write_from b = if ltb (b.pos + b.fill) b.size then b.pos + b.fill else b.pos + b.fill - b.size

abbrev pub to_write : FifoBuf → ℕ
to_write b = if ltb (b.pos + b.fill) b.size then b.size - (b.pos + b.fill) else b.size - b.fill

-- `if (x > left) x = left;`
abbrev pub at_most : ℕ → ℕ → ℕ
at_most left x = if ltb left x then left else x

-- The body of the loop of `fifo_buf_put`: it copies `n` bytes of `data` from `written` on.
pub put_chunk : FifoBuf → List ℕ → ℕ → ℕ → FifoBuf
put_chunk b bytes written n = record b {
  fill = b.fill + n;
  buf = blit b.buf (write_from b) (slice bytes written n);
}

-- `while (b->fill < b->size && written < size)`, on fuel
pub put_loop : ℕ → FifoBuf → List ℕ → ℕ → ℕ × FifoBuf
put_loop zero b bytes written = (written, b)
put_loop (suc fuel) b bytes written =
    let n = at_most (length bytes - written) (to_write b) in
    let rest = put_loop fuel (put_chunk b bytes written n) bytes (written + n) in
    if ltb b.fill b.size && ltb written (length bytes) then rest else (written, b)

-- `fifo_buf_put`. Each round writes a byte or more.
unfoldable pub put : FifoBuf → List ℕ → ℕ × FifoBuf
put b bytes = put_loop (suc (length bytes)) b bytes 0

-- how much is copied by one round of a reading loop with `left` bytes from `pos` on
abbrev pub to_copy : FifoBuf → ℕ → ℕ → ℕ
to_copy b left pos = if leb (pos + left) b.size then left else b.size - pos

-- `if (pos == b->size) pos = 0;`
abbrev pub rewind : FifoBuf → ℕ → ℕ
rewind b pos = if pos == b.size then 0 else pos

-- The loop of `fifo_buf_peek`; `out` is what stands in the user's buffer up to `written`.
pub peek_loop : ℕ → FifoBuf → ℕ → ℕ → ℕ → List ℕ → ℕ × List ℕ
peek_loop zero b want left pos out = (length out, out)
peek_loop (suc fuel) b want left pos out =
    let n = at_most (want - length out) (to_copy b left pos) in
    let rest = peek_loop fuel b want (left - n) (rewind b (pos + n)) (out ++ slice b.buf pos n) in
    if not (left == 0) && ltb (length out) want then rest else (length out, out)

-- `fifo_buf_peek`
unfoldable pub peek : FifoBuf → ℕ → ℕ × List ℕ
peek b want = peek_loop (suc want) b want b.fill b.pos []

-- The loop of `fifo_buf_get`.
pub get_loop : ℕ → FifoBuf → ℕ → List ℕ → ℕ × List ℕ × FifoBuf
get_loop zero b want out = (length out, out, b)
get_loop (suc fuel) b want out =
    let n = at_most (want - length out) (to_copy b b.fill b.pos) in
    let rest =
      get_loop fuel (record b { fill = b.fill - n; pos = rewind b (b.pos + n) }) want
        (out ++ slice b.buf b.pos n) in
    if not (b.fill == 0) && ltb (length out) want then rest else (length out, out, b)

-- `fifo_buf_get`
unfoldable pub get : FifoBuf → ℕ → ℕ × List ℕ × FifoBuf
get b want = get_loop (suc want) b want []

-- `fifo_buf_get_space`
unfoldable pub get_space : FifoBuf → ℕ
get_space b = b.size - b.fill

-- `fifo_buf_get_fill` and `fifo_buf_get_size`
unfoldable pub get_fill : FifoBuf → ℕ
get_fill b = b.fill

unfoldable pub get_size : FifoBuf → ℕ
get_size b = b.size

-- `fifo_buf_clear` leaves `pos` where it is.
unfoldable pub clear : FifoBuf → FifoBuf
clear b = record b { fill = 0 }
