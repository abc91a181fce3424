-- ===== src/FifoBuf/Refine.antt =====
-- `fifo_buf_put` of fifo_buf.c against the queue of the bytes in the buffer.
use mocp.Prelude.{
  ℕ, zero, suc, ◌+◌, ◌-◌, ◌≤◌, ◌<◌, ◌≡◌, refl, ap, ap₂, ◌∙◌, sym, List, ◌++◌, ltb, if◌then◌else◌,
  length, get_or, take, min, slice, blit, tabulate, tabulate-ext, tabulate-eq, tabulate-append,
  length-tabulate, get_or-blit, length-slice, append_assoc, append-slice_none, take-min,
  slice-append-slice, arith, Bool-cases, inl, inr, ◌&&◌,
}
use mocp.FifoBuf.{FifoBuf, write_from, to_write, put_chunk, at_most, put_loop, put, get_space}
use mocp.FifoBuf.Inv.{IsValid, chunk_bounds, put_chunk-IsValid}

-- the index in the array of the k-th byte from `pos`
abbrev pub index : FifoBuf → ℕ → ℕ
index b k = if ltb (b.pos + k) b.size then b.pos + k else b.pos + k - b.size

abbrev pub byte : FifoBuf → ℕ → ℕ
byte b k = get_or b.buf (index b k) 0

-- the bytes in the buffer, oldest first
unfoldable pub contents : FifoBuf → List ℕ
contents b = tabulate b.fill 0 (byte b)

pub length-contents : (b : FifoBuf) → length (contents b) ≡ b.fill
unfolding contents
length-contents b = length-tabulate b.fill 0 (byte b)

-- A chunk written into the gap leaves the bytes in the buffer as they are,
chunk_old :
    {b : FifoBuf} (xs : List ℕ) (k : ℕ)
    → IsValid b
    → b.fill < b.size
    → length xs ≤ to_write b
    → k < b.fill
    → get_or (blit b.buf (write_from b) xs) (index b k) 0 ≡ byte b k
chunk_old {b} xs k v f h l =
    ground (arith, get_or-blit b.buf (write_from b) xs (index b k) 0, chunk_bounds v f)

-- and stands right behind them.
chunk_new :
    {b : FifoBuf} (xs : List ℕ) (k : ℕ)
    → IsValid b
    → b.fill < b.size
    → length xs ≤ to_write b
    → k < length xs
    → get_or (blit b.buf (write_from b) xs) (index b (b.fill + k)) 0 ≡ get_or xs k 0
chunk_new {b} xs k v f h l = ground (
  arith,
  get_or-blit b.buf (write_from b) xs (index b (b.fill + k)) 0,
  chunk_bounds v f,
  ap (λ i. get_or xs i 0) {x = index b (b.fill + k) - write_from b} {y = k},
)

-- Writing a chunk appends it.
contents-put_chunk :
    {b : FifoBuf} (bytes : List ℕ) (written n : ℕ)
    → IsValid b
    → b.fill < b.size
    → n ≤ to_write b
    → written + n ≤ length bytes
    → contents (put_chunk b bytes written n) ≡ contents b ++ slice bytes written n
unfolding contents put_chunk
contents-put_chunk {b} bytes written n v f h w =
    tabulate-append b.fill n (b.fill + n) 0 b.fill (byte b') refl (omega arith)
    ∙ ap₂ ◌++◌ (tabulate-ext b.fill 0 0 _ _ λ k l. chunk_old xs (0 + k) v f fits (omega arith)) (
        ap (λ m. tabulate m b.fill (byte b')) (sym len)
        ∙ tabulate-eq xs b.fill (byte b') 0 λ k l. chunk_new xs k v f fits l)
  where
    b' : FifoBuf
    b' = put_chunk b bytes written n

    xs : List ℕ
    xs = slice bytes written n

    len : length xs ≡ n
    len = length-slice bytes written n w

    fits : length xs ≤ to_write b
    fits = omega (arith, len)

-- what the loop of `fifo_buf_put` has done when it stops, started at `b` with `written` bytes put
record Wrote (b : FifoBuf) (bytes : List ℕ) (written : ℕ) (out : ℕ × FifoBuf) : Type 0 where
  valid : IsValid out.1
  size_same : out.1.size ≡ b.size
  count : out.0 ≡ written + min (length bytes - written) (b.size - b.fill)
  bytes_in :
      contents out.1
      ≡ contents b ++ slice bytes written (min (length bytes - written) (b.size - b.fill))

-- one round of the loop and the rounds after it
put_loop_step :
    {b : FifoBuf} {bytes : List ℕ} {written : ℕ} (n : ℕ) (out : ℕ × FifoBuf)
    → n ≡ at_most (length bytes - written) (to_write b)
    → b.fill < b.size
    → written < length bytes
    → IsValid b
    → Wrote (put_chunk b bytes written n) bytes (written + n) out
    → Wrote b bytes written out
unfolding put_chunk
put_loop_step {b} {bytes} {written} n out e f w v r = record {
  valid = r.valid;
  size_same = r.size_same;
  count = ground (arith, r.count);
  bytes_in =
      r.bytes_in
      ∙ ap (λ l. l ++ slice bytes (written + n) rest)
          (contents-put_chunk bytes written n v f (ground arith) (ground arith))
      ∙ append_assoc (contents b) (slice bytes written n) (slice bytes (written + n) rest)
      ∙ ap (λ l. contents b ++ l)
          (slice-append-slice bytes written (written + n) n rest _ refl (ground arith));
}
  where
    rest : ℕ
    rest = min (length bytes - (written + n)) (b.size - (b.fill + n))

put_loop-Wrote :
    (fuel : ℕ) (b : FifoBuf) (bytes : List ℕ) (written : ℕ)
    → length bytes - written < fuel
    → written ≤ length bytes
    → IsValid b
    → Wrote b bytes written (put_loop fuel b bytes written)
unfolding put_loop
put_loop-Wrote zero b bytes written m w v = absurd (omega arith)
put_loop-Wrote (suc fuel) b bytes written m w v =
    elim (Bool-cases (ltb b.fill b.size && ltb written (length bytes))) [
      | inl more ↦
          let n = at_most (length bytes - written) (to_write b) in
          let f : b.fill < b.size = ground arith in
          rw more (
            put_loop_step n _ refl f (ground arith) v (
              put_loop-Wrote fuel (put_chunk b bytes written n) bytes (written + n)
                (ground (arith, chunk_bounds v f)) (ground arith)
                (put_chunk-IsValid bytes written n v f (ground arith))))
      | inr done ↦ rw done (record {
        valid = v;
        size_same = refl;
        count = ground arith;
        bytes_in = sym (append-slice_none (contents b) bytes written _ (ground arith));
      })
    ]

-- `fifo_buf_put` takes as many bytes as there is room for, returns their number, appends exactly
-- those bytes in order, and keeps the buffer valid and its size the same.
pub put_refines :
    {b : FifoBuf} (bytes : List ℕ)
    → IsValid b
    → let (n, b') = put b bytes in
      (n ≡ min (length bytes) (get_space b))
      × (contents b' ≡ contents b ++ take (get_space b) bytes)
      × IsValid b'
      × (b'.size ≡ b.size)
unfolding put get_space
put_refines {b} bytes v =
    let r = put_loop-Wrote (suc (length bytes)) b bytes 0 (omega arith) (omega arith) v in
    (
      omega (arith, r.count),
      r.bytes_in ∙ ap (λ l. contents b ++ l) (take-min (b.size - b.fill) _ bytes (omega arith)),
      r.valid,
      r.size_same,
    )
