-- ===== src/FifoBuf/Read.antt =====
-- `fifo_buf_get` and `fifo_buf_peek` of fifo_buf.c against the queue of the bytes in the buffer.
use mocp.Prelude.{
  ℕ, zero, suc, ◌+◌, ◌-◌, ◌≤◌, ◌<◌, ◌≡◌, refl, ap, ap₂, ◌∙◌, sym, inl, inr, List, [], ◌++◌, ◌&&◌,
  ltb, ◌==◌, not, Bool-cases, false, take-min, drop-min, length, get_or, take, drop, min, slice,
  tabulate, tabulate-ext, tabulate-eq, take-tabulate, drop-tabulate, get_or-take, get_or-drop,
  take-append-take, drop-drop, append_assoc, append-nil, length-slice, length-append, arith,
}
use mocp.FifoBuf.{FifoBuf, at_most, to_copy, rewind, peek_loop, peek, get_loop, get}
use mocp.FifoBuf.Inv.{IsValid}
use mocp.FifoBuf.Refine.{index, byte, contents, length-contents}

-- the buffer after a round of the reading loop has taken `n` bytes
abbrev taken : FifoBuf → ℕ → FifoBuf
taken b n = record b { fill = b.fill - n; pos = rewind b (b.pos + n) }

taken-IsValid : {b : FifoBuf} (n : ℕ) → IsValid b → n ≤ to_copy b b.fill b.pos → IsValid (taken b n)
taken-IsValid n v h = ground arith

-- A chunk that does not go round the end of the array is the front of the queue.
slice-contents :
    {b : FifoBuf} (n : ℕ)
    → IsValid b
    → n ≤ to_copy b b.fill b.pos
    → slice b.buf b.pos n ≡ take n (contents b)
unfolding contents
slice-contents {b} n v h = sym (
    take-tabulate n b.fill 0 (byte b) (ground arith)
    ∙ ap (λ m. tabulate m 0 (byte b)) (sym len)
    ∙ tabulate-eq (slice b.buf b.pos n) 0 (byte b) 0 λ j l.
      ap (λ i. get_or b.buf i 0) {x = index b (0 + j)} {y = b.pos + j} (ground (arith, len))
      ∙ sym
          (get_or-take n (drop b.pos b.buf) j 0 (omega (arith, len)) ∙ get_or-drop b.buf b.pos j 0))
  where
    len : length (slice b.buf b.pos n) ≡ n
    len = length-slice b.buf b.pos n (ground arith)

contents-taken :
    {b : FifoBuf} (n : ℕ)
    → IsValid b
    → n ≤ to_copy b b.fill b.pos
    → contents (taken b n) ≡ drop n (contents b)
unfolding contents
contents-taken {b} n v h = sym (
    drop-tabulate n b.fill 0 n (b.fill - n) (byte b) (ground arith) (omega arith)
    ∙ tabulate-ext (b.fill - n) n 0 (byte b) (byte (taken b n)) λ k l.
      ap (λ i. get_or b.buf i 0) {x = index b (n + k)} {y = index (taken b n) (0 + k)}
        (ground arith))

-- what the loop of `fifo_buf_get` has done when it stops, started at `b` with `out` read
record Got (b : FifoBuf) (want : ℕ) (out : List ℕ) (r : ℕ × List ℕ × FifoBuf) : Type 0 where
  valid : IsValid r.2
  size_same : r.2.size ≡ b.size
  count : r.0 ≡ length out + min (want - length out) b.fill
  bytes_out : r.1 ≡ out ++ take (min (want - length out) b.fill) (contents b)
  left : contents r.2 ≡ drop (min (want - length out) b.fill) (contents b)

get_loop_step :
    {b : FifoBuf} {want : ℕ} {out : List ℕ} (n : ℕ) (r : ℕ × List ℕ × FifoBuf)
    → n ≡ at_most (want - length out) (to_copy b b.fill b.pos)
    → length out < want
    → IsValid b
    → Got (taken b n) want (out ++ slice b.buf b.pos n) r
    → Got b want out r
get_loop_step {b} {want} {out} n r e w v g = record {
  valid = g.valid;
  size_same = g.size_same;
  count = ground (arith, g.count, len);
  bytes_out =
      g.bytes_out
      ∙ append_assoc out _ _
      ∙ ap (λ l. out ++ l)
          (ap₂ ◌++◌ (slice-contents n v fits) (ap (take rest) (contents-taken n v fits))
            ∙ take-append-take n rest _ (contents b) total);
  left = g.left ∙ ap (drop rest) (contents-taken n v fits) ∙ drop-drop n rest _ (contents b) total;
}
  where
    fits : n ≤ to_copy b b.fill b.pos
    fits = ground arith

    rest : ℕ
    rest = min (want - length (out ++ slice b.buf b.pos n)) (b.fill - n)

    len : length (out ++ slice b.buf b.pos n) ≡ length out + n
    len = length-append out _ ∙ ap (λ k. length out + k) (length-slice b.buf b.pos n (ground arith))

    total : min (want - length out) b.fill ≡ n + rest
    total = ground (arith, len)

get_loop-Got :
    (fuel : ℕ) (b : FifoBuf) (want : ℕ) (out : List ℕ)
    → want - length out < fuel
    → IsValid b
    → Got b want out (get_loop fuel b want out)
unfolding get_loop
get_loop-Got zero b want out m v = absurd (omega arith)
get_loop-Got (suc fuel) b want out m v =
    elim (Bool-cases (not (b.fill == 0) && ltb (length out) want)) [
      | inl more ↦
          let n = at_most (want - length out) (to_copy b b.fill b.pos) in
          rw more (
            get_loop_step n _ refl (ground arith) v (
              get_loop-Got fuel (taken b n) want _
                (ground
                  (arith, length-append out (slice b.buf b.pos n), length-slice b.buf b.pos n))
                (taken-IsValid n v (ground arith))))
      | inr done ↦ rw done (record {
        valid = v;
        size_same = refl;
        count = ground arith;
        bytes_out = sym (rw (none_left done) (append-nil out));
        left = rw (none_left done) refl;
      })
    ]
  where
    none_left :
        not (b.fill == 0) && ltb (length out) want ≡ false → min (want - length out) b.fill ≡ 0
    none_left h = ground arith

-- `fifo_buf_get` returns the first `want` bytes of the queue, or all if there are fewer, removes
-- exactly those, and keeps the buffer valid and its size the same.
pub get_refines :
    {b : FifoBuf} (want : ℕ)
    → IsValid b
    → let (n, out, b') = get b want in
      (n ≡ min want b.fill)
      × (out ≡ take want (contents b))
      × (contents b' ≡ drop want (contents b))
      × IsValid b'
      × (b'.size ≡ b.size)
unfolding get
get_refines {b} want v =
    let g = get_loop-Got (suc want) b want [] (omega arith) v in
    let len : min (want - 0) b.fill ≡ min want (length (contents b)) =
      omega (arith, length-contents b) in
    (
      omega (arith, g.count),
      g.bytes_out ∙ take-min want _ (contents b) len,
      g.left ∙ drop-min want _ (contents b) len,
      g.valid,
      g.size_same,
    )

-- The loop of `fifo_buf_peek` is that of `fifo_buf_get` on copies of `fill` and `pos`.
peek_loop-get_loop :
    (fuel : ℕ) (b : FifoBuf) (want left pos : ℕ) (out : List ℕ)
    → let (n, l, _) = get_loop fuel (record b { fill = left; pos = pos }) want out in
      peek_loop fuel b want left pos out ≡ (n, l)
unfolding peek_loop get_loop
peek_loop-get_loop zero b want left pos out = refl
peek_loop-get_loop (suc fuel) b want left pos out =
    elim (Bool-cases (not (left == 0) && ltb (length out) want)) [
      | inl more ↦ rw more (peek_loop-get_loop fuel b want _ _ _)
      | inr done ↦ rw done
    ]

-- `fifo_buf_peek` returns what `fifo_buf_get` would: a get right after it reads the same bytes.
pub peek-get : (b : FifoBuf) (want : ℕ) → let (n, out, _) = get b want in peek b want ≡ (n, out)
unfolding peek get
peek-get b want = peek_loop-get_loop (suc want) b want b.fill b.pos []
