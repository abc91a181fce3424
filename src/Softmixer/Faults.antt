-- ===== src/Softmixer/Faults.antt =====
-- The loops process_buffer_s8 and process_buffer_u24 of softmixer.c.
use mocp.Prelude.{ℕ, ◌*◌, ◌/◌, ◌≤◌, ◌<◌, ◌≡◌, refl, arith}
use mocp.Prelude.Int.{pos, negsuc, ◌≤ℤ◌, ◌-ℤ◌, ◌+ℤ◌}
use mocp.Word.{wrap64-eq}
use mocp.Bytes.{IsWord}
use mocp.Softmixer.{process_s8, process_u24, s24_min}

-- `process_buffer_s8` multiplies in 16 bits: a positive sample whose product with the gain passes
-- 32767, and is below 64536, comes out negative. At the gain 1000, which should change nothing, these
-- are the samples from 33 to 64.
process_s8_wraps : (r a : ℕ) → 32768 ≤ a * r → a * r ≤ 64536 → process_s8 r (pos a) ≤ℤ negsuc 0
unfolding process_s8
process_s8_wraps r a h k = ground arith

doubled : pos 8388608 -ℤ s24_min ≡ pos 16777216
unfolding ◌-ℤ◌
doubled = refl

IsWord-offset : (q : ℕ) → q ≤ 16777216 → IsWord 64 (pos q +ℤ s24_min)
unfolding ◌+ℤ◌
IsWord-offset q h = ground arith

-- `process_buffer_u24` adds 2^23 to a sample where it should subtract it, since `S24_MIN` is negative:
-- at every gain below 1000 silence, which is 2^23 in this format, comes out lower.
pub process_u24_silence : (r : ℕ) → r < 1000 → process_u24 r (pos 8388608) +ℤ pos 1 ≤ℤ pos 8388608
unfolding process_u24 ◌+ℤ◌
process_u24_silence r h =
    rw
      (
        doubled,
        wrap64-eq (pos (16777216 * r)) (omega arith),
        wrap64-eq (pos (16777216 * r / 1000) +ℤ s24_min)
            (IsWord-offset (16777216 * r / 1000) (omega arith)),
      )
      (ground arith)
