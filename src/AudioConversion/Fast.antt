-- ===== src/AudioConversion/Fast.antt =====
-- The fast conversions of audio_conversion.c: from 32 to 24 and 16 bits, with a change of sign.
use mocp.Prelude.{ℕ, ◌*◌, ◌/◌, ◌^◌, ◌<◌, ◌≡◌, ap, List, none, map, length, length-map, arith}
use mocp.Bytes.{of_le_bytes}
use mocp.Sound.{Format}
use mocp.AudioConversion.Sign.{flip_loop_overrun}
use mocp.AudioConversion.{
  change_sign, with_format, flip, s32_to_s16, u32_to_u16, s32_to_s24, u32_to_u24, s24_to_s16,
  u24_to_u16, s32_to_s24_3,
}

-- Of every sample of 32 bits: to convert the signed sample to 16 bits and change its sign then
-- gives what changing the sign first and converting the unsigned sample to 16 bits does; the
-- conversion to 24 bits and that from 24 to 16, both signed or both unsigned, give what the
-- conversion to 16 bits at once does; the three bytes of the packed format are the top three.
pub conversions_agree :
    (x : ℕ)
    → x < 2 ^ 32
    → (flip 15 (s32_to_s16 x) ≡ u32_to_u16 (flip 31 x))
      × (s24_to_s16 (s32_to_s24 x) ≡ s32_to_s16 x)
      × (u24_to_u16 (u32_to_u24 x) ≡ u32_to_u16 x)
      × (of_le_bytes (s32_to_s24_3 x) ≡ x / 2 ^ 8)
unfolding of_le_bytes
conversions_agree x h = (ground arith, ground arith, ground arith, ground arith)

-- `change_sign` of a buffer that the fast conversion from 32 to 16 bits made, told the bytes of the buffer
-- of before, four a sample, leaves the buffer, unless it is empty.
pub change_sign_overrun :
    (buf : List ℕ)
    → 0 < length buf
    → change_sign (map s32_to_s16 buf) (length buf * 4) Format.s16 ≡ none
unfolding change_sign
change_sign_overrun buf h = ap (with_format Format.u16) (
    flip_loop_overrun 15 (map s32_to_s16 buf) (length buf * 4 / 2)
      (omega (arith, length-map buf s32_to_s16)))
