-- ===== src/AudioConversion/Tests.antt =====
-- Conversions of concrete samples: silence, the extremes, and values between.
use mocp.Prelude.{
  ℕ, ◌*◌, ◌/◌, ◌^◌, ◌≡◌, refl, List, [], ◌∷◌, map, length, some, none, joined, arith,
}
use mathlib.Core.List.{reverse}
use mocp.Prelude.Int.{pos, ◌+ℤ◌}
use mocp.Bytes.{of_word, of_le_bytes}
use mocp.Sound.{Format, sfmt_bps}
use mocp.AudioConversion.{
  flip, change_sign, swap_endian, s32_to_s16, u32_to_u16, s32_to_s24, u32_to_u24, s24_to_s16,
  u24_to_u16, s32_to_s24_3,
}
use mocp.AudioConversion.Sign.{sixteen, change_sign-raises}
use mocp.AudioConversion.Endian.{swap_endian-reverse}
use mocp.AudioConversion.Fast.{conversions_agree, change_sign_overrun}

abbrev samples : List ℕ
samples = 0 ∷ 32767 ∷ 32768 ∷ []

abbrev groups : List (List ℕ)
groups = (1 ∷ 2 ∷ 3 ∷ []) ∷ (4 ∷ 5 ∷ 6 ∷ []) ∷ []

change_sign-raises_example :
    (out : List ℕ) × (change_sign samples (length samples * 2) Format.s16 ≡ some (Format.u16, out))
    × (map pos out ≡ map (λ x. of_word 16 x +ℤ pos (2 ^ 15)) samples)
    × (change_sign out (length out * 2) Format.u16 ≡ some (Format.s16, samples))
change_sign-raises_example =
    change_sign-raises sixteen samples (omega arith, (omega arith, (omega arith, tt)))

swap_endian-reverse_example : swap_endian Format.s24_3 (joined groups) ≡ joined (map reverse groups)
unfolding sfmt_bps
swap_endian-reverse_example = swap_endian-reverse Format.s24_3 groups refl (refl, (refl, tt))

conversions_agree_example :
    (flip 15 (s32_to_s16 3000000000) ≡ u32_to_u16 (flip 31 3000000000))
    × (s24_to_s16 (s32_to_s24 3000000000) ≡ s32_to_s16 3000000000)
    × (u24_to_u16 (u32_to_u24 3000000000) ≡ u32_to_u16 3000000000)
    × (of_le_bytes (s32_to_s24_3 3000000000) ≡ 3000000000 / 2 ^ 8)
conversions_agree_example = conversions_agree 3000000000 (omega arith)

change_sign_overrun_example : change_sign (map s32_to_s16 (7 ∷ [])) 4 Format.s16 ≡ none
change_sign_overrun_example = change_sign_overrun (7 ∷ []) (omega arith)
