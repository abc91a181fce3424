-- ===== src/AudioConversion.antt =====
-- audio_conversion.c: the conversions of fixed point samples that need no floats.
-- Where the C code works on samples a buffer is the list of its samples, each the unsigned number in its
-- 8, 16 or 32 bits; where it moves bytes a buffer is the list of its bytes.
pub mod Sign
pub mod Endian
pub mod Fast
mod Tests
use mocp.Prelude.{
  ℕ, zero, suc, ◌+◌, ◌-◌, ◌*◌, ◌/◌, ◌%◌, ◌^◌, Bool, true, false, Option, none, some, List, [], ◌∷◌,
  ◌++◌, map, length, take, drop, ◌==◌, leb, if◌then◌else◌,
}
use mocp.Prelude.Int.{ℤ, pos, negsuc}
use mocp.Bytes.{word, of_word}
use mocp.Sound.{Format, Endianness, le, be}

-- `x ^= 1 << k`
abbrev pub flip : ℕ → ℕ → ℕ
flip k x = if x / 2 ^ k % 2 == 1 then x - 2 ^ k else x + 2 ^ k

-- The loops `for (i = 0; i < samples; i++) *buf++ ^= 1 << k;`: `none` where they leave the buffer.
unfoldable pub flip_loop : ℕ → ℕ → List ℕ → Option (List ℕ)
flip_loop k zero buf = some buf
flip_loop k (suc samples) [] = none
flip_loop k (suc samples) (x ∷ buf) = elim (flip_loop k samples buf) [
  | none ↦ none
  | some rest ↦ some (flip k x ∷ rest)
]

abbrev pub change_sign_8 : ℕ → List ℕ → Option (List ℕ)
change_sign_8 = flip_loop 7

abbrev pub change_sign_16 : ℕ → List ℕ → Option (List ℕ)
change_sign_16 = flip_loop 15

abbrev pub change_sign_24 : ℕ → List ℕ → Option (List ℕ)
change_sign_24 = flip_loop 23

abbrev pub change_sign_32 : ℕ → List ℕ → Option (List ℕ)
change_sign_32 = flip_loop 31

abbrev pub with_format : Format → Option (List ℕ) → Option (Format × List ℕ)
with_format fmt none = none
with_format fmt (some buf) = some (fmt, buf)

-- `change_sign` of a buffer of `size` bytes, with the format that it leaves in *fmt; `none` where it calls
-- abort.
unfoldable pub change_sign : List ℕ → ℕ → Format → Option (Format × List ℕ)
change_sign buf size Format.s8 = with_format Format.u8 (change_sign_8 size buf)
change_sign buf size Format.u8 = with_format Format.s8 (change_sign_8 size buf)
change_sign buf size Format.s16 = with_format Format.u16 (change_sign_16 (size / 2) buf)
change_sign buf size Format.u16 = with_format Format.s16 (change_sign_16 (size / 2) buf)
change_sign buf size Format.s24 = with_format Format.u24 (change_sign_24 (size / 4) buf)
change_sign buf size Format.u24 = with_format Format.s24 (change_sign_24 (size / 4) buf)
change_sign buf size Format.s32 = with_format Format.u32 (change_sign_32 (size / 4) buf)
change_sign buf size Format.u32 = with_format Format.s32 (change_sign_32 (size / 4) buf)
change_sign buf size Format.s24_3 = none
change_sign buf size Format.u24_3 = none
change_sign buf size Format.float = none

-- The loops that swap the bytes of samples of 2, 3 and 4 bytes; bytes of no whole sample are left alone.
unfoldable pub audio_conv_bswap_16 : List ℕ → List ℕ
audio_conv_bswap_16 (a ∷ b ∷ rest) = b ∷ a ∷ audio_conv_bswap_16 rest
audio_conv_bswap_16 rest = rest

-- A last sample that is not whole is not swapped here, and swapped with what lies behind it there.
unfoldable pub audio_conv_bswap_24 : List ℕ → List ℕ
audio_conv_bswap_24 (a ∷ b ∷ c ∷ rest) = c ∷ b ∷ a ∷ audio_conv_bswap_24 rest
audio_conv_bswap_24 rest = rest

unfoldable pub audio_conv_bswap_32 : List ℕ → List ℕ
audio_conv_bswap_32 (a ∷ b ∷ c ∷ d ∷ rest) = d ∷ c ∷ b ∷ a ∷ audio_conv_bswap_32 rest
audio_conv_bswap_32 rest = rest

-- `swap_endian` of a whole number of samples
unfoldable pub swap_endian : Format → List ℕ → List ℕ
swap_endian Format.s8 buf = buf
swap_endian Format.u8 buf = buf
swap_endian Format.float buf = buf
swap_endian Format.s16 buf = audio_conv_bswap_16 buf
swap_endian Format.u16 buf = audio_conv_bswap_16 buf
swap_endian Format.s24 buf = audio_conv_bswap_32 buf
swap_endian Format.u24 buf = audio_conv_bswap_32 buf
swap_endian Format.s32 buf = audio_conv_bswap_32 buf
swap_endian Format.u32 buf = audio_conv_bswap_32 buf
swap_endian Format.s24_3 buf = audio_conv_bswap_24 buf
swap_endian Format.u24_3 buf = audio_conv_bswap_24 buf

-- `x >> k` of a signed number, which keeps the sign
abbrev pub shift : ℤ → ℕ → ℤ
shift (pos n) k = pos (n / 2 ^ k)
shift (negsuc n) k = negsuc (n / 2 ^ k)

-- what the loops of the fast conversions make of one sample
abbrev pub s32_to_s16 : ℕ → ℕ
s32_to_s16 x = word 16 (shift (of_word 32 x) 16)

abbrev pub u32_to_u16 : ℕ → ℕ
u32_to_u16 x = x / 2 ^ 16 % 2 ^ 16

abbrev pub s32_to_s24 : ℕ → ℕ
s32_to_s24 x = word 32 (shift (of_word 32 x) 8)

abbrev pub u32_to_u24 : ℕ → ℕ
u32_to_u24 x = x / 2 ^ 8

abbrev pub s24_to_s16 : ℕ → ℕ
s24_to_s16 x = word 16 (shift (of_word 32 x) 8)

abbrev pub u24_to_u16 : ℕ → ℕ
u24_to_u16 x = x / 2 ^ 8 % 2 ^ 16

-- the three bytes that `s32_to_s24_3` stores of one sample
abbrev pub s32_to_s24_3 : ℕ → List ℕ
s32_to_s24_3 x = x / 2 ^ 8 % 256 ∷ x / 2 ^ 16 % 256 ∷ x / 2 ^ 24 % 256 ∷ []

-- the loop of `mono_to_stereo`; a sample has `bps` bytes, so there are no more rounds than bytes
unfoldable pub mono_to_stereo_loop : ℕ → ℕ → List ℕ → List ℕ
mono_to_stereo_loop zero bps mono = []
mono_to_stereo_loop (suc fuel) bps [] = []
mono_to_stereo_loop (suc fuel) bps (x ∷ mono) =
    take bps (x ∷ mono)
    ++ (take bps (x ∷ mono) ++ mono_to_stereo_loop fuel bps (drop bps (x ∷ mono)))

unfoldable pub mono_to_stereo : ℕ → List ℕ → List ℕ
mono_to_stereo bps mono = mono_to_stereo_loop (length mono) bps mono
