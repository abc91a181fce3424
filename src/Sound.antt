-- ===== src/Sound.antt =====
-- The sample formats and sound parameters of audio.h.
use mocp.Prelude.{ℕ}

-- `enum sfmt_type`: the format of the samples without their byte order
pub data Format : Type 0 where
  s8 u8 s16 u16 s24 u24 s32 u32 s24_3 u24_3 float : Format

pub data Endianness : Type 0 where
  le be : Endianness

-- `struct sound_params`
pub record SoundParams : Type 0 where
  pub channels : ℕ
  pub rate : ℕ
  pub fmt : Format
  pub endianness : Endianness

-- `sfmt_Bps`
unfoldable pub sfmt_bps : Format → ℕ
sfmt_bps Format.s8 = 1
sfmt_bps Format.u8 = 1
sfmt_bps Format.s16 = 2
sfmt_bps Format.u16 = 2
sfmt_bps Format.s24_3 = 3
sfmt_bps Format.u24_3 = 3
sfmt_bps Format.s24 = 4
sfmt_bps Format.u24 = 4
sfmt_bps Format.s32 = 4
sfmt_bps Format.u32 = 4
sfmt_bps Format.float = 4
